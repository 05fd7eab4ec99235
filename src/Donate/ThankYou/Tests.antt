-- ===== src/Donate/ThankYou/Tests.antt =====
-- A cookie whose newest gift was left unfinished, before one that is paid.
use monster_paws.Prelude.{Text, text_eq, lookup, codes, ◌≡◌, refl, none, some, List, [], ◌∷◌, Map}
use monster_paws.Donate.Ledger.{Intent}
use monster_paws.Donate.Ledger.Tests.{intent, intent_id}
use monster_paws.Donate.ThankYou.{choose}

abbrev unfinished_id : Text
unfinished_id = codes "zbcdefghijklmnopqrstuv"

abbrev started : Map Text Intent
started = (unfinished_id, intent) ∷ (intent_id, record intent { closed_at = some 2_000 }) ∷ []

abbrev cookie : List Text
cookie = codes "gone" ∷ unfinished_id ∷ intent_id ∷ []

paid_is_chosen : choose 9_000_000 none cookie started ≡ some intent_id
unfolding choose lookup text_eq
paid_is_chosen = refl

unfinished_is_chosen : choose 9_000_000 none (unfinished_id ∷ []) started ≡ some unfinished_id
unfolding choose lookup text_eq
unfinished_is_chosen = refl
