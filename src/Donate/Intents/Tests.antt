-- ===== src/Donate/Intents/Tests.antt =====
-- Runs of core/donate/intent.ts on one intent.
use monster_paws.Prelude.{
  take, keep_if, not, Text, List, ◌≢◌, ◌≤◌, text_key, codes, text_eq, lookup, length, ◌≡◌, refl,
  some, [], ◌∷◌, All, true,
}
use monster_paws.Donate.Shapes.{is_intent_id, run_of, every}
use monster_paws.Donate.Ledger.Tests.{intent, intent_id}
use monster_paws.Donate.Intents.{Desk, intent_ids_of, with_intent}
use monster_paws.Donate.Intents.Cookie.{with_intent-intent_ids_of}

abbrev desk : Desk
desk = record { intents = (intent_id, intent) ∷ []; sends = [] }

is_id : is_intent_id intent_id ≡ true
unfolding is_intent_id run_of every
is_id = refl

cookie_example :
    (more : List Text) × (intent_ids_of (some (with_intent (some (codes "x.y")) intent_id))
      ≡ intent_id ∷ more)
    × (more
        ≡ take 19
            (keep_if (λ known. not (text_eq known intent_id)) (intent_ids_of (some (codes "x.y")))))
    × All (λ t. t ≢ intent_id) more
    × All (λ t. is_intent_id t ≡ true) more
    × (length more ≤ 19)
cookie_example = with_intent-intent_ids_of (some (codes "x.y")) intent_id is_id

found : lookup intent_id desk.intents ≡ some intent
unfolding lookup text_eq
found = refl
