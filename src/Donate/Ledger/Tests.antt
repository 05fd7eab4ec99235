-- ===== src/Donate/Ledger/Tests.antt =====
-- Decisions of core/donate/webhook.ts on a ledger with one open intent.
use monster_paws.Prelude.{Text, codes, ◌≡◌, refl, none, some, [], ◌∷◌}
use monster_paws.Donate.Body.{DonationFields}
use monster_paws.Donate.Ledger.{Intent, Ledger, decide}
use monster_paws.Donate.Ledger.Books.{Books, decide-Books}
use monster_paws.Donate.Ledger.Again.{again_of, SameGifts, decide-again}

abbrev pub intent_id : Text
intent_id = codes "abcdefghijklmnopqrstuv"

abbrev pub intent : Intent
intent = record {
  animal_source = codes "rescuegroups";
  animal_external_id = codes "77";
  nonprofit_slug = codes "happy-paws";
  nonprofit_ein = codes "12-3456789";
  donor_email = some (codes "a@b.org");
  created_at = 1_000;
  closed_at = none;
}

abbrev pub ledger : Ledger
ledger = record { intents = (intent_id, intent) ∷ []; donations = []; stats = []; decisions = [] }

abbrev pub gift : DonationFields
gift = record {
  charge_id = codes "ch_1";
  amount = codes "25.00";
  net_amount = none;
  currency = codes "USD";
  frequency = codes "ONCE";
  donated_at = 86_400_000;
  slug = codes "happy-paws";
  ein = codes "123456789";
  name = codes "Happy Paws";
}

pub ledger-Books : Books ledger
ledger-Books = record { once = tt; closed = tt; counts = refl }

decide_example : Books (decide 2_000 1 intent_id gift ledger).1
decide_example = decide-Books 2_000 1 intent_id gift ledger ledger-Books

again_example :
    let (outcome, l') = decide 2_000 1 intent_id gift ledger in
    let (outcome', l'') = decide 3_000 2 intent_id gift l' in
    (outcome' ≡ again_of outcome) × SameGifts l'' l'
again_example = decide-again 2_000 3_000 1 2 intent_id gift ledger
