-- ===== src/Donate/Ledger.antt =====
-- The tables that core/donate/webhook.ts writes, and its decision of one delivery. A transaction
-- is one step; the row lock and the unique index on the charge are what makes it one.
pub mod Books
pub mod Again
pub mod Tests
use monster_paws.Prelude.{
  ℕ, suc, length, ltb, ◌==◌, ◌/◌, ◌+◌, Text, text_eq, text_key, nat_key, leb, Bool, true, false,
  not, ◌||◌, ◌&&◌, Option, none, some, List, [], ◌∷◌, ◌++◌, Map, lookup, insert, keep_if,
  if◌then◌else◌,
}
use monster_paws.Donate.Body.{DonationFields}

-- A row of `donation_intents`; its id is the key that it stands under.
pub record Intent : Type 0 where
  pub animal_source : Text
  pub animal_external_id : Text
  pub nonprofit_slug : Text
  pub nonprofit_ein : Text
  pub donor_email : Option Text
  pub created_at : ℕ
  pub closed_at : Option ℕ

pub record Donation : Type 0 where
  pub intent_id : Text
  pub webhook_payload_id : ℕ
  pub charge_id : Text
  pub amount : Text
  pub net_amount : Option Text
  pub currency : Text
  pub frequency : Text
  pub nonprofit_slug : Text
  pub nonprofit_ein : Text
  pub nonprofit_name : Text
  pub donated_at : ℕ

-- `donated_on` is the day since the epoch.
pub record DonationStat : Type 0 where
  pub animal_source : Text
  pub animal_external_id : Text
  pub nonprofit_slug : Text
  pub amount : Text
  pub currency : Text
  pub frequency : Text
  pub donated_on : ℕ

pub data WebhookOutcome : Type 0 where
  recorded replay unparsable no_partner_id other_event no_intent closed_intent : WebhookOutcome
  charge_on_other_intent nonprofit_mismatch bad_fields decision_failed : WebhookOutcome

pub record Ledger : Type 0 where
  pub intents : Map Text Intent
  pub donations : List Donation
  pub stats : List DonationStat
  pub decisions : Map ℕ WebhookOutcome

abbrev pub day_ms : ℕ
day_ms = 86_400_000

-- `einDigits`.
pub ein_digits : Text → Text
ein_digits = keep_if λ c. leb b'0' c && leb c b'9'

-- The row of a charge, of which the unique index allows one.
pub donation_of : Text → List Donation → Option Donation
donation_of charge_id [] = none
donation_of charge_id (d ∷ ds) =
    if text_eq d.charge_id charge_id then some d else donation_of charge_id ds

pub donation_row : ℕ → Text → DonationFields → Donation
donation_row payload_id intent_id fields = record {
  intent_id = intent_id;
  webhook_payload_id = payload_id;
  charge_id = fields.charge_id;
  amount = fields.amount;
  net_amount = fields.net_amount;
  currency = fields.currency;
  frequency = fields.frequency;
  nonprofit_slug = fields.slug;
  nonprofit_ein = fields.ein;
  nonprofit_name = fields.name;
  donated_at = fields.donated_at;
}

pub stat_row : Intent → DonationFields → DonationStat
stat_row intent fields = record {
  animal_source = intent.animal_source;
  animal_external_id = intent.animal_external_id;
  nonprofit_slug = fields.slug;
  amount = fields.amount;
  currency = fields.currency;
  frequency = fields.frequency;
  donated_on = fields.donated_at / day_ms;
}

-- An intent that is closed: the charge is known on it, or it is not its charge.
pub closed_outcome : Text → Text → List Donation → WebhookOutcome
closed_outcome intent_id charge_id donations = elim (donation_of charge_id donations) [
  | none ↦ closed_intent
  | some known ↦ if text_eq known.intent_id intent_id then replay else closed_intent
]

-- `numeric(12, 2)` holds ten digits before the point. The amounts have at most two after it.
unfoldable pub whole_digits : Text → Text
whole_digits [] = []
whole_digits (c ∷ s) = let rest = whole_digits s in if c == b'.' then [] else c ∷ rest

unfoldable pub drop_zeros : Text → Text
drop_zeros [] = []
drop_zeros (c ∷ s) = let rest = drop_zeros s in if c == b'0' then rest else c ∷ s

unfoldable pub is_too_large : Text → Bool
unfolding whole_digits drop_zeros
is_too_large amount = ltb 10 (length (drop_zeros (whole_digits amount)))

unfoldable pub overflows : DonationFields → Bool
unfolding is_too_large
overflows fields =
    is_too_large fields.amount
    || elim fields.net_amount [ none ↦ false | some net ↦ is_too_large net ]

-- An open intent: the donation, its stat and the closing, unless the charge is taken; an amount
-- that overflows its column throws.
pub record_gift : ℕ → ℕ → Text → Intent → DonationFields → Ledger → WebhookOutcome × Ledger
unfolding donation_row stat_row overflows
record_gift now payload_id intent_id intent fields l =
    if overflows fields
    then (decision_failed, l)
    else elim (donation_of fields.charge_id l.donations) [
      | some taken ↦ (charge_on_other_intent, l)
      | none ↦ (
        recorded,
        record l {
          donations = l.donations ++ donation_row payload_id intent_id fields ∷ [];
          stats = l.stats ++ stat_row intent fields ∷ [];
          intents = insert intent_id (record intent { closed_at = some now }) l.intents;
        },
      )
    ]

pub is_mismatch : Intent → DonationFields → Bool
unfolding ein_digits
is_mismatch intent fields =
    not (text_eq intent.nonprofit_slug fields.slug)
    || not (text_eq (ein_digits intent.nonprofit_ein) (ein_digits fields.ein))

pub decide_intent : ℕ → ℕ → Text → Intent → DonationFields → Ledger → WebhookOutcome × Ledger
unfolding record_gift closed_outcome is_mismatch
decide_intent now payload_id intent_id intent fields l =
    if is_mismatch intent fields then (nonprofit_mismatch, l) else elim intent.closed_at [
      | some at ↦ (closed_outcome intent_id fields.charge_id l.donations, l)
      | none ↦ record_gift now payload_id intent_id intent fields l
    ]

-- `decideLocked`; `now` is the database's clock.
pub decide_locked : ℕ → ℕ → Text → DonationFields → Ledger → WebhookOutcome × Ledger
unfolding decide_intent
decide_locked now payload_id partner_id fields l = elim (lookup partner_id l.intents) [
  | none ↦ (no_intent, l)
  | some intent ↦ decide_intent now payload_id partner_id intent fields l
]

-- `onConflictDoNothing` on the payload's id.
unfoldable pub add_decision : ℕ → WebhookOutcome → Ledger → Ledger
add_decision payload_id outcome l = elim (lookup payload_id l.decisions) [
  | some decided ↦ l
  | none ↦ record l { decisions = insert payload_id outcome l.decisions }
]

-- A decision that threw leaves no row.
unfoldable pub is_failed : WebhookOutcome → Bool
is_failed decision_failed = true
is_failed _ = false

unfoldable pub commit_decision : ℕ → WebhookOutcome → Ledger → Ledger
unfolding is_failed add_decision
commit_decision payload_id outcome l =
    if is_failed outcome then l else add_decision payload_id outcome l

-- `decide`, with the outcome that `decideStored` gives to what it throws.
pub decide : ℕ → ℕ → Text → DonationFields → Ledger → WebhookOutcome × Ledger
unfolding decide_locked commit_decision
decide now payload_id partner_id fields l =
    let (outcome, l') = decide_locked now payload_id partner_id fields l in
    (outcome, commit_decision payload_id outcome l')
