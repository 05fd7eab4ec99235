-- ===== src/Donate/Webhook.antt =====
-- core/donate/webhook.ts and core/donate/webhook-replay.ts: deliveries become rows, rows are
-- decided, and files that the database could not take become rows later.
pub mod Spool
pub mod Decided
mod Tests
use monster_paws.Prelude.{
  zero, ℕ, suc, ◌+◌, ◌⊎◌, inl, inr, Text, text_eq, codes, nat_key, ltb, Bool, true, false, not,
  ◌&&◌, Option, none, some, List, [], ◌∷◌, ◌++◌, lookup, keep_if, if◌then◌else◌,
}
use monster_paws.Donate.Shapes.{is_intent_id}
use monster_paws.Donate.Body.{
  DonationFields, Value, Fields, text_of, text_at, has_field, fitting, storable_body,
  donation_fields,
}
use monster_paws.Donate.Ledger.{
  Ledger, WebhookOutcome, unparsable, no_partner_id, other_event, bad_fields, add_decision, decide,
}

-- `StoredDelivery`, but for the headers. A row's JSON text stands for the object that it prints.
pub record StoredDelivery : Type 0 where
  pub body : Fields Value
  pub partner_donation_id : Option Text
  pub received_at : ℕ

-- A row of `everyorg_webhook_payloads`.
pub record PayloadRow : Type 0 where
  pub id : ℕ
  pub delivery : StoredDelivery

pub record Inbox : Type 0 where
  pub payloads : List PayloadRow
  pub next_id : ℕ
  pub ledger : Ledger

abbrev pub completed : Text
completed = codes "donation.completed"

-- An id of a body that cannot be read, or is of another shape, is none.
partner_of : Option (Fields Value) → Option Text
partner_of none = none
partner_of (some parsed) = fitting is_intent_id (text_at text_of (codes "partnerDonationId") parsed)

-- `prepareDelivery`, of what `parseBody` made of the body.
pub prepare_delivery : (List Text → List Text) → ℕ → Option (Fields Value) → StoredDelivery
unfolding partner_of
prepare_delivery in_order now parsed = record {
  body = storable_body in_order parsed;
  partner_donation_id = partner_of parsed;
  received_at = now;
}

-- `storeDelivery`.
pub store_delivery : StoredDelivery → Inbox → ℕ × Inbox
store_delivery row b = (
  b.next_id,
  record b {
    payloads = b.payloads ++ (record { id = b.next_id; delivery = row }) ∷ [];
    next_id = suc b.next_id;
  },
)

is_completed : Option Text → Bool
is_completed none = false
is_completed (some event) = text_eq event completed

module _ (parse_date : Text → Option ℕ) where
  -- What a row is found to be: an outcome without a transaction, or an intent's id with fields.
  pub read_row : StoredDelivery → WebhookOutcome ⊎ (Text × DonationFields)
  unfolding is_completed
  read_row row =
      if has_field (codes "unreadable") row.body
      then inl unparsable
      else elim row.partner_donation_id [
        | none ↦ inl no_partner_id
        | some partner_id ↦
            if not (is_completed (text_at text_of (codes "event") row.body))
            then inl other_event
            else elim (donation_fields parse_date row.body) [
              | none ↦ inl bad_fields
              | some fields ↦ inr (partner_id, fields)
            ]
      ]

  settle_row : ℕ → ℕ → WebhookOutcome ⊎ (Text × DonationFields) → Ledger → WebhookOutcome × Ledger
  settle_row now id (inl outcome) l = (outcome, add_decision id outcome l)
  settle_row now id (inr (partner_id, fields)) l = decide now id partner_id fields l

  -- `decideStored`, when the database answers: it throws for an amount that overflows, and what
  -- throws is `decision_failed` and leaves no decision.
  pub decide_stored : ℕ → PayloadRow → Ledger → WebhookOutcome × Ledger
  unfolding settle_row read_row
  decide_stored now row l = settle_row now row.id (read_row row.delivery) l

  -- The sweep's second loop; `now` is the database's clock at each row's decision.
  pub decide_rows : (ℕ → ℕ) → List PayloadRow → Ledger → Ledger
  decide_rows now [] l = l
  decide_rows now (row ∷ rows) l = decide_rows now rows (decide_stored (now row.id) row l).1

abbrev pub settle_ms : ℕ
settle_ms = 30_000

is_decided : Option WebhookOutcome → Bool
is_decided none = false
is_decided (some outcome) = true

-- `.limit(n)`.
limit_to : ℕ → List PayloadRow → List PayloadRow
limit_to zero rows = []
limit_to (suc n) [] = []
limit_to (suc n) (row ∷ rows) = row ∷ limit_to n rows

-- Rows without a decision that are old enough, by their ids, at most a hundred.
pub undecided : ℕ → Inbox → List PayloadRow
unfolding is_decided limit_to
undecided as_of b = limit_to 100 (
    keep_if
      (λ row.
        not (is_decided (lookup row.id b.ledger.decisions))
        && ltb (row.delivery.received_at + settle_ms) as_of)
      b.payloads)

-- A file of the spool; a row that cannot be read is `none`.
pub record SpoolEntry : Type 0 where
  pub file : Text
  pub age_ms : ℕ
  pub row : Option StoredDelivery

-- What comes of storing one file's row: the row is stored and the file removed; nothing is stored;
-- or the row lands and an error is thrown all the same, by the clock or by the removal.
pub data StoreFate : Type 0 where
  stored refused landed_late : StoreFate

abbrev pub stale_ms : ℕ
stale_ms = 600_000

-- What the loop over the files carries.
pub record Sweep : Type 0 where
  pub inbox : Inbox
  pub left : List SpoolEntry
  pub replayed : ℕ
  pub stale_files : ℕ
  pub database_up : Bool

-- A file that is not done with: it stays, and counts once it is old.
keep_file : SpoolEntry → Sweep → Sweep
keep_file entry s = record s {
  left = s.left ++ entry ∷ [];
  stale_files = if ltb stale_ms entry.age_ms then suc s.stale_files else s.stale_files;
}

store_file : StoreFate → SpoolEntry → StoredDelivery → Sweep → Sweep
unfolding keep_file store_delivery
store_file stored entry row s = record s {
  inbox = (store_delivery row s.inbox).1;
  replayed = suc s.replayed;
}
store_file refused entry row s = keep_file entry (record s { database_up = false })
store_file landed_late entry row s =
    keep_file entry (record s { inbox = (store_delivery row s.inbox).1; database_up = false })

pub sweep_file : (SpoolEntry → StoreFate) → SpoolEntry → Sweep → Sweep
unfolding store_file keep_file
sweep_file fate entry s = if not s.database_up then keep_file entry s else elim entry.row [
  | none ↦ keep_file entry s
  | some row ↦ store_file (fate entry) entry row s
]

pub sweep_files : (SpoolEntry → StoreFate) → List SpoolEntry → Sweep → Sweep
unfolding sweep_file
sweep_files fate [] s = s
sweep_files fate (entry ∷ entries) s = sweep_files fate entries (sweep_file fate entry s)

-- `sweepWebhookSpool`.
pub sweep_spool :
    (Text → Option ℕ) → (ℕ → ℕ) → (SpoolEntry → StoreFate) → ℕ → List SpoolEntry → Inbox → Sweep
unfolding sweep_files undecided
sweep_spool parse_date now fate as_of entries b =
    let s =
      sweep_files fate entries
        (record { inbox = b; left = []; replayed = 0; stale_files = 0; database_up = true }) in
    if not s.database_up then s else record s {
      inbox = record s.inbox {
        ledger = decide_rows parse_date now (undecided as_of s.inbox) s.inbox.ledger;
      };
    }
