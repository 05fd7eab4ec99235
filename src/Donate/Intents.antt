-- ===== src/Donate/Intents.antt =====
-- core/donate/intent.ts and core/email/painting-state.ts: the rows of gifts that are started, the
-- address that a painting goes to, and the cookie that names a browser's gifts.
pub mod Cookie
pub mod Address
mod Tests
use monster_paws.Prelude.{
  ℕ, zero, suc, ◌+◌, ◌*◌, Text, text_eq, text_key, codes, ltb, ◌==◌, Bool, true, false, not, ◌&&◌,
  Option, none, some, List, [], ◌∷◌, ◌++◌, Map, lookup, insert, keep_if, if◌then◌else◌,
}
use monster_paws.Result.{Result, ok, err, Error, thrown}
use monster_paws.Donate.Shapes.{split_on, is_intent_id}
use monster_paws.Donate.Ledger.{Intent}

-- A row of `painting_email_sends`, under the intent of its keepsake, which has one keepsake.
pub record MailSend : Type 0 where
  pub sent_at : Option ℕ
  pub refused_code : Option Text

pub record Desk : Type 0 where
  pub intents : Map Text Intent
  pub sends : Map Text MailSend

pub data PaintingMailState : Type 0 where
  not_sent on_its_way sent bounced held : PaintingMailState

abbrev pub bounced_code : Text
bounced_code = codes "bounced"

mail_state_of : Option MailSend → PaintingMailState
mail_state_of none = not_sent
mail_state_of (some row) = elim row.refused_code [
  | some code ↦
      if text_eq code bounced_code
      then bounced
      else (if text_eq code [] then by_sent row.sent_at else held)
  | none ↦ by_sent row.sent_at
]
  where
    by_sent : Option ℕ → PaintingMailState
    by_sent none = on_its_way
    by_sent (some at) = sent

-- `paintingMailState`.
pub painting_mail_state : Text → Desk → PaintingMailState
unfolding mail_state_of
painting_mail_state intent_id d = mail_state_of (lookup intent_id d.sends)

-- `createIntent`, with the id that was minted; an id that is taken breaks the primary key.
pub create_intent : Text → Text → Text → Text → Text → Text → ℕ → Desk → Result Text × Desk
create_intent id source external_id slug ein donor_email now d = elim (lookup id d.intents) [
  | some taken ↦ (err (thrown (codes "23505")), d)
  | none ↦ (
    ok id,
    record d {
      intents =
          insert id
            (record {
              animal_source = source;
              animal_external_id = external_id;
              nonprofit_slug = slug;
              nonprofit_ein = ein;
              donor_email = some donor_email;
              created_at = now;
              closed_at = none;
            })
            d.intents;
    },
  )
]

address_of : Option Intent → Option Text
address_of none = none
address_of (some intent) = intent.donor_email

-- `intentDonorEmail`.
pub intent_donor_email : Text → Desk → Option Text
unfolding address_of
intent_donor_email id d = address_of (lookup id d.intents)

pub data AddressFix : Type 0 where
  saved resending already_sent is_held erased : AddressFix

-- `UPDATE donation_intents SET donor_email WHERE id`.
set_address : Text → Text → Map Text Intent → Map Text Intent
set_address id donor_email intents = elim (lookup id intents) [
  | none ↦ intents
  | some intent ↦ insert id (record intent { donor_email = some donor_email }) intents
]

pub remove_send : Text → Map Text MailSend → Map Text MailSend
remove_send id [] = []
remove_send id ((k, row) ∷ rest) =
    let others = remove_send id rest in if text_eq k id then others else (k, row) ∷ others

-- The last branch: a row that still has an address.
save_address : Text → Text → Desk → AddressFix × Desk
unfolding set_address address_of
save_address id donor_email d = elim (address_of (lookup id d.intents)) [
  | none ↦ (erased, d)
  | some old ↦ (saved, record d { intents = set_address id donor_email d.intents })
]

fix_address : PaintingMailState → Text → Text → Desk → AddressFix × Desk
unfolding save_address set_address remove_send
fix_address held id donor_email d = (is_held, d)
fix_address on_its_way id donor_email d = (already_sent, d)
fix_address sent id donor_email d = (already_sent, d)
fix_address bounced id donor_email d = (
  resending,
  record d { intents = set_address id donor_email d.intents; sends = remove_send id d.sends },
)
fix_address not_sent id donor_email d = save_address id donor_email d

-- `correctDonorEmail`.
pub correct_donor_email : Text → Text → Desk → AddressFix × Desk
unfolding fix_address painting_mail_state
correct_donor_email id donor_email d = fix_address (painting_mail_state id d) id donor_email d

abbrev pub abandoned_after_ms : ℕ
abandoned_after_ms = 30 * 86_400_000

-- The rows that the erasure takes; `created_at` is before `as_of` by more than thirty days.
pub is_abandoned : ℕ → Intent → Bool
is_abandoned as_of intent = elim intent.closed_at [
  | some at ↦ false
  | none ↦ elim intent.donor_email [
    | none ↦ false
    | some address ↦ ltb (intent.created_at + abandoned_after_ms) as_of
  ]
]

-- `eraseAbandonedAddresses`, with how many rows it changed.
pub erase_abandoned : ℕ → Map Text Intent → ℕ × Map Text Intent
unfolding is_abandoned
erase_abandoned as_of [] = (0, [])
erase_abandoned as_of ((k, intent) ∷ rest) =
    let (n, others) = erase_abandoned as_of rest in
    if is_abandoned as_of intent
    then (suc n, (k, record intent { donor_email = none }) ∷ others)
    else (n, (k, intent) ∷ others)

abbrev pub max_cookie_intents : ℕ
max_cookie_intents = 20

text_or_empty : Option Text → Text
text_or_empty none = []
text_or_empty (some s) = s

-- `intentIdsOf`.
pub intent_ids_of : Option Text → List Text
unfolding text_or_empty
intent_ids_of cookie = keep_if is_intent_id (split_on b'.' (text_or_empty cookie))

-- `.join(".")`.
pub join_dots : List Text → Text
join_dots [] = []
join_dots (s ∷ []) = s
join_dots (s ∷ t ∷ ts) = s ++ b'.' ∷ join_dots (t ∷ ts)

-- `.slice(0, n)`.
pub take_texts : ℕ → List Text → List Text
take_texts zero ts = []
take_texts (suc n) [] = []
take_texts (suc n) (t ∷ ts) = t ∷ take_texts n ts

pub ids_with : Option Text → Text → List Text
unfolding intent_ids_of take_texts
ids_with cookie id =
    take_texts max_cookie_intents
      (id ∷ keep_if (λ known. not (text_eq known id)) (intent_ids_of cookie))

-- `withIntent`.
pub with_intent : Option Text → Text → Text
unfolding ids_with join_dots
with_intent cookie id = join_dots (ids_with cookie id)
