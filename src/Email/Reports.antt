-- ===== src/Email/Reports.antt =====
-- core/email/resend-webhook.ts: what the provider reports on a mail, once per delivery of the
-- report, and the reports that came before the mail's id was written.
pub mod Once
pub mod Rows
use monster_paws.Prelude.{
  ℕ, Text, text_eq, text_key, nat_key, codes, Bool, true, false, not, ◌&&◌, ◌||◌, Option, none,
  some, List, [], ◌∷◌, ◌++◌, Map, lookup, insert, if◌then◌else◌,
}
use monster_paws.Donate.Intents.{bounced_code}
use monster_paws.Email.Room.{
  Gift, SendRow, MailEvent, MailRoom, is_full, is_text, add_suppression, update_rows, address_of,
}
use monster_paws.Email.Suppression.{exact_digest, inbox_digest, stop_inbox}

abbrev delivered_type : Text
delivered_type = codes "email.delivered"

abbrev bounced_type : Text
bounced_type = codes "email.bounced"

abbrev suppressed_type : Text
suppressed_type = codes "email.suppressed"

pub data Outcome : Type 0 where
  replay unreadable ignored erased suppressed bounced failed : Outcome

-- A report's body, as far as it is read: a bounce is permanent or not.
pub record ResendEvent : Type 0 where
  pub event_type : Text
  pub email_id : Option Text
  pub to : Option Text
  pub is_permanent : Bool

-- The join of the sends with their keepsakes.
joined : Text → Map ℕ Text → Map ℕ SendRow → Option Text
unfolding is_text
joined email_id keepsakes [] = none
joined email_id keepsakes ((k, row) ∷ rest) =
    let others = joined email_id keepsakes rest in
    if is_text row.provider_id email_id
    then elim (lookup k keepsakes) [ some intent_id ↦ some intent_id | none ↦ others ]
    else others

-- `intentOfEmail`.
intent_of_email : Text → MailRoom → Option Text
unfolding joined
intent_of_email email_id room = joined email_id room.keepsakes room.sends

-- `emailId ? await intentOfEmail(tx, emailId) : null`, where an empty id of a gift is none.
intent_of : Option Text → MailRoom → Option Text
unfolding intent_of_email is_full
intent_of none room = none
intent_of (some email_id) room =
    if is_full (some email_id)
    then elim (intent_of_email email_id room) [
      | none ↦ none
      | some intent_id ↦ if is_full (some intent_id) then some intent_id else none
    ]
    else none

-- The send rows of a mail, refused.
unfoldable pub refuse_sends : Text → MailRoom → MailRoom
unfolding update_rows is_text
refuse_sends email_id room = record room {
  sends =
      update_rows (λ row. is_text row.provider_id email_id)
        (λ row. record row { refused_code = some bounced_code }) room.sends;
}

delete_sends : Text → Map ℕ SendRow → Map ℕ SendRow
unfolding is_text
delete_sends email_id [] = []
delete_sends email_id ((k, row) ∷ rest) =
    let others = delete_sends email_id rest in
    if is_text row.provider_id email_id then others else (k, row) ∷ others

-- The address of one gift, erased; `spare` leaves an account's own address.
erased_gift : Bool → Gift → Gift
erased_gift spare gift = elim gift.account_id [
  | none ↦ record gift { donor_email = none }
  | some id ↦ if spare then gift else record gift { donor_email = none }
]

unfoldable pub erase_gift : Bool → Text → MailRoom → MailRoom
unfolding erased_gift
erase_gift spare id room = elim (lookup id room.gifts) [
  | none ↦ room
  | some gift ↦ record room { gifts = insert id (erased_gift spare gift) room.gifts }
]

-- The type that the row of a report is given: a soft bounce has its own.
row_type : ResendEvent → Text
row_type event =
    if text_eq event.event_type bounced_type && not event.is_permanent
    then codes "email.bounced.soft"
    else event.event_type

unfoldable pub is_reported : Text → List MailEvent → Bool
is_reported svix_id [] = false
is_reported svix_id (e ∷ es) = text_eq e.svix_id svix_id || is_reported svix_id es

-- The arguments of core/email/suppression.ts.
module _ (hmac tidy : Text → Text) where
  -- `sameAddress` of the address that a gift holds and the one of a report.
  same_address : Option Text → Option Text → Bool
  same_address (some a) (some b) = text_eq (tidy a) (tidy b)
  same_address _ _ = false

  held_address : Text → MailRoom → Option Text
  unfolding address_of
  held_address id room = address_of (lookup id room.gifts)

  delivered : ResendEvent → MailRoom → Outcome × MailRoom
  unfolding intent_of erase_gift same_address held_address is_full
  delivered event room = elim (intent_of event.email_id room) [
    | none ↦ (ignored, room)
    | some id ↦
        if (is_full event.to && is_full (held_address id room))
          && same_address (held_address id room) event.to
        then (erased, erase_gift true id room)
        else (ignored, room)
  ]

  note_bounce : Option Text → MailRoom → MailRoom
  unfolding add_suppression
  note_bounce none room = room
  note_bounce (some []) room = room
  note_bounce (some (c ∷ cs)) room = add_suppression (exact_digest hmac tidy (c ∷ cs)) room

  -- A gift whose address was fixed since is owed a mail of its own.
  settle_bounce : Text → Text → ResendEvent → MailRoom → Outcome × MailRoom
  unfolding erase_gift refuse_sends delete_sends same_address held_address is_full
  settle_bounce email_id id event room =
      if (is_full (held_address id room) && is_full event.to)
        && not (same_address (held_address id room) event.to)
      then (suppressed, record room { sends = delete_sends email_id room.sends })
      else (bounced, refuse_sends email_id (erase_gift false id room))

  settle_permanent : ResendEvent → MailRoom → Outcome × MailRoom
  unfolding note_bounce settle_bounce intent_of
  settle_permanent event room =
      let noted = note_bounce event.to room in
      elim event.email_id [
        | none ↦ (suppressed, noted)
        | some email_id ↦ elim (intent_of (some email_id) noted) [
          | none ↦ (suppressed, noted)
          | some id ↦ settle_bounce email_id id event noted
        ]
      ]

  complained : Option Text → MailRoom → Outcome × MailRoom
  unfolding stop_inbox
  complained none room = (ignored, room)
  complained (some []) room = (ignored, room)
  complained (some (c ∷ cs)) room =
      (suppressed, stop_inbox hmac tidy (inbox_digest hmac tidy (c ∷ cs)) room)

  -- What a fresh report does, by its type.
  act_on_report : ResendEvent → MailRoom → Outcome × MailRoom
  unfolding delivered settle_permanent complained
  act_on_report event room =
      if text_eq event.event_type delivered_type
      then delivered event room
      else if text_eq event.event_type (codes "email.failed")
      then (failed, room)
      else if text_eq event.event_type bounced_type && not event.is_permanent
      then (ignored, room)
      else if text_eq event.event_type bounced_type || text_eq event.event_type suppressed_type
      then settle_permanent event room
      else if text_eq event.event_type (codes "email.complained")
      then complained event.to room
      else (ignored, room)

  -- `receiveResendEvent`, of a body that was parsed or could not be.
  unfoldable pub receive_resend_event : Text → Option ResendEvent → MailRoom → Outcome × MailRoom
  unfolding act_on_report row_type is_reported
  receive_resend_event svix_id none room = (unreadable, room)
  receive_resend_event svix_id (some event) room =
      if is_reported svix_id room.events
      then (replay, room)
      else act_on_report event (record room {
        events =
            record { svix_id = svix_id; event_type = row_type event; email_id = event.email_id }
            ∷ room.events;
      })

  is_early : Text → MailEvent → Bool
  unfolding is_text
  is_early email_id e =
      is_text e.email_id email_id
      && (text_eq e.event_type delivered_type
          || (text_eq e.event_type bounced_type || text_eq e.event_type suppressed_type))

  -- The early reports of a mail: whether there is one, and whether one is no delivery.
  has_early : Text → List MailEvent → Bool
  unfolding is_early
  has_early email_id [] = false
  has_early email_id (e ∷ es) = is_early email_id e || has_early email_id es

  has_early_bounce : Text → List MailEvent → Bool
  unfolding is_early
  has_early_bounce email_id [] = false
  has_early_bounce email_id (e ∷ es) =
      (is_early email_id e && not (text_eq e.event_type delivered_type))
      || has_early_bounce email_id es

  settle_gift : Text → Text → Text → MailRoom → Option Outcome × MailRoom
  unfolding erase_gift refuse_sends has_early_bounce same_address held_address is_full
  settle_gift email_id id sent_to room =
      let still =
        is_full (held_address id room) && same_address (held_address id room) (some sent_to) in
      if has_early_bounce email_id room.events
      then (some bounced, refuse_sends email_id (if still then erase_gift false id room else room))
      else if still
      then (some erased, erase_gift true id room)
      else (none, room)

  -- `settleEarlyEvent`.
  unfoldable pub settle_early_event : Text → Text → MailRoom → Option Outcome × MailRoom
  unfolding has_early settle_gift intent_of_email is_full
  settle_early_event email_id sent_to room =
      if has_early email_id room.events
      then elim (intent_of_email email_id room) [
        | none ↦ (none, room)
        | some id ↦ if is_full (some id) then settle_gift email_id id sent_to room else (none, room)
      ]
      else (none, room)
