-- ===== src/Email/Reports/Rows.antt =====
-- An early report keeps the rows of the sends, but for their refusal.
use monster_paws.Prelude.{
  ◌≡◌, refl, inl, inr, ◌⊎◌, Text, text_key, Bool, true, false, ◌&&◌, some, lookup, arith,
  Bool-cases, Option-cases,
}
use monster_paws.Email.Room.{MailRoom, is_full}
use monster_paws.Email.Reports.{
  erase_gift, refuse_sends, settle_gift, settle_early_event, intent_of_email, has_early,
  has_early_bounce, held_address, same_address,
}

-- The sends after it: as they were, or refused.
abbrev pub SameSends : Text → MailRoom → MailRoom → Type 0
SameSends email_id a b = (b.sends ≡ a.sends) ⊎ (b.sends ≡ (refuse_sends email_id a).sends)

erase_gift-sends :
    (spare : Bool) (id : Text) (room : MailRoom) → (erase_gift spare id room).sends ≡ room.sends
unfolding erase_gift
erase_gift-sends spare id room = elim (Option-cases (lookup id room.gifts)) [
  | inl missing ↦ ground arith
  | inr (gift, there) ↦ ground arith
]

module _ (hmac tidy : Text → Text) where
  settle_gift-SameSends :
      (email_id id sent_to : Text) (room : MailRoom)
      → SameSends email_id room (settle_gift hmac tidy email_id id sent_to room).1
  unfolding settle_gift refuse_sends
  settle_gift-SameSends email_id id sent_to room =
      let still =
        is_full (held_address hmac tidy id room)
        && same_address hmac tidy (held_address hmac tidy id room) (some sent_to) in
      elim (Bool-cases (has_early_bounce hmac tidy email_id room.events)) [
        | inl bounce ↦ elim (Bool-cases still) [
          | inl same ↦ inr (rw (bounce, same, erase_gift-sends false id room) refl)
          | inr other ↦ inr (rw (bounce, other) refl)
        ]
        | inr clean ↦ elim (Bool-cases still) [
          | inl same ↦ inl (rw (clean, same) (erase_gift-sends true id room))
          | inr other ↦ inl (rw (clean, other) refl)
        ]
      ]

  pub settle_early_event-SameSends :
      (email_id sent_to : Text) (room : MailRoom)
      → SameSends email_id room (settle_early_event hmac tidy email_id sent_to room).1
  unfolding settle_early_event
  settle_early_event-SameSends email_id sent_to room =
      elim (Bool-cases (has_early hmac tidy email_id room.events)) [
        | inr miss ↦ inl (rw miss refl)
        | inl hit ↦ elim (Option-cases (intent_of_email email_id room)) [
          | inl e ↦ inl (rw (hit, settle_early_event, e) refl)
          | inr (id, e) ↦ elim (Bool-cases (is_full (some id))) [
            | inl full ↦
                rw (hit, settle_early_event, e, full)
                  (settle_gift-SameSends email_id id sent_to room)
            | inr empty ↦ inl (rw (hit, settle_early_event, e, empty) refl)
          ]
        ]
      ]
