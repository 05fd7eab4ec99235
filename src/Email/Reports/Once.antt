-- ===== src/Email/Reports/Once.antt =====
-- A report is acted on once.
use monster_paws.Prelude.{
  ◌≡◌, refl, ◌∙◌, inl, inr, Text, text_eq_refl, text_key, Bool, true, false, Option, none, some,
  List, [], ◌∷◌, lookup, arith, Bool-cases, Option-cases,
}
use monster_paws.Email.Room.{MailRoom, add_suppression}
use monster_paws.Email.Suppression.{stop_inbox}
use monster_paws.Email.Reports.{
  replay, ResendEvent, receive_resend_event, act_on_report, delivered, settle_permanent,
  settle_bounce, complained, note_bounce, is_reported, erase_gift, refuse_sends, intent_of,
}

erase_gift-events :
    (spare : Bool) (id : Text) (room : MailRoom) → (erase_gift spare id room).events ≡ room.events
unfolding erase_gift
erase_gift-events spare id room = elim (Option-cases (lookup id room.gifts)) [
  | inl missing ↦ ground arith
  | inr (gift, there) ↦ ground arith
]

add_suppression-events :
    (digest : Text) (room : MailRoom) → (add_suppression digest room).events ≡ room.events
unfolding add_suppression
add_suppression-events digest room = ground arith

module _ (hmac tidy : Text → Text) where
  delivered-events :
      (event : ResendEvent) (room : MailRoom)
      → (delivered hmac tidy event room).1.events ≡ room.events
  unfolding delivered
  delivered-events event room = elim (Option-cases (intent_of event.email_id room)) [
    | inl e ↦ rw (delivered, e) refl
    | inr (id, e) ↦ rw (delivered, e) (ground (arith, erase_gift-events true id room))
  ]

  note_bounce-events :
      (to : Option Text) (room : MailRoom) → (note_bounce hmac tidy to room).events ≡ room.events
  unfolding note_bounce
  note_bounce-events none room = refl
  note_bounce-events (some []) room = refl
  note_bounce-events (some (c ∷ cs)) room = add_suppression-events _ room

  settle_bounce-events :
      (email_id id : Text) (event : ResendEvent) (room : MailRoom)
      → (settle_bounce hmac tidy email_id id event room).1.events ≡ room.events
  unfolding settle_bounce refuse_sends
  settle_bounce-events email_id id event room = ground (arith, erase_gift-events false id room)

  settle_permanent-events :
      (event : ResendEvent) (room : MailRoom)
      → (settle_permanent hmac tidy event room).1.events ≡ room.events
  unfolding settle_permanent
  settle_permanent-events event room =
      let noted = note_bounce hmac tidy event.to room in
      let before = note_bounce-events event.to room in
      elim (Option-cases event.email_id) [
        | inl e ↦ rw (settle_permanent, e) before
        | inr (email_id, e) ↦ elim (Option-cases (intent_of (some email_id) noted)) [
          | inl f ↦ rw (settle_permanent, e, f) before
          | inr (id, f) ↦
              rw (settle_permanent, e, f) (settle_bounce-events email_id id event noted ∙ before)
        ]
      ]

  complained-events :
      (to : Option Text) (room : MailRoom) → (complained hmac tidy to room).1.events ≡ room.events
  unfolding complained stop_inbox
  complained-events none room = refl
  complained-events (some []) room = refl
  complained-events (some (c ∷ cs)) room = add_suppression-events _ room

  act_on_report-events :
      (event : ResendEvent) (room : MailRoom)
      → (act_on_report hmac tidy event room).1.events ≡ room.events
  unfolding act_on_report
  act_on_report-events event room = ground (
    arith,
    delivered-events event room,
    settle_permanent-events event room,
    complained-events event.to room,
  )

  has_row :
      (svix_id : Text) (event : ResendEvent) (room : MailRoom)
      → is_reported svix_id (receive_resend_event hmac tidy svix_id (some event) room).1.events
        ≡ true
  unfolding receive_resend_event is_reported
  has_row svix_id event room = elim (Bool-cases (is_reported svix_id room.events)) [
    | inl known ↦ rw known known
    | inr fresh ↦ rw (fresh, act_on_report-events event) (ground (arith, text_eq_refl svix_id))
  ]

  reported-replay :
      (svix_id : Text) (event : ResendEvent) (room : MailRoom)
      → is_reported svix_id room.events ≡ true
      → receive_resend_event hmac tidy svix_id (some event) room ≡ (replay, room)
  unfolding receive_resend_event
  reported-replay svix_id event room h = rw h refl

  -- A report's row stays.
  keeps_row :
      (svix_id other : Text) (event : Option ResendEvent) (room : MailRoom)
      → is_reported svix_id room.events ≡ true
      → is_reported svix_id (receive_resend_event hmac tidy other event room).1.events ≡ true
  unfolding receive_resend_event is_reported
  keeps_row svix_id other none room h = h
  keeps_row svix_id other (some event) room h = elim (Bool-cases (is_reported other room.events)) [
    | inl known ↦ rw known h
    | inr fresh ↦ rw (fresh, act_on_report-events event) (ground (arith, h))
  ]

  -- Reports in the order in which they come.
  abbrev pub receive_all : List (Text × Option ResendEvent) → MailRoom → MailRoom
  receive_all [] room = room
  receive_all ((svix_id, event) ∷ rest) room =
      receive_all rest (receive_resend_event hmac tidy svix_id event room).1

  keeps_row_all :
      (svix_id : Text) (between : List (Text × Option ResendEvent)) (room : MailRoom)
      → is_reported svix_id room.events ≡ true
      → is_reported svix_id (receive_all between room).events ≡ true
  keeps_row_all svix_id [] room h = h
  keeps_row_all svix_id ((other, event) ∷ rest) room h =
      keeps_row_all svix_id rest _ (keeps_row svix_id other event room h)

  -- A report that is delivered again after it was read is a replay and changes nothing, whatever
  -- other reports came between the two deliveries and whatever it says the second time.
  pub receive_resend_event-again :
      (svix_id : Text) (first again : ResendEvent) (between : List (Text × Option ResendEvent))
      (room : MailRoom)
      → let later =
          receive_all between (receive_resend_event hmac tidy svix_id (some first) room).1 in
        receive_resend_event hmac tidy svix_id (some again) later ≡ (replay, later)
  receive_resend_event-again svix_id first again between room =
      reported-replay svix_id again _ (keeps_row_all svix_id between _ (has_row svix_id first room))
