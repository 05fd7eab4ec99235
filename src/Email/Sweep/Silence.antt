-- ===== src/Email/Sweep/Silence.antt =====
-- What an unsubscribe stops, down to the sweep.
use monster_paws.Prelude.{
  ℕ, suc, ◌≡◌, refl, Text, text_key, true, false, some, List, [], ◌∷◌, lookup, All, All-mono,
}
use monster_paws.Email.Room.{Gift, MailRoom}
use monster_paws.Email.Suppression.{
  inbox_digest, is_suppressed, unsubscribe_token, unsubscribe, holds_inbox,
}
use monster_paws.Email.Suppression.Stopped.{
  IsHex, unsubscribe-stop_inbox, is_suppressed-stop_inbox, holds_inbox-stop_inbox,
}
use monster_paws.Email.Sweep.{
  OwedPainting, SweepReport, Moment, Call, send_owed, send_owed_paintings,
}

module _ (hmac tidy : Text → Text) where
  suppressed_sweep :
      (now : ℕ) (items : List (OwedPainting × Moment)) (report : SweepReport) (calls : List Call)
      (room : MailRoom)
      → All (λ item. is_suppressed hmac tidy item.0.to room ≡ true) items
      → (send_owed_paintings hmac tidy now items report calls room).1 ≡ (calls, room)
  unfolding send_owed_paintings send_owed
  suppressed_sweep now [] report calls room h = refl
  suppressed_sweep now ((owed, m) ∷ rest) report calls room (stopped, more) =
      rw (send_owed_paintings, stopped)
        (suppressed_sweep now rest (record report { suppressed = suc report.suppressed }) calls room
          more)

  -- A mail of the inbox that the link names.
  abbrev pub SameInbox : Text → OwedPainting × Moment → Type 0
  SameInbox address item = inbox_digest hmac tidy item.0.to ≡ inbox_digest hmac tidy address

  -- Given that the HMAC is 64 hexadecimal digits, the link in a mail works, and what it does holds:
  -- it is accepted, no gift holds an address of that inbox afterwards, whatever its spelling, and a
  -- sweep over paintings to that inbox calls the sender for none and changes nothing in the room.
  pub unsubscribe-silence :
      (address : Text) (room : MailRoom) (now : ℕ) (items : List (OwedPainting × Moment))
      (report : SweepReport) (calls : List Call)
      → IsHex hmac tidy
      → All (SameInbox address) items
      → let (erased, after) = unsubscribe hmac tidy (unsubscribe_token hmac tidy address) room in
        ((n : ℕ) × (erased ≡ some n))
        × ((id : Text) (gift : Gift)
            → lookup id after.gifts ≡ some gift
            → holds_inbox hmac tidy (inbox_digest hmac tidy address) gift ≡ false)
        × ((send_owed_paintings hmac tidy now items report calls after).1 ≡ (calls, after))
  unsubscribe-silence address room now items report calls hex same =
      let (n, e) = unsubscribe-stop_inbox hmac tidy address room hex in
      let inbox = inbox_digest hmac tidy address in
      rw e (
        (n, refl),
        λ id gift. holds_inbox-stop_inbox hmac tidy inbox id gift room,
        suppressed_sweep now items report calls _ (
            All-mono (SameInbox address) _
              (λ item s. is_suppressed-stop_inbox hmac tidy inbox item.0.to room s) items same),
      )
