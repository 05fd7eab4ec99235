-- ===== src/Email/Sweep/Claims.antt =====
-- What one painting of the sweep does to the claims, and when it calls the sender.
use monster_paws.Prelude.{
  ℕ, ◌+◌, ◌≤◌, ◌≡◌, refl, sym, ap, ◌∙◌, subst, ◌⊎◌, inl, inr, ◌==◌, ==_iff, ltb, Text, text_key,
  nat_key, Bool, true, false, Option, none, some, List, [], ◌∷◌, Map, lookup, insert, lookup-insert,
  arith, Bool-cases, Option-cases, if◌then◌else◌,
}
use monster_paws.Email.Room.{SendRow, MailRoom, is_full, update_rows, remove_send}
use monster_paws.Email.Suppression.{is_suppressed}
use monster_paws.Email.Reports.{refuse_sends, settle_early_event}
use monster_paws.Email.Reports.Rows.{settle_early_event-SameSends}
use monster_paws.Email.Sweep.{
  OwedPainting, SweepReport, claim_window_ms, Left, surely_not, unknown, Answer, went, refused,
  Moment, Call, Claim, new, retry, stale, held, already_sent, claim_of_row, new_send, claim_send,
  update_send, release, call_of, settle_answer, call_sender, send_owed,
}

-- When a row was claimed, and when its mail was sent.
abbrev pub stamp_of : Option SendRow → Option (ℕ × Option ℕ)
stamp_of none = none
stamp_of (some row) = some (row.claimed_at, row.sent_at)

abbrev pub stamp : ℕ → MailRoom → Option (ℕ × Option ℕ)
stamp k room = stamp_of (lookup k room.sends)

abbrev pub began_of : Option (ℕ × Option ℕ) → ℕ
began_of none = 0
began_of (some (at, s)) = at

lookup-remove_send :
    (j k : ℕ) (m : Map ℕ SendRow)
    → lookup k (remove_send j m) ≡ (if j == k then none else lookup k m)
unfolding lookup remove_send
lookup-remove_send j k [] = ground arith
lookup-remove_send j k ((i, row) ∷ m) =
    ground (arith, ==_iff i j, ==_iff i k, ==_iff j k, lookup-remove_send j k m)

stamp-rows :
    (test : SendRow → Bool) (f : SendRow → SendRow) (k : ℕ) (m : Map ℕ SendRow)
    → ((row : SendRow) → ((f row).claimed_at ≡ row.claimed_at) × ((f row).sent_at ≡ row.sent_at))
    → stamp_of (lookup k (update_rows test f m)) ≡ stamp_of (lookup k m)
unfolding lookup update_rows
stamp-rows test f k [] keeps = refl
stamp-rows test f k ((i, row) ∷ m) keeps = elim (Bool-cases (i == k)) [
  | inr other ↦ rw other (stamp-rows test f k m keeps)
  | inl same ↦ rw same (elim (Bool-cases (test row)) [
    | inr miss ↦ rw miss refl
    | inl hit ↦ rw hit (let (a, b) = keeps row in λ i. some (a i, b i))
  ])
]

stamp-refuse_sends :
    (k : ℕ) (email_id : Text) (room : MailRoom)
    → stamp k (refuse_sends email_id room) ≡ stamp k room
unfolding refuse_sends
stamp-refuse_sends k email_id room = stamp-rows _ _ k room.sends (λ row. (refl, refl))

-- The row of one keepsake, written.
stamp-update_send :
    (j k t : ℕ) (f : SendRow → SendRow) (room : MailRoom)
    → ((row : SendRow) → (f row).claimed_at ≡ row.claimed_at)
    → stamp j room ≡ some (t, none)
    → ((j == k) ≡ false → stamp k (update_send j f room) ≡ stamp k room)
      × ((s : Option ℕ) × (stamp j (update_send j f room) ≡ some (t, s)))
unfolding update_send
stamp-update_send j k t f room keeps h = elim (Option-cases (lookup j room.sends)) [
  | inl missing ↦ absurd (cc (sym (ap stamp_of missing) ∙ h))
  | inr (row, there) ↦
      let began : row.claimed_at ≡ t = ap began_of (sym (ap stamp_of there) ∙ h) in
      rw (there, update_send)
        (
          λ other. ap stamp_of (lookup-insert j k (f row) room.sends) ∙ rw other refl,
          (
            (f row).sent_at,
            ap stamp_of (lookup-insert j j (f row) room.sends)
                ∙ rw ((==_iff j j).1 refl, keeps row, began) refl,
          ),
        )
]

Answer-cases :
    (a : Answer)
    → ((id : Text) × (a ≡ went id))
      ⊎ ((code : Text) × (left : Left) × (again : Bool) × (a ≡ refused code left again))
Answer-cases (went id) = inl (id, refl)
Answer-cases (refused code left again) = inr (code, left, again, refl)

-- Whether a mail may have left with an answer.
abbrev may_leave : Answer → Bool
may_leave (went id) = true
may_leave (refused code surely_not again) = false
may_leave (refused code unknown again) = true

-- What an answer leaves of a claim that was not sent: the other claims stay, and so does this one,
-- unless it was this attempt's and no mail has left.
abbrev Leaves : ℕ → ℕ → Claim → Answer → MailRoom → MailRoom → Type 0
Leaves j t claim answer room room' =
    ((k : ℕ) → (j == k) ≡ false → stamp k room' ≡ stamp k room)
    × (((s : Option ℕ) × (stamp j room' ≡ some (t, s)))
        ⊎ ((claim ≡ new) × (may_leave answer ≡ false) × (stamp j room' ≡ none)))

release-Leaves :
    (j t : ℕ) (claim : Claim) (code : Text) (left : Left) (again : Bool) (room : MailRoom)
    → stamp j room ≡ some (t, none)
    → Leaves j t claim (refused code left again) room (release j claim code left again room)
unfolding release
release-Leaves j t claim code left false room h = (
  λ k other. (stamp-update_send j k t _ room (λ row. refl) h).0 other,
  inl (stamp-update_send j j t _ room (λ row. refl) h).1,
)
release-Leaves j t new code surely_not true room h = (
  λ k other. ap stamp_of (lookup-remove_send j k room.sends) ∙ rw other refl,
  inr (refl, refl, ap stamp_of (lookup-remove_send j j room.sends) ∙ rw ((==_iff j j).1 refl) refl),
)
release-Leaves j t new code unknown true room h = (λ k other. refl, inl (none, h))
release-Leaves j t retry code left true room h = (λ k other. refl, inl (none, h))
release-Leaves j t stale code left true room h = (λ k other. refl, inl (none, h))
release-Leaves j t held code left true room h = (λ k other. refl, inl (none, h))
release-Leaves j t already_sent code left true room h = (λ k other. refl, inl (none, h))

module _ (hmac tidy : Text → Text) where
  stamp-settle_early_event :
      (k : ℕ) (email_id sent_to : Text) (room : MailRoom)
      → stamp k (settle_early_event hmac tidy email_id sent_to room).1 ≡ stamp k room
  stamp-settle_early_event k email_id sent_to room =
      elim (settle_early_event-SameSends hmac tidy email_id sent_to room) [
        | inl same ↦ ap (λ m. stamp_of (lookup k m)) same
        | inr marked ↦ ap (λ m. stamp_of (lookup k m)) marked ∙ stamp-refuse_sends k email_id room
      ]

  abbrev written_row : ℕ → Text → SendRow → SendRow
  written_row at id row = record row { sent_at = some at; provider_id = some id }

  settle_answer-Leaves :
      (owed : OwedPainting) (t : ℕ) (claim : Claim) (m : Moment) (report : SweepReport)
      (room : MailRoom)
      → stamp owed.keepsake_id room ≡ some (t, none)
      → Leaves owed.keepsake_id t claim m.answer room
          (settle_answer hmac tidy owed claim m report room).1
  unfolding settle_answer
  settle_answer-Leaves owed t claim m report room h = elim (Answer-cases m.answer) [
    | inr (code, left, again, e) ↦
        subst
          (λ a.
            Leaves owed.keepsake_id t claim a room
              (settle_answer hmac tidy owed claim m report room).1)
          (sym e)
          (rw (e, settle_answer) (release-Leaves owed.keepsake_id t claim code left again room h))
    | inl (id, e) ↦ elim (Bool-cases m.write_throws) [
      | inl thrown ↦ rw (e, settle_answer, thrown) (λ k other. refl, inl (none, h))
      | inr written ↦
          let after = update_send owed.keepsake_id (written_row m.written_at id) room in
          let step : (k : ℕ) → _ = λ k.
            stamp-update_send owed.keepsake_id k t (written_row m.written_at id) room (λ row. refl)
              h in
          elim (Bool-cases m.settle_throws) [
            | inl thrown ↦
                rw (e, settle_answer, written, thrown)
                  (λ k other. (step k).0 other, inl (step owed.keepsake_id).1)
            | inr settled ↦
                rw (e, settle_answer, written, settled)
                  (
                    λ k other. stamp-settle_early_event k id owed.to after ∙ (step k).0 other,
                    inl (
                      (step owed.keepsake_id).1.0,
                      stamp-settle_early_event owed.keepsake_id id owed.to after
                          ∙ (step owed.keepsake_id).1.1,
                    ),
                  )
          ]
    ]
  ]

  -- A painting for which the sender is not called, and whose claims stay.
  abbrev pub Quiet : List Call → MailRoom → List Call × MailRoom → Type 0
  Quiet calls room after = (after.0 ≡ calls) × ((k : ℕ) → stamp k after.1 ≡ stamp k room)

  -- A call of the sender: under a new claim, or under one that is unsent and within the window; the
  -- claim stays after it, unless it was new and no mail has left.
  abbrev pub Called : OwedPainting → ℕ → List Call → MailRoom → List Call × MailRoom → Type 0
  Called owed now calls room after =
      (c : Call) × (after.0 ≡ c ∷ calls)
      × (c.keepsake_id ≡ owed.keepsake_id)
      × (c.at ≡ now)
      × ((k : ℕ) → (owed.keepsake_id == k) ≡ false → stamp k after.1 ≡ stamp k room)
      × (t : ℕ) × (((stamp owed.keepsake_id room ≡ none) × (t ≡ now))
          ⊎ ((stamp owed.keepsake_id room ≡ some (t, none)) × (now ≤ t + claim_window_ms)))
      × (((s : Option ℕ) × (stamp owed.keepsake_id after.1 ≡ some (t, s)))
          ⊎ ((stamp owed.keepsake_id room ≡ none)
              × (c.may_have_left ≡ false)
              × (stamp owed.keepsake_id after.1 ≡ none)))

  called_of :
      (owed : OwedPainting) (now : ℕ) (answer : Answer)
      → ((call_of hmac tidy owed now answer).may_have_left ≡ may_leave answer)
  unfolding call_of
  called_of owed now (went id) = refl
  called_of owed now (refused code surely_not again) = refl
  called_of owed now (refused code unknown again) = refl

  claim_of_row_cases :
      (now : ℕ) (row : SendRow)
      → ((claim_of_row now row ≡ already_sent)
          ⊎ ((claim_of_row now row ≡ held) ⊎ (claim_of_row now row ≡ stale)))
        ⊎ ((claim_of_row now row ≡ retry)
            × (row.sent_at ≡ none)
            × (now ≤ row.claimed_at + claim_window_ms))
  unfolding claim_of_row
  claim_of_row_cases now row = elim (Option-cases row.sent_at) [
    | inr (at, e) ↦ inl (inl (rw (claim_of_row, e) refl))
    | inl e ↦ elim (Bool-cases (is_full row.refused_code)) [
      | inl full ↦ inl (inr (inl (rw (claim_of_row, e, full) refl)))
      | inr free ↦ elim (Bool-cases (ltb (row.claimed_at + claim_window_ms) now)) [
        | inl late ↦ inl (inr (inr (rw (claim_of_row, e, free, late) refl)))
        | inr early ↦ inr (rw (claim_of_row, e, free, early) refl, e, ground arith)
      ]
    ]
  ]

  call_sender-new :
      (owed : OwedPainting) (now : ℕ) (m : Moment) (report : SweepReport) (calls : List Call)
      (room : MailRoom)
      → lookup owed.keepsake_id room.sends ≡ none
      → Called owed now calls room
          (call_sender hmac tidy owed now m report calls (claim_send owed.keepsake_id now room)).1
  unfolding call_sender claim_send new_send call_of
  call_sender-new owed now m report calls room e =
      let j = owed.keepsake_id in
      let room₁ = record room { sends = insert j (new_send now) room.sends } in
      let at : stamp j room₁ ≡ some (now, none) =
        ap stamp_of (lookup-insert j j (new_send now) room.sends) ∙ rw ((==_iff j j).1 refl) refl in
      let (others, own) = settle_answer-Leaves owed now new m report room₁ at in
      rw (e, claim_send)
        (
          call_of hmac tidy owed now m.answer,
          refl,
          refl,
          refl,
          λ k other.
              others k other
              ∙ ap stamp_of (lookup-insert j k (new_send now) room.sends)
              ∙ rw other refl,
          now,
          inl (refl, refl),
          elim own [
            | inl (s, kept) ↦ inl (s, kept)
            | inr (_, stayed, gone) ↦ inr (refl, called_of owed now m.answer ∙ stayed, gone)
          ],
        )

  call_sender-old :
      (owed : OwedPainting) (now : ℕ) (m : Moment) (report : SweepReport) (calls : List Call)
      (room : MailRoom) (row : SendRow)
      → lookup owed.keepsake_id room.sends ≡ some row
      → Quiet calls room
          (call_sender hmac tidy owed now m report calls (claim_send owed.keepsake_id now room)).1
        ⊎ Called owed now calls room
            (call_sender hmac tidy owed now m report calls (claim_send owed.keepsake_id now room)).1
  unfolding call_sender claim_send call_of
  call_sender-old owed now m report calls room row e = elim (claim_of_row_cases now row) [
    | inl (inl c) ↦ inl (rw (e, claim_send, c, call_sender) (refl, λ k. refl))
    | inl (inr (inl c)) ↦ inl (rw (e, claim_send, c, call_sender) (refl, λ k. refl))
    | inl (inr (inr c)) ↦ inl (rw (e, claim_send, c, call_sender) (refl, λ k. refl))
    | inr (c, unsent, early) ↦
        let at : stamp owed.keepsake_id room ≡ some (row.claimed_at, none) =
          ap stamp_of e ∙ ap (λ s. some (row.claimed_at, s)) unsent in
        let (others, own) = settle_answer-Leaves owed row.claimed_at retry m report room at in
        inr (
          rw (e, claim_send, c, call_sender)
            (
              call_of hmac tidy owed now m.answer,
              refl,
              refl,
              refl,
              others,
              row.claimed_at,
              inr (ap (λ s. some (row.claimed_at, s)) unsent, early),
              elim own [ inl (s, kept) ↦ inl (s, kept) | inr (fresh, _, _) ↦ absurd (cc) ],
            ))
  ]

  -- Every painting is one of the two.
  pub send_owed-turn :
      (owed : OwedPainting) (now : ℕ) (m : Moment) (report : SweepReport) (calls : List Call)
      (room : MailRoom)
      → Quiet calls room (send_owed hmac tidy owed now m report calls room).1
        ⊎ Called owed now calls room (send_owed hmac tidy owed now m report calls room).1
  unfolding send_owed
  send_owed-turn owed now m report calls room =
      elim (Bool-cases (is_suppressed hmac tidy owed.to room)) [
        | inl stopped ↦ inl (rw stopped (refl, λ k. refl))
        | inr free ↦ elim (Bool-cases (is_full owed.animal_name)) [
          | inr nameless ↦ inl (rw (free, nameless) (refl, λ k. refl))
          | inl named ↦ elim (Bool-cases m.readable) [
            | inr lost ↦ inl (rw (free, named, lost) (refl, λ k. refl))
            | inl read ↦ elim (Option-cases (lookup owed.keepsake_id room.sends)) [
              | inl e ↦
                  inr (rw (free, named, read) (call_sender-new owed now m report calls room e))
              | inr (row, e) ↦
                  rw (free, named, read) (call_sender-old owed now m report calls room row e)
            ]
          ]
        ]
      ]
