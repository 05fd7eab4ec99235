-- ===== src/Email/Sweep/Sent.antt =====
-- A painting that was sent is not sent again.
use monster_paws.Prelude.{
  ℕ, ◌≡◌, refl, sym, ap, ◌∙◌, subst, inl, inr, ◌==◌, ==_iff, Text, some, List, keep_if, Bool-cases,
}
use monster_paws.Email.Room.{MailRoom}
use monster_paws.Email.Sweep.{OwedPainting, Call, send_owed}
use monster_paws.Email.Sweep.Claims.{stamp, Called, send_owed-turn}
use monster_paws.Email.Sweep.Window.{Post, Step, sweeps, others, Reach, here, next}

-- The calls of the sender for one keepsake.
abbrev pub calls_of : ℕ → List Call → List Call
calls_of k = keep_if (λ c. c.keepsake_id == k)

module _ (hmac tidy : Text → Text) (k t at : ℕ) where
  abbrev IsSent : MailRoom → Type 0
  IsSent room = stamp k room ≡ some (t, some at)

  Called-IsSent :
      (owed : OwedPainting) (now : ℕ) (calls : List Call) (room : MailRoom)
      (after : List Call × MailRoom)
      → IsSent room
      → Called hmac tidy owed now calls room after
      → IsSent after.1 × (calls_of k after.0 ≡ calls_of k calls)
  unfolding keep_if
  Called-IsSent owed now calls room after sent (c, grows, own, _, apart, t', before, left) =
      elim (Bool-cases (owed.keepsake_id == k)) [
        | inr other ↦ (apart k other ∙ sent, ap (calls_of k) grows ∙ rw (own, other) refl)
        | inl same ↦
            let here_sent : stamp owed.keepsake_id room ≡ some (t, some at) =
              subst (λ i. stamp i room ≡ some (t, some at))
                (sym ((==_iff owed.keepsake_id k).0 same)) sent in
            elim before [
              | inl (fresh, _) ↦ absurd (cc (sym fresh ∙ here_sent))
              | inr (unsent, _) ↦ absurd (cc (sym unsent ∙ here_sent))
            ]
      ]

  Step-IsSent :
      {p q : Post}
      → Step hmac tidy p q
      → IsSent p.room
      → IsSent q.room × (calls_of k q.calls ≡ calls_of k p.calls)
  Step-IsSent (others p room' same) sent = (same k ∙ sent, refl)
  Step-IsSent (sweeps owed now m report p late) sent =
      elim (send_owed-turn hmac tidy owed now m report p.calls p.room) [
        | inl (same, kept) ↦ (kept k ∙ sent, ap (calls_of k) same)
        | inr called ↦
            Called-IsSent owed now p.calls p.room
              (send_owed hmac tidy owed now m report p.calls p.room).1 sent called
      ]

  -- Once the row of a keepsake says that its mail was sent, the row keeps saying so through any
  -- number of sweeps, and none of them calls the sender for the keepsake, as long as no one else
  -- writes the rows' claims.
  pub Reach-sent :
      {start p : Post}
      → stamp k start.room ≡ some (t, some at)
      → Reach hmac tidy start p
      → (stamp k p.room ≡ some (t, some at)) × (calls_of k p.calls ≡ calls_of k start.calls)
  Reach-sent sent here = (sent, refl)
  Reach-sent sent (next r step) =
      let (before, same) = Reach-sent sent r in
      let (after, same') = Step-IsSent step before in (after, same' ∙ same)
