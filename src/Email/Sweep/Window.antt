-- ===== src/Email/Sweep/Window.antt =====
-- Sweeps, one after the other, with whatever else happens to the tables but to the claims.
use monster_paws.Prelude.{
  ℕ, ◌+◌, ◌≤◌, ◌≡◌, sym, ap, ◌∙◌, subst, ◌⊎◌, inl, inr, ◌==◌, ==_iff, Text, true, Option, none,
  some, List, [], All, All-mono, arith, Bool-cases,
}
use monster_paws.Email.Room.{MailRoom}
use monster_paws.Email.Sweep.{OwedPainting, SweepReport, Moment, Call, claim_window_ms, send_owed}
use monster_paws.Email.Sweep.Claims.{stamp, began_of, Called, send_owed-turn}

-- The clock of the last sweep, the calls of the sender, newest first, and the tables.
pub record Post : Type 0 where
  pub clock : ℕ
  pub calls : List Call
  pub room : MailRoom

module _ (hmac tidy : Text → Text) where
  pub data Step : Post → Post → Type 0 where
    sweeps :
        (owed : OwedPainting) (now : ℕ) (m : Moment) (report : SweepReport) (p : Post)
        → p.clock ≤ now
        → Step p (record {
          clock = now;
          calls = (send_owed hmac tidy owed now m report p.calls p.room).1.0;
          room = (send_owed hmac tidy owed now m report p.calls p.room).1.1;
        })
    others :
        (p : Post) (room' : MailRoom)
        → ((k : ℕ) → stamp k room' ≡ stamp k p.room)
        → Step p (record p { room = room' })

  pub data Reach (start : Post) : Post → Type 0 where
    here : Reach start start
    next : {p q : Post} → Reach start p → Step p q → Reach start q

-- Claims are not in the future.
abbrev pub Past : Post → Type 0
Past p = (k t : ℕ) (s : Option ℕ) → stamp k p.room ≡ some (t, s) → t ≤ p.clock

-- A call whose mail may have left stands within the window of a claim.
abbrev pub Covered : MailRoom → Call → Type 0
Covered room c =
    c.may_have_left ≡ true
    → (t : ℕ) × (s : Option ℕ) × (stamp c.keepsake_id room ≡ some (t, s))
      × (t ≤ c.at)
      × (c.at ≤ t + claim_window_ms)

abbrev pub CallsCovered : Post → Type 0
CallsCovered p = Past p × All (Covered p.room) p.calls

Covered-same :
    (a b : MailRoom) (c : Call)
    → stamp c.keepsake_id b ≡ stamp c.keepsake_id a
    → Covered a c
    → Covered b c
Covered-same a b c same h left = let (t, s, e, low, high) = h left in (t, s, same ∙ e, low, high)

module _ (hmac tidy : Text → Text) where
  -- A claim as a call finds it is not in the future, and the call is within its window.
  claimed-before :
      (j now t : ℕ) (p : Post)
      → p.clock ≤ now
      → Past p
      → ((stamp j p.room ≡ none) × (t ≡ now))
        ⊎ ((stamp j p.room ≡ some (t, none)) × (now ≤ t + claim_window_ms))
      → (t ≤ now) × (now ≤ t + claim_window_ms)
  claimed-before j now t p late past (inl (fresh, e)) = (omega (arith, e), omega (arith, e))
  claimed-before j now t p late past (inr (e, within)) =
      (omega (arith, past j t none e, late), within)

  Called-Past :
      (owed : OwedPainting) (now : ℕ) (p : Post) (after : List Call × MailRoom)
      → p.clock ≤ now
      → Past p
      → Called hmac tidy owed now p.calls p.room after
      → Past (record { clock = now; calls = after.0; room = after.1 })
  Called-Past owed now p after late past (c, grows, own, at, apart, t, before, left) k t' s e =
      elim (Bool-cases (owed.keepsake_id == k)) [
        | inr other ↦ omega (arith, past k t' s (sym (apart k other) ∙ e), late)
        | inl same ↦
            let found : stamp owed.keepsake_id after.1 ≡ some (t', s) =
              subst (λ i. stamp i after.1 ≡ some (t', s)) (sym ((==_iff owed.keepsake_id k).0 same))
                e in
            elim left [
              | inl (s₀, kept) ↦
                  let one : t ≡ t' = ap began_of (sym kept ∙ found) in
                  let (since, _) = claimed-before owed.keepsake_id now t p late past before in
                  omega (arith, one, since)
              | inr (_, _, gone) ↦ absurd (cc (sym gone ∙ found))
            ]
      ]

  older-Covered :
      (owed : OwedPainting) (now : ℕ) (p : Post) (after : List Call × MailRoom)
      → Called hmac tidy owed now p.calls p.room after
      → (d : Call) → Covered p.room d
      → Covered after.1 d
  older-Covered owed now p after (c, grows, own, at, apart, t, before, left) d h =
      elim (Bool-cases (owed.keepsake_id == d.keepsake_id)) [
        | inr other ↦ Covered-same p.room after.1 d (apart d.keepsake_id other) h
        | inl same ↦ λ may.
            let one = (==_iff owed.keepsake_id d.keepsake_id).0 same in
            let (t₀, s₀, e₀, low, high) = h may in
            let found : stamp owed.keepsake_id p.room ≡ some (t₀, s₀) =
              subst (λ i. stamp i p.room ≡ some (t₀, s₀)) (sym one) e₀ in
            elim before [
              | inl (fresh, _) ↦ absurd (cc (sym fresh ∙ found))
              | inr (e, _) ↦
                  let begun : t ≡ t₀ = ap began_of (sym e ∙ found) in
                  elim left [
                    | inr (fresh, _, _) ↦ absurd (cc (sym fresh ∙ found))
                    | inl (s, kept) ↦ (
                      t,
                      s,
                      subst (λ i. stamp i after.1 ≡ some (t, s)) one kept,
                      omega (arith, begun, low),
                      omega (arith, begun, high),
                    )
                  ]
            ]
      ]

  newest-Covered :
      (owed : OwedPainting) (now : ℕ) (p : Post) (after : List Call × MailRoom)
      → p.clock ≤ now
      → Past p
      → (called : Called hmac tidy owed now p.calls p.room after) → Covered after.1 called.0
  newest-Covered owed now p after late past (c, grows, own, at, apart, t, before, left) may =
      let (since, within) = claimed-before owed.keepsake_id now t p late past before in
      elim left [
        | inr (_, stayed, _) ↦ absurd (cc (sym stayed ∙ may))
        | inl (s, kept) ↦ (
          t,
          s,
          subst (λ i. stamp i after.1 ≡ some (t, s)) (sym own) kept,
          omega (arith, at, since),
          omega (arith, at, within),
        )
      ]

  Step-CallsCovered : {p q : Post} → Step hmac tidy p q → CallsCovered p → CallsCovered q
  Step-CallsCovered (others p room' same) (past, covered) = (
    λ k t s e. past k t s (sym (same k) ∙ e),
    All-mono (Covered p.room) (Covered room')
        (λ c. Covered-same p.room room' c (same c.keepsake_id)) p.calls covered,
  )
  Step-CallsCovered (sweeps owed now m report p late) (past, covered) =
      let after = (send_owed hmac tidy owed now m report p.calls p.room).1 in
      elim (send_owed-turn hmac tidy owed now m report p.calls p.room) [
        | inl (same, kept) ↦ (
          λ k t s e. omega (arith, past k t s (sym (kept k) ∙ e), late),
          subst (All (Covered after.1)) (sym same) (
              All-mono (Covered p.room) (Covered after.1)
                (λ c. Covered-same p.room after.1 c (kept c.keepsake_id)) p.calls covered),
        )
        | inr called ↦ (
          Called-Past owed now p after late past called,
          subst (All (Covered after.1)) (sym called.1) (
            newest-Covered owed now p after late past called,
            All-mono (Covered p.room) (Covered after.1) (older-Covered owed now p after called)
                p.calls covered,
          ),
        )
      ]

  Reach-CallsCovered :
      {start p : Post} → Reach hmac tidy start p → CallsCovered start → CallsCovered p
  Reach-CallsCovered here h = h
  Reach-CallsCovered (next r step) h = Step-CallsCovered step (Reach-CallsCovered r h)

  pair-window :
      (room : MailRoom) (c d : Call)
      → Covered room c
      → Covered room d
      → c.keepsake_id ≡ d.keepsake_id
      → c.may_have_left ≡ true
      → d.may_have_left ≡ true
      → d.at ≤ c.at + claim_window_ms
  pair-window room c d hc hd one mc md =
      let (t, s, e, low, high) = hc mc in
      let (t', s', e', low', high') = hd md in
      let begun : t ≡ t' =
        ap began_of (sym e ∙ subst (λ i. stamp i room ≡ some (t', s')) (sym one) e') in
      omega (arith, begun, low, high')

  -- From a log without calls and a room whose claims are no later than the clock, and however the
  -- sweeps, the sender's answers, failed writes and the rest of the program mix, as long as the
  -- clock of the sweeps does not go back and no one else writes a claim: by the sweeps' readings of
  -- it, all calls of the sender for one keepsake by which a mail may have left are within 23 hours
  -- of each other.
  pub Reach-within :
      {start p : Post}
      → Past start
      → start.calls ≡ []
      → Reach hmac tidy start p
      → All
          (λ c.
            All
              (λ d.
                c.keepsake_id ≡ d.keepsake_id
                → c.may_have_left ≡ true
                → d.may_have_left ≡ true
                → d.at ≤ c.at + claim_window_ms)
              p.calls)
          p.calls
  Reach-within {start = first} {p = last} past none_called r =
      let (_, covered) =
        Reach-CallsCovered r (past, subst (All (Covered first.room)) (sym none_called) tt) in
      All-mono (Covered last.room) _
        (λ c hc.
          All-mono (Covered last.room) _ (λ d hd. pair-window last.room c d hc hd) last.calls
            covered)
        last.calls covered
