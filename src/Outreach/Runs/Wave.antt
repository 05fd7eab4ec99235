-- ===== src/Outreach/Runs/Wave.antt =====
-- A wave of letters as a run: what `sendWave` leaves can be reached by single attempts.
use monster_paws.Prelude.{ℕ, suc, inl, inr, Text, Bool, Option, List, [], ◌∷◌, Bool-cases}
use monster_paws.Shelters.{ShelterExclusion}
use monster_paws.Outreach.Record.{Office}
use monster_paws.Outreach.Wave.{
  WaveMessage, Turn, Attempt, Attempt-cases, was_sent, waits, was_refused, has_failed,
  WaveSendReport, attempt, again, deliver, send_from, send_wave, says_spent,
}
use monster_paws.Outreach.Runs.{Forward, tries, Reach, here, next, IsLawful, Reach-IsLawful}

module _ (precedes : Text → Text → Bool) (exclusions : List ShelterExclusion) where
  Reach-trans :
      {a b c : Office}
      → Reach precedes exclusions a b
      → Reach precedes exclusions b c
      → Reach precedes exclusions a c
  Reach-trans r here = r
  Reach-trans r (next s step) = next (Reach-trans r s) step

  -- A turn in which others only make steps of their own, and the clock does not go back.
  pub record IsFair (turn : Turn) : Type 0 where
    pub steps : (office : Office) → Reach precedes exclusions office (turn.others office)
    pub forward : Forward precedes exclusions turn.moment

  module _ (wave : Text) (remark : Option Text) (first : ℕ → Turn) (second : ℕ → ℕ → Turn)
      (first_fair : (i : ℕ) → IsFair (first i))
      (second_fair : (i ms : ℕ) → IsFair (second i ms)) where
    attempt-Reach :
        (turn : Turn) (message : WaveMessage) (start office : Office)
        → IsFair turn
        → Reach precedes exclusions start office
        → Reach precedes exclusions start
            (attempt precedes exclusions wave remark message turn.moment (turn.others office)).1
    attempt-Reach turn message start office fair r =
        next (Reach-trans r (fair.steps office))
          (tries wave remark message turn.moment (turn.others office) fair.forward)

    again-Reach :
        (outcome : Attempt) (i : ℕ) (message : WaveMessage) (start office : Office)
        → Reach precedes exclusions start office
        → Reach precedes exclusions start
            (again precedes exclusions wave remark first second outcome i message office).1
    unfolding again
    again-Reach (waits ms) i message start office r =
        attempt-Reach (second i ms) message start office (second_fair i ms) r
    again-Reach (was_sent to id) i message start office r = r
    again-Reach (was_refused reason) i message start office r = r
    again-Reach (has_failed error) i message start office r = r

    deliver-Reach :
        (i : ℕ) (message : WaveMessage) (start office : Office)
        → Reach precedes exclusions start office
        → Reach precedes exclusions start
            (deliver precedes exclusions wave remark first second i message office).1
    unfolding deliver
    deliver-Reach i message start office r =
        again-Reach _ i message start _
          (attempt-Reach (first i) message start office (first_fair i) r)

    send_from-Reach :
        (i : ℕ) (messages : List WaveMessage) (report : WaveSendReport) (start office : Office)
        → Reach precedes exclusions start office
        → Reach precedes exclusions start
            (send_from precedes exclusions wave remark first second i messages report office).1
    unfolding send_from
    send_from-Reach i [] report start office r = r
    send_from-Reach i (message ∷ rest) report start office r =
        let r' = deliver-Reach i message start office r in
        elim (Attempt-cases
          (deliver precedes exclusions wave remark first second i message office).0) [
            | inl (inl (ms, e)) ↦ rw (e, send_from) r'
            | inl (inr (to, id, e)) ↦ rw (e, send_from) (send_from-Reach (suc i) rest _ start _ r')
            | inr (inl (reason, e)) ↦ elim (Bool-cases (says_spent reason)) [
              | inl spent ↦ rw (e, send_from, spent) r'
              | inr more ↦ rw (e, send_from, more) (send_from-Reach (suc i) rest _ start _ r')
            ]
            | inr (inr (error, e)) ↦ rw (e, send_from) r'
          ]

    -- A wave leaves a lawful record if it found one, whatever attempts of other runners, events
    -- other than letters, findings and confirmations of addresses come between its attempts, if no
    -- clock goes back within an attempt.
    pub send_wave-IsLawful :
        (messages : List WaveMessage) (office : Office)
        → IsLawful office.events
        → IsLawful (send_wave precedes exclusions wave remark first second messages office).1.events
    unfolding send_wave
    send_wave-IsLawful messages office h =
        Reach-IsLawful precedes exclusions h (send_from-Reach 0 messages _ office office here)
