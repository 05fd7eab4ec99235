-- ===== src/Outreach/Wave/Accounting.antt =====
-- Where each letter of a wave ends up.
use mathlib.Core.List.{map-append}
use monster_paws.Prelude.{
  ℕ, suc, ◌+◌, ◌≡◌, ◌≢◌, refl, inl, inr, Text, text_eq, Bool, Option, none, some, List, [], ◌∷◌,
  ◌++◌, map, arith, Bool-cases, if◌then◌else◌,
}
use monster_paws.Shelters.{ShelterExclusion}
use monster_paws.Outreach.Record.{Office}
use monster_paws.Outreach.Guard.{RefuseReason}
use monster_paws.Outreach.Wave.{
  WaveMessage, Turn, Attempt, Attempt-cases, was_sent, waits, was_refused, has_failed,
  no_second_wait, WaveSendReport, SentLetter, RefusedLetter, FailedLetter, SendFault, again,
  deliver, send_from, send_wave, says_spent, ids_of, new_report, push_sent, push_refused,
  put_failed, leave,
}

unfoldable pub tally : Text → List Text → ℕ
tally s [] = 0
tally s (t ∷ ts) = (if text_eq t s then 1 else 0) + tally s ts

pub ids_of_letters : List SentLetter → List Text
ids_of_letters = map λ l. l.shelter_external_id

pub ids_of_refused : List RefusedLetter → List Text
ids_of_refused = map λ l. l.shelter_external_id

pub ids_of_failed : Option FailedLetter → List Text
ids_of_failed none = []
ids_of_failed (some l) = l.shelter_external_id ∷ []

tally-append : (s : Text) (xs ys : List Text) → tally s (xs ++ ys) ≡ tally s xs + tally s ys
unfolding tally
tally-append s [] ys = omega arith
tally-append s (x ∷ xs) ys = omega (arith, tally-append s xs ys)

-- How often a shelter stands in a report.
pub accounted : Text → WaveSendReport → ℕ
unfolding ids_of_letters ids_of_refused ids_of_failed
accounted s report =
    tally s (ids_of_letters report.letters)
    + tally s (ids_of_refused report.refused)
    + tally s (ids_of_failed report.failed)
    + tally s report.remaining

module _ (s : Text) (message : WaveMessage) (report : WaveSendReport) where
  abbrev once : ℕ
  once = if text_eq message.shelter_external_id s then 1 else 0

  accounted-push_sent :
      (to id : Text) → accounted s (push_sent message to id report) ≡ accounted s report + once
  unfolding accounted push_sent ids_of_letters tally
  accounted-push_sent to id = rw (map-append) (
      omega
        (arith, tally-append s (ids_of_letters report.letters) (message.shelter_external_id ∷ [])))

  accounted-push_refused :
      (reason : RefuseReason)
      → accounted s (push_refused message reason report) ≡ accounted s report + once
  unfolding accounted push_refused ids_of_refused tally
  accounted-push_refused reason = rw (map-append) (
      omega
        (arith, tally-append s (ids_of_refused report.refused) (message.shelter_external_id ∷ [])))

  accounted-put_failed :
      (error : SendFault)
      → report.failed ≡ none
      → accounted s (put_failed message error report) ≡ accounted s report + once
  unfolding accounted put_failed ids_of_failed tally
  accounted-put_failed error f =
      let none_failed : tally s (ids_of_failed report.failed) ≡ 0 = rw f refl in
      omega (arith, none_failed)

accounted-leave :
    (s : Text) (rest : List WaveMessage) (report : WaveSendReport)
    → report.remaining ≡ []
    → accounted s (leave rest report) ≡ accounted s report + tally s (ids_of rest)
unfolding accounted leave tally
accounted-leave s rest report r =
    let none_left : tally s report.remaining ≡ 0 = rw r refl in omega (arith, none_left)

module _ (precedes : Text → Text → Bool) (exclusions : List ShelterExclusion) (wave : Text)
    (remark : Option Text) (first : ℕ → Turn) (second : ℕ → ℕ → Turn) where
  no_second_wait-settles : (a : Attempt) (ms : ℕ) → no_second_wait a ≢ waits ms
  unfolding no_second_wait
  no_second_wait-settles (waits n) ms e = cc
  no_second_wait-settles (was_sent to id) ms e = cc
  no_second_wait-settles (was_refused reason) ms e = cc
  no_second_wait-settles (has_failed error) ms e = cc

  again-settles :
      (a : Attempt) (i : ℕ) (message : WaveMessage) (office : Office) (ms : ℕ)
      → (again precedes exclusions wave remark first second a i message office).0 ≢ waits ms
  unfolding again
  again-settles (waits n) i message office ms e = no_second_wait-settles _ ms e
  again-settles (was_sent to id) i message office ms e = cc
  again-settles (was_refused reason) i message office ms e = cc
  again-settles (has_failed error) i message office ms e = cc

  module _ (s : Text) where
    send_from-accounted :
        (i : ℕ) (messages : List WaveMessage) (report : WaveSendReport) (office : Office)
        → report.failed ≡ none
        → report.remaining ≡ []
        → accounted s
            (send_from precedes exclusions wave remark first second i messages report office).0
          ≡ accounted s report + tally s (ids_of messages)
    unfolding send_from tally ids_of push_sent push_refused put_failed
    send_from-accounted i [] report office f r = omega arith
    send_from-accounted i (message ∷ rest) report office f r =
        elim (Attempt-cases
          (deliver precedes exclusions wave remark first second i message office).0) [
            | inl (inl (ms, e)) ↦ absurd (unfold deliver in again-settles _ i message _ ms e)
            | inl (inr (to, id, e)) ↦
                rw (e, send_from)
                  (omega (
                    arith,
                    send_from-accounted (suc i) rest (push_sent message to id report) _ f r,
                    accounted-push_sent s message report to id,
                  ))
            | inr (inl (reason, e)) ↦ elim (Bool-cases (says_spent reason)) [
              | inl spent ↦
                  rw (e, send_from, spent)
                    (omega (
                      arith,
                      accounted-leave s rest (push_refused message reason report) r,
                      accounted-push_refused s message report reason,
                    ))
              | inr more ↦
                  rw (e, send_from, more)
                    (omega (
                      arith,
                      send_from-accounted (suc i) rest (push_refused message reason report) _ f r,
                      accounted-push_refused s message report reason,
                    ))
            ]
            | inr (inr (error, e)) ↦
                rw (e, send_from)
                  (omega (
                    arith,
                    accounted-leave s rest (put_failed message error report) r,
                    accounted-put_failed s message report error f,
                  ))
          ]

    -- Every letter of a wave ends up in its report exactly once: as sent, as refused, as the one
    -- that failed, or among those that were not reached; and the report names no other.
    pub send_wave-accounted :
        (messages : List WaveMessage) (office : Office)
        → accounted s (send_wave precedes exclusions wave remark first second messages office).0
          ≡ tally s (ids_of messages)
    unfolding send_wave accounted tally
    send_wave-accounted messages office = omega (
      arith,
      send_from-accounted 0 messages (new_report precedes exclusions wave remark first second)
          office refl refl,
    )
