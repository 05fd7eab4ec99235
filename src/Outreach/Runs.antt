-- ===== src/Outreach/Runs.antt =====
-- What runs of the waves, in several terminals at once, and the people who remark answers do to the
-- record. The lock makes an attempt one step.
pub mod Bounds
pub mod Wave
use mathlib.Core.List.{append-nil, append_assoc}
use monster_paws.Prelude.{
  ℕ, ◌≤◌, ◌≡◌, ◌≢◌, refl, sym, ap, ◌∙◌, ◌⊎◌, inl, inr, Text, Bool, true, false, ◌&&◌, Option, none,
  some, List, [], ◌∷◌, ◌++◌, subst, arith, Bool-cases, Option-cases, if◌then◌else◌,
}
use monster_paws.Shelters.{ShelterExclusion}
use monster_paws.Outreach.Record.{
  OutreachEvent, ShelterContact, AddressCandidate, Office, InsertFault, not_unique, is_sent, is_of,
  is_send_in, some_event, record_outreach_event, confirm_address, record_address_candidates,
  kind_is,
}
use monster_paws.Outreach.Guard.{SendVerdict, send, wait, refuse, judge_send, load_send_facts}
use monster_paws.Outreach.Guard.Verdict.{MaySend, judge_send-MaySend}
use monster_paws.Outreach.Wave.{
  WaveMessage, Moment, Delivery-cases, Attempt, was_sent, waits, was_refused, has_failed,
  transport_threw, row_refused, sent_event, act_on, attempt,
}
use monster_paws.Outreach.Lawful.{IsAllowed, MaySend-IsAllowed}

-- Every letter of `es` was allowed by the rows before it.
abbrev pub LawfulFrom : List OutreachEvent → List OutreachEvent → Type 0
LawfulFrom before [] = Unit
LawfulFrom before (e ∷ es) =
    (is_sent e ≡ true → IsAllowed before e.shelter_external_id e.wave e.occurred_at)
    × LawfulFrom (before ++ e ∷ []) es

abbrev pub IsLawful : List OutreachEvent → Type 0
IsLawful = LawfulFrom []

LawfulFrom-snoc :
    (before es : List OutreachEvent) (e : OutreachEvent)
    → LawfulFrom before es
    → (is_sent e ≡ true → IsAllowed (before ++ es) e.shelter_external_id e.wave e.occurred_at)
    → LawfulFrom before (es ++ e ∷ [])
LawfulFrom-snoc before [] e h new = (
  subst (λ l. is_sent e ≡ true → IsAllowed l e.shelter_external_id e.wave e.occurred_at)
      (append-nil before) new,
  tt,
)
LawfulFrom-snoc before (x ∷ es) e h new = (
  h.0,
  LawfulFrom-snoc (before ++ x ∷ []) es e h.1 (
      subst (λ l. is_sent e ≡ true → IsAllowed l e.shelter_external_id e.wave e.occurred_at)
        (sym (append_assoc before (x ∷ []) es)) new),
)

-- An event that is no letter, or is one that is allowed, leaves a lawful record.
record-IsLawful :
    (e : OutreachEvent) (fault : Option InsertFault) (office : Office)
    → IsLawful office.events
    → (is_sent e ≡ true → IsAllowed office.events e.shelter_external_id e.wave e.occurred_at)
    → IsLawful (record_outreach_event e fault office).1.events
unfolding record_outreach_event
record-IsLawful e (some fault) office h new = h
record-IsLawful e none office h new =
    elim (Bool-cases
      (is_sent e && some_event (is_send_in e.shelter_external_id e.wave) office.events)) [
        | inl twice ↦ rw twice h
        | inr fresh ↦ rw fresh (LawfulFrom-snoc [] office.events e h new)
      ]

module _ (precedes : Text → Text → Bool) (exclusions : List ShelterExclusion) where
  -- A clock that does not go back within an attempt.
  abbrev pub Forward : Moment → Type 0
  Forward m = (m.read_at ≤ m.recorded_at) × (m.judged_at ≤ m.recorded_at)

  pub data Step : Office → Office → Type 0 where
    tries :
        (wave : Text) (remark : Option Text) (message : WaveMessage) (m : Moment) (office : Office)
        → Forward m
        → Step office (attempt precedes exclusions wave remark message m office).1
    notes :
        (e : OutreachEvent) (fault : Option InsertFault) (office : Office)
        → is_sent e ≡ false
        → Step office (record_outreach_event e fault office).1
    finds :
        (shelter : Text) (cs : List AddressCandidate) (at : ℕ) (office : Office)
        → Step office (record_address_candidates shelter cs at office).1
    confirms :
        (shelter email typed by : Text) (at : ℕ) (office : Office)
        → Step office (confirm_address shelter email typed by at office)

  pub data Reach (start : Office) : Office → Type 0 where
    here : Reach start start
    next : {a b : Office} → Reach start a → Step a b → Reach start b

  act_on-IsLawful :
      (wave : Text) (remark : Option Text) (verdict : SendVerdict) (message : WaveMessage)
      (m : Moment) (office : Office)
      → IsLawful office.events
      → ((to : Text)
          → verdict ≡ send to
          → IsAllowed office.events message.shelter_external_id wave m.recorded_at)
      → IsLawful (act_on precedes exclusions wave remark verdict message m office).1.events
  unfolding act_on sent_event
  act_on-IsLawful wave remark (wait ms) message m office h new = h
  act_on-IsLawful wave remark (refuse reason) message m office h new = h
  act_on-IsLawful wave remark (send to) message m office h new =
      elim (Delivery-cases (m.transport message.mail to)) [
        | inl (error, e) ↦ rw (e, act_on) h
        | inr (id, e) ↦
            rw (e, act_on)
              (record-IsLawful (sent_event message.shelter_external_id wave m.recorded_at id remark)
                m.insert_fault office h (λ _. new to refl))
      ]

  attempt-IsLawful :
      (wave : Text) (remark : Option Text) (message : WaveMessage) (m : Moment) (office : Office)
      → Forward m
      → IsLawful office.events
      → IsLawful (attempt precedes exclusions wave remark message m office).1.events
  unfolding attempt
  attempt-IsLawful wave remark message m office forward h =
      act_on-IsLawful wave remark _ message m office h (λ to e.
        MaySend-IsAllowed precedes exclusions message.shelter_external_id wave office m.read_at
          m.judged_at m.recorded_at to forward.0 forward.1 (judge_send-MaySend _ m.judged_at to e))

  Step-IsLawful : {a b : Office} → Step a b → IsLawful a.events → IsLawful b.events
  unfolding confirm_address record_address_candidates
  Step-IsLawful (tries wave remark message m office forward) h =
      attempt-IsLawful wave remark message m office forward h
  Step-IsLawful (notes e fault office answer) h =
      record-IsLawful e fault office h (λ letter. absurd (cc (letter, answer)))
  Step-IsLawful (finds shelter cs at office) h = h
  Step-IsLawful (confirms shelter email typed by at office) h = h

  -- From a lawful record, whatever the runners, the transport, the database and the people do, if
  -- no clock goes back within an attempt and no one notes a letter by hand, every letter on the
  -- record was allowed by the rows before it: a minute after the last letter, under the day's cap,
  -- the first or second one to its shelter and a week after the first, in a wave of its own, to a
  -- shelter that had not answered, and, where it is the second one, to a shelter without a bounce.
  pub Reach-IsLawful :
      {start office : Office} → IsLawful start.events → Reach start office → IsLawful office.events
  Reach-IsLawful h here = h
  Reach-IsLawful h (next r step) = Step-IsLawful step (Reach-IsLawful h r)
