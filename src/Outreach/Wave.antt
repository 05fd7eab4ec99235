-- ===== src/Outreach/Wave.antt =====
-- core/outreach/send.ts: one letter, judged, sent and recorded under the outreach lock, and the
-- loop over a wave. What other runners do to the record happens between two attempts.
pub mod Accounting
use monster_paws.Prelude.{
  ℕ, suc, ◌≡◌, refl, ◌⊎◌, inl, inr, Text, codes, starts_with, Bool, true, false, ◌||◌, Option, none,
  some, List, [], ◌∷◌, ◌++◌, map, if◌then◌else◌,
}
use monster_paws.Shelters.{ShelterExclusion}
use monster_paws.Outreach.Record.{OutreachEvent, sent, Office, InsertFault, record_outreach_event}
use monster_paws.Outreach.Guard.{
  RefuseReason, bad_wave_name, already_in_wave, day_spent, still_inside, SendVerdict, send, wait,
  refuse, judge_send, load_send_facts,
}

-- An `OutgoingMail` without its address.
pub record Letter : Type 0 where
  pub sender : Text
  pub subject : Text
  pub plain : Text
  pub html : Text
  pub in_reply_to : Option Text

pub record WaveMessage : Type 0 where
  pub shelter_external_id : Text
  pub mail : Letter

-- The transport answers with the message's id, or throws.
pub data Delivery : Type 0 where
  delivered threw : Text → Delivery

pub Delivery-cases :
    (d : Delivery) → ((error : Text) × (d ≡ threw error)) ⊎ ((id : Text) × (d ≡ delivered id))
Delivery-cases (threw error) = inl (error, refl)
Delivery-cases (delivered id) = inr (id, refl)

-- The clock's readings in one attempt, the transport, and the database's own failure of the row.
pub record Moment : Type 0 where
  pub read_at : ℕ
  pub judged_at : ℕ
  pub recorded_at : ℕ
  pub transport : Letter → Text → Delivery
  pub insert_fault : Option InsertFault

pub data SendFault : Type 0 where
  transport_threw : Text → SendFault
  -- the letter is gone, to this address under this id, and has no row
  row_refused : Text → Text → InsertFault → SendFault

pub data Attempt : Type 0 where
  was_sent : Text → Text → Attempt
  waits : ℕ → Attempt
  was_refused : RefuseReason → Attempt
  has_failed : SendFault → Attempt

pub Attempt-cases :
    (a : Attempt)
    → (((ms : ℕ) × (a ≡ waits ms)) ⊎ ((to : Text) × (id : Text) × (a ≡ was_sent to id)))
      ⊎ (((reason : RefuseReason) × (a ≡ was_refused reason))
          ⊎ ((error : SendFault) × (a ≡ has_failed error)))
Attempt-cases (waits ms) = inl (inl (ms, refl))
Attempt-cases (was_sent to id) = inl (inr (to, id, refl))
Attempt-cases (was_refused reason) = inr (inl (reason, refl))
Attempt-cases (has_failed error) = inr (inr (error, refl))

pub record SentLetter : Type 0 where
  pub shelter_external_id : Text
  pub to : Text
  pub message_id : Text

pub record RefusedLetter : Type 0 where
  pub shelter_external_id : Text
  pub reason : RefuseReason

pub record FailedLetter : Type 0 where
  pub shelter_external_id : Text
  pub error : SendFault

pub record WaveSendReport : Type 0 where
  pub wave : Text
  pub letters : List SentLetter
  pub refused : List RefusedLetter
  pub failed : Option FailedLetter
  pub remaining : List Text

-- `s.includes(part)`.
unfoldable pub contains : Text → Text → Bool
contains part [] = starts_with [] part
contains part (c ∷ s) = starts_with (c ∷ s) part || contains part s

abbrev pub are_spent : Text
are_spent = codes "are spent"

-- `outcome.reason.includes("are spent")`.
unfoldable pub says_spent : RefuseReason → Bool
unfolding contains
says_spent (bad_wave_name w) = contains are_spent w
says_spent (already_in_wave w) = contains are_spent w
says_spent (day_spent n) = true
says_spent _ = false

unfoldable pub sent_event : Text → Text → ℕ → Text → Option Text → OutreachEvent
sent_event shelter wave at message_id note = record {
  shelter_external_id = shelter;
  wave = wave;
  kind = sent;
  occurred_at = at;
  message_id = some message_id;
  note = note;
}

recorded_or_failed : Text → Text → Option InsertFault → Attempt
recorded_or_failed to id none = was_sent to id
recorded_or_failed to id (some fault) = has_failed (row_refused to id fault)

-- A turn: what others did to the record before it, and its moment.
pub record Turn : Type 0 where
  pub others : Office → Office
  pub moment : Moment

pub ids_of : List WaveMessage → List Text
ids_of [] = []
ids_of (m ∷ ms) = m.shelter_external_id ∷ ids_of ms

-- A clock that did not move is not a clock to send on.
unfoldable pub no_second_wait : Attempt → Attempt
no_second_wait (waits ms) = was_refused (still_inside ms)
no_second_wait (was_sent to id) = was_sent to id
no_second_wait (was_refused reason) = was_refused reason
no_second_wait (has_failed error) = has_failed error

-- What the loop adds to its report.
unfoldable pub push_sent : WaveMessage → Text → Text → WaveSendReport → WaveSendReport
push_sent message to id report = record report {
  letters =
      report.letters
      ++ record { shelter_external_id = message.shelter_external_id; to = to; message_id = id }
        ∷ [];
}

unfoldable pub push_refused : WaveMessage → RefuseReason → WaveSendReport → WaveSendReport
push_refused message reason report = record report {
  refused =
      report.refused
      ++ record { shelter_external_id = message.shelter_external_id; reason = reason } ∷ [];
}

unfoldable pub put_failed : WaveMessage → SendFault → WaveSendReport → WaveSendReport
put_failed message error report = record report {
  failed = some (record { shelter_external_id = message.shelter_external_id; error = error });
}

unfoldable pub leave : List WaveMessage → WaveSendReport → WaveSendReport
leave rest report = record report { remaining = ids_of rest }

module _ (precedes : Text → Text → Bool) (exclusions : List ShelterExclusion) (wave : Text)
    (note : Option Text) where
  -- After the verdict: only a letter that went is recorded, and its row after it.
  unfoldable pub act_on : SendVerdict → WaveMessage → Moment → Office → Attempt × Office
  unfolding recorded_or_failed sent_event
  act_on (wait ms) message m office = (waits ms, office)
  act_on (refuse reason) message m office = (was_refused reason, office)
  act_on (send to) message m office = elim (m.transport message.mail to) [
    | threw error ↦ (has_failed (transport_threw error), office)
    | delivered id ↦
        let (fault, office') =
          record_outreach_event (sent_event message.shelter_external_id wave m.recorded_at id note)
            m.insert_fault office in
        (recorded_or_failed to id fault, office')
  ]

  -- `attempt`, in one transaction under the lock.
  unfoldable pub attempt : WaveMessage → Moment → Office → Attempt × Office
  unfolding act_on
  attempt message m office =
      act_on
        (judge_send
          (load_send_facts precedes exclusions message.shelter_external_id wave m.read_at office)
          m.judged_at)
        message m office

  module _ (first : ℕ → Turn) (second : ℕ → ℕ → Turn) where
    unfoldable pub again : Attempt → ℕ → WaveMessage → Office → Attempt × Office
    unfolding no_second_wait
    again (waits ms) i message office =
        let turn = second i ms in
        let (outcome, office') = attempt message turn.moment (turn.others office) in
        (no_second_wait outcome, office')
    again (was_sent to id) i message office = (was_sent to id, office)
    again (was_refused reason) i message office = (was_refused reason, office)
    again (has_failed error) i message office = (has_failed error, office)

    -- One letter of the loop: judged, and once more after the sleep.
    unfoldable pub deliver : ℕ → WaveMessage → Office → Attempt × Office
    unfolding again
    deliver i message office =
        let turn = first i in
        let (outcome, office') = attempt message turn.moment (turn.others office) in
        again outcome i message office'

    -- `sendWave`, from the letter `i` on.
    unfoldable pub send_from :
        ℕ → List WaveMessage → WaveSendReport → Office → WaveSendReport × Office
    unfolding ids_of
    send_from i [] report office = (report, office)
    send_from i (message ∷ rest) report office =
        let (outcome, office') = deliver i message office in
        elim outcome [
          | waits ms ↦ (report, office')
          | was_sent to id ↦ send_from (suc i) rest (push_sent message to id report) office'
          | was_refused reason ↦ elim (says_spent reason) [
            | true ↦ (leave rest (push_refused message reason report), office')
            | false ↦ send_from (suc i) rest (push_refused message reason report) office'
          ]
          | has_failed error ↦ (leave rest (put_failed message error report), office')
        ]

    abbrev pub new_report : WaveSendReport
    new_report = record { wave = wave; letters = []; refused = []; failed = none; remaining = [] }

    unfoldable pub send_wave : List WaveMessage → Office → WaveSendReport × Office
    unfolding send_from
    send_wave messages office = send_from 0 messages new_report office

    -- `rehearseWave`: the whole loop in one transaction that is rolled back.
    pub rehearse_wave : List WaveMessage → Office → WaveSendReport × Office
    unfolding send_wave
    rehearse_wave messages office = ((send_wave messages office).0, office)
