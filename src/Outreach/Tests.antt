-- ===== src/Outreach/Tests.antt =====
-- A wave of two letters to shelters on an empty record, and runs of the guard at its bounds.
use monster_paws.Prelude.{
  ℕ, ◌≤◌, Text, codes, ◌≡◌, ◌↔◌, Bool, true, false, none, some, [], ◌∷◌, length, keep_if, arith,
}
use monster_paws.Outreach.Record.{bounced, ShelterContact, Office}
use monster_paws.Outreach.Guard.{SendFacts, judge_send, send}
use monster_paws.Outreach.Guard.Facts.{sends_to}
use monster_paws.Outreach.Guard.Verdict.{MaySend, judge_send-send}
use monster_paws.Outreach.Wave
use monster_paws.Outreach.Wave.{
  Letter, WaveMessage, Delivery, delivered, Moment, Turn, send_wave, ids_of,
}
use monster_paws.Outreach.Wave.Accounting.{accounted, tally, send_wave-accounted}
use monster_paws.Outreach.Runs.{IsLawful, tries, Reach, here, next, Reach-IsLawful}
use monster_paws.Outreach.Runs.Bounds.{in_day_to, Reach-daily_cap, Reach-max_sends}
use monster_paws.Outreach.Runs.Wave.{IsFair, send_wave-IsLawful}

abbrev any_order : Text → Text → Bool
any_order a b = true

abbrev north : Text
north = codes "rescuegroups:org:1"

abbrev letter : WaveMessage
letter = record {
  shelter_external_id = north;
  mail = record {
    sender = codes "us";
    subject = codes "hello";
    plain = codes "hello";
    html = codes "hello";
    in_reply_to = none;
  };
}

abbrev contact : ShelterContact
contact = record {
  shelter_external_id = north;
  email = codes "a@b";
  source_url = codes "typed";
  found_at = 1;
  confirmed_at = some 2;
  confirmed_by = some (codes "us");
}

abbrev quiet_office : Office
quiet_office = record { events = []; contacts = contact ∷ [] }

abbrev moment : Moment
moment = record {
  read_at = 1_000;
  judged_at = 1_001;
  recorded_at = 1_500;
  transport = λ mail to. delivered (codes "id");
  insert_fault = none;
}

abbrev turn : Turn
turn = record { others = λ office. office; moment = moment }

abbrev wave_one : Text
wave_one = codes "one"

after_one : Office
after_one = (Wave.attempt any_order [] wave_one none letter moment quiet_office).1

reached : Reach any_order [] quiet_office after_one
unfolding after_one
reached = next here (tries wave_one none letter moment quiet_office (omega arith))

runners_example : IsLawful after_one.events
runners_example = Reach-IsLawful any_order [] tt reached

cap_example : length (keep_if (in_day_to 2_000) after_one.events) ≤ 40
cap_example = Reach-daily_cap any_order [] 2_000 tt reached

max_sends_example : length (sends_to north after_one.events) ≤ 2
max_sends_example = Reach-max_sends any_order [] north tt reached

fair : (i : ℕ) → IsFair any_order [] turn
fair i = record { steps = λ office. here; forward = omega arith }

wave_example :
    IsLawful
      (send_wave any_order [] wave_one none
        (λ i. turn)
        (λ i ms. turn)
        (letter ∷ letter ∷ [])
        quiet_office).1.events
wave_example =
    send_wave-IsLawful any_order [] wave_one none (λ i. turn) (λ i ms. turn) fair (λ i ms. fair i)
      (letter ∷ letter ∷ []) quiet_office tt

accounted_example :
    accounted north
      (send_wave any_order [] wave_one none
        (λ i. turn)
        (λ i ms. turn)
        (letter ∷ letter ∷ [])
        quiet_office).0
    ≡ tally north (ids_of (letter ∷ letter ∷ []))
accounted_example =
    send_wave-accounted any_order [] wave_one none (λ i. turn) (λ i ms. turn) north
      (letter ∷ letter ∷ []) quiet_office

abbrev busy_facts : ℕ → SendFacts
busy_facts n = record {
  shelter_external_id = north;
  wave = wave_one;
  sent_in_last_day = n;
  last_sent_at = some 40_000;
  sent_to_shelter_at = [];
  sent_in_this_wave = false;
  answered = bounced ∷ [];
  confirmed_to = some (codes "a@b");
  excluded = false;
}

judge_example :
    (judge_send (busy_facts 39) 100_000 ≡ send (codes "a@b"))
    ↔ MaySend (busy_facts 39) (codes "a@b") 100_000
judge_example = judge_send-send (busy_facts 39) 100_000 (codes "a@b")
