-- ===== src/Outreach/Guard.antt =====
-- core/outreach/send.ts: the guard that every letter to a shelter passes, and the facts that it
-- reads from the record.
pub mod Facts
pub mod Verdict
use monster_paws.Prelude.{
  ℕ, suc, ◌+◌, ◌-◌, ◌*◌, Text, text_eq, codes, starts_with, leb, ltb, ◌==◌, Bool, true, false, not,
  ◌&&◌, ◌||◌, Option, none, some, List, [], ◌∷◌, ◌++◌, map, length, keep_if, if◌then◌else◌,
}
use monster_paws.Sources.{is_valid_slug}
use monster_paws.Shelters.{ShelterExclusion}
use monster_paws.Ingest.Corpus.{sort}
use monster_paws.Outreach.Record.{
  OutreachEventKind, sent, bounced, replied, opted_out, granted, kind_is, OutreachEvent, Office,
  is_sent, is_of, some_event, confirmed_address,
}

abbrev pub daily_cap : ℕ
daily_cap = 40

abbrev pub min_spacing_ms : ℕ
min_spacing_ms = 60_000

abbrev pub follow_up_after_ms : ℕ
follow_up_after_ms = 604_800_000

abbrev pub max_sends_per_shelter : ℕ
max_sends_per_shelter = 2

abbrev pub day_ms : ℕ
day_ms = 86_400_000

pub record SendFacts : Type 0 where
  pub shelter_external_id : Text
  pub wave : Text
  pub sent_in_last_day : ℕ
  pub last_sent_at : Option ℕ
  pub sent_to_shelter_at : List ℕ
  pub sent_in_this_wave : Bool
  pub answered : List OutreachEventKind
  pub confirmed_to : Option Text
  pub excluded : Bool

-- The reasons of `judgeSend` and of the loop, with what their texts are made of.
pub data RefuseReason : Type 0 where
  bad_wave_name : Text → RefuseReason
  asked_to_stop has_opted_out no_address has_bounced : RefuseReason
  already_in_wave : Text → RefuseReason
  has_answered : List OutreachEventKind → RefuseReason
  budget_spent day_spent in_the_future still_inside : ℕ → RefuseReason
  -- the first letter and the present instant
  too_early : ℕ → ℕ → RefuseReason

pub data SendVerdict : Type 0 where
  send : Text → SendVerdict
  wait : ℕ → SendVerdict
  refuse : RefuseReason → SendVerdict

-- `WAVE_NAME`, which is the pattern of a slug.
unfoldable pub is_wave_name : Text → Bool
is_wave_name = is_valid_slug

unfoldable pub has_kind : OutreachEventKind → List OutreachEventKind → Bool
has_kind k [] = false
has_kind k (j ∷ js) = kind_is j k || has_kind k js

-- The answers that end the thread.
unfoldable pub answers_of : List OutreachEventKind → List OutreachEventKind
answers_of = keep_if λ k. kind_is k replied || kind_is k granted

-- `gap`, which may be negative.
spaced : Text → Option ℕ → ℕ → SendVerdict
spaced to none now = send to
spaced to (some last) now =
    if ltb now last
    then refuse (in_the_future (last - now))
    else if ltb (now - last) min_spacing_ms
    then wait (min_spacing_ms - (now - last))
    else send to

-- The day's cap and the spacing.
capped : Text → SendFacts → ℕ → SendVerdict
unfolding spaced
capped to facts now =
    if leb daily_cap facts.sent_in_last_day
    then refuse (day_spent facts.sent_in_last_day)
    else spaced to facts.last_sent_at now

-- What an earlier letter to the shelter asks for; of two or more there is no question here.
reminded : Text → SendFacts → List ℕ → ℕ → SendVerdict
unfolding capped
reminded to facts [] now = capped to facts now
reminded to facts (first ∷ more) now =
    if has_kind bounced facts.answered
    then refuse has_bounced
    else if ltb now (first + follow_up_after_ms)
    then refuse (too_early first now)
    else capped to facts now

-- The budget of a shelter, and its follow-up.
followed : Text → SendFacts → List ℕ → ℕ → SendVerdict
unfolding reminded
followed to facts ats now =
    if leb max_sends_per_shelter (length ats)
    then refuse (budget_spent (length ats))
    else reminded to facts ats now

answered_or : Text → SendFacts → List OutreachEventKind → ℕ → SendVerdict
unfolding followed
answered_or to facts [] now = followed to facts facts.sent_to_shelter_at now
answered_or to facts (k ∷ ks) now = refuse (has_answered (k ∷ ks))

-- An empty address is none.
addressed : Option Text → SendFacts → ℕ → SendVerdict
unfolding answered_or
addressed none facts now = refuse no_address
addressed (some []) facts now = refuse no_address
addressed (some (c ∷ cs)) facts now = answered_or (c ∷ cs) facts (answers_of facts.answered) now

-- `judgeSend`, whose rules are asked in order.
pub judge_send : SendFacts → ℕ → SendVerdict
unfolding addressed
judge_send facts now =
    if not (is_wave_name facts.wave)
    then refuse (bad_wave_name facts.wave)
    else if facts.excluded
    then refuse asked_to_stop
    else if has_kind opted_out facts.answered
    then refuse has_opted_out
    else if facts.sent_in_this_wave
    then refuse (already_in_wave facts.wave)
    else addressed facts.confirmed_to facts now

-- `ORDER BY occurred_at DESC LIMIT 1`.
unfoldable pub newest_of : List OutreachEvent → Option ℕ
newest_of [] = none
newest_of (e ∷ es) = elim (newest_of es) [
  | none ↦ some e.occurred_at
  | some at ↦ if ltb at e.occurred_at then some e.occurred_at else some at
]

-- `gt(occurredAt, now - DAY_MS)`.
unfoldable pub in_last_day : ℕ → OutreachEvent → Bool
in_last_day now e = is_sent e && ltb now (e.occurred_at + day_ms)

-- A `Set` of the kinds, in the order in which they come.
unfoldable pub add_kind : OutreachEventKind → List OutreachEventKind → List OutreachEventKind
add_kind k ks = if has_kind k ks then ks else ks ++ k ∷ []

unfoldable pub kinds_from : List OutreachEventKind → List OutreachEvent → List OutreachEventKind
unfolding add_kind
kinds_from ks [] = ks
kinds_from ks (e ∷ es) = kinds_from (if is_sent e then ks else add_kind e.kind ks) es

unfoldable pub is_excluded : Text → List ShelterExclusion → Bool
is_excluded shelter [] = false
is_excluded shelter (e ∷ es) = text_eq e.shelter_external_id shelter || is_excluded shelter es

-- The shelter's rows by their instants; rows of one instant stay in the order of their ids.
unfoldable pub history_of : Text → List OutreachEvent → List OutreachEvent
history_of shelter events =
    sort (λ a b. leb a.occurred_at b.occurred_at) (keep_if (is_of shelter) events)

-- `loadSendFacts`.
module _ (precedes : Text → Text → Bool) (exclusions : List ShelterExclusion) where
  unfoldable pub load_send_facts : Text → Text → ℕ → Office → SendFacts
  unfolding newest_of history_of kinds_from in_last_day
  load_send_facts shelter wave now office =
      let history = history_of shelter office.events in
      let to_shelter = keep_if is_sent history in
      record {
        shelter_external_id = shelter;
        wave = wave;
        sent_in_last_day = length (keep_if (in_last_day now) office.events);
        last_sent_at = newest_of (keep_if is_sent office.events);
        sent_to_shelter_at = map (λ e. e.occurred_at) to_shelter;
        sent_in_this_wave = some_event (λ e. text_eq e.wave wave) to_shelter;
        answered = kinds_from [] history;
        confirmed_to = confirmed_address precedes shelter office;
        excluded = is_excluded shelter exclusions;
      }
