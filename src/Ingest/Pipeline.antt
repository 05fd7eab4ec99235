-- ===== src/Ingest/Pipeline.antt =====
-- core/ingest/pipeline.ts: a run over a feed, and the replay of stored observations.
pub mod Accounting
pub mod Keeps
pub mod Simulates
use monster_paws.Prelude.{
  ℕ, ◌+◌, Text, text_eq, Bool, true, false, ◌||◌, not, Option, none, some, List, [], ◌∷◌, ◌++◌, Map,
  lookup, text_key, length, if◌then◌else◌, ◌==◌,
}
use monster_paws.Result.{Result, ok, err, Error, no_normalizer}
use monster_paws.Ingest.Gate.{
  Floats, DisappearanceTally, DisappearanceVerdict, judge_disappearances,
}
use monster_paws.Ingest.Model.{Observation, StoredObservation, NormalizedAnimal, AnimalCandidate}
use monster_paws.Ingest.Report.{
  Applied, Reconciled, SkipReason, declared_partial, observed_nothing, gate, Stage, persisting,
  normalizing, resolving, writing, IngestRunReport, Stages, RunClock, RunOptions, Feed,
  empty_report, to_run_record,
}

-- `seen.add(id)` and `seen.has(id)`.
unfoldable pub has_text : Text → List Text → Bool
has_text id [] = false
has_text id (x ∷ xs) = text_eq x id || has_text id xs

pub add_text : Text → List Text → List Text
unfolding has_text
add_text id seen = if has_text id seen then seen else id ∷ seen

-- What the loop over a feed carries.
pub record Loop (S Num : Type 0) : Type 0 where
  pub report : IngestRunReport Num
  pub seen : List Text
  pub state : S

module _ {Num : Type 0} where
  fail : Text → Stage → Error → IngestRunReport Num → IngestRunReport Num
  fail external_id stage error report = record report {
    failures =
        report.failures
        ++ (record { external_id = external_id; stage = stage; error = error }) ∷ [];
  }

module _ {S P Num : Type 0} (stages : Stages S P Num) where
  -- The last step of `deriveOne`, with what the writer returned or threw.
  wrote : Text → IngestRunReport Num → Result Applied × S → IngestRunReport Num × S
  unfolding fail
  wrote external_id report (ok applied, s) = (
    record report {
      conflicted = report.conflicted + length applied.conflicted;
      events = report.events ++ applied.events;
    },
    s,
  )
  wrote external_id report (err e, s) = (fail external_id writing e report, s)

  unfoldable pub candidate_of : StoredObservation P → NormalizedAnimal → AnimalCandidate
  candidate_of obs normalized = record {
    source = obs.source;
    external_id = obs.external_id;
    raw_id = obs.raw_id;
    claims = normalized.claims;
    display = normalized.display;
    source_updated_at = normalized.source_updated_at;
  }

  resolve_and_write : AnimalCandidate → IngestRunReport Num → S → IngestRunReport Num × S
  unfolding wrote fail
  resolve_and_write c report s = elim (stages.resolve c s) [
    | err e ↦ (fail c.external_id resolving e report, s)
    | ok animal_id ↦ wrote c.external_id report (stages.apply c animal_id s)
  ]

  normalize_and_on :
      StoredObservation P
      → (StoredObservation P → Result NormalizedAnimal)
      → IngestRunReport Num
      → S
      → IngestRunReport Num × S
  unfolding resolve_and_write fail candidate_of
  normalize_and_on obs normalizer report s = elim (normalizer obs) [
    | err e ↦ (fail obs.external_id normalizing e report, s)
    | ok normalized ↦
        resolve_and_write (candidate_of obs normalized)
          (record report { normalized = report.normalized + 1 }) s
  ]

  -- `deriveOne`: stages 2 to 4 for one stored observation.
  unfoldable pub derive_one :
      StoredObservation P → IngestRunReport Num → S → IngestRunReport Num × S
  unfolding normalize_and_on fail
  derive_one obs report s = elim (lookup obs.source stages.normalizers) [
    | none ↦ (fail obs.external_id normalizing (no_normalizer obs.source) report, s)
    | some normalizer ↦ normalize_and_on obs normalizer report s
  ]

  -- After `persist` returned or threw.
  persisted_then :
      Text → List Text → IngestRunReport Num → Result (StoredObservation P × Bool) × S → Loop S Num
  unfolding fail
  persisted_then external_id seen report (err e, s) = record {
    report = fail external_id persisting e report;
    seen = seen;
    state = s;
  }
  persisted_then external_id seen report (ok (stored, inserted), s) =
      let counted : IngestRunReport Num =
        if inserted
        then record report { persisted = report.persisted + 1 }
        else record report { deduped = report.deduped + 1 } in
      let (report', s') = derive_one stored counted s in
      record { report = report'; seen = seen; state = s' }

  unfoldable pub ingest_one : Observation P → Loop S Num → Loop S Num
  unfolding persisted_then add_text
  ingest_one obs l =
      persisted_then obs.external_id (add_text obs.external_id l.seen)
        (record l.report { observed = l.report.observed + 1 }) (stages.persist obs l.state)

  unfoldable pub ingest_all : List (Observation P) → Loop S Num → Loop S Num
  ingest_all [] l = l
  ingest_all (obs ∷ rest) l = ingest_all rest (ingest_one obs l)

  -- The loop over the whole feed, from an empty report.
  unfoldable pub ingest_feed : Feed P → S → Loop S Num
  ingest_feed feed s =
      ingest_all feed.observations
        (record { report = empty_report feed.source; seen = []; state = s })

  replay_all : List (StoredObservation P) → IngestRunReport Num → S → IngestRunReport Num × S
  replay_all [] report s = (report, s)
  replay_all (obs ∷ rest) report s =
      let (report', s') = derive_one obs report s in replay_all rest report' s'

  pub replay : Text → List (StoredObservation P) → S → IngestRunReport Num × S
  unfolding replay_all empty_report
  replay source stored s =
      replay_all stored
        (record (empty_report source) { observed = length stored; deduped = length stored }) s

abbrev pub limit_of : {Num : Type 0} → Floats Num → Option Num → Num
limit_of floats none = floats.default_rate
limit_of floats (some rate) = rate

-- `if (clockSteppedBackMs)`: 0 is not reported.
abbrev stepped_back : Option ℕ → Option ℕ → Option ℕ
stepped_back none before = before
stepped_back (some ms) before = if ms == 0 then before else some ms

abbrev rate_of : {Num : Type 0} → Option (DisappearanceVerdict Num) → Option Num
rate_of none = none
rate_of (some v) = some v.rate_per_day

abbrev pub is_empty : List Text → Bool
is_empty [] = true
is_empty (x ∷ xs) = false

reconciled : {Num : Type 0} → Reconciled Num → IngestRunReport Num → IngestRunReport Num
reconciled {Num} r report =
    let gated : IngestRunReport Num = elim r.refused [
      | none ↦ record report { disappearance_rate_per_day = rate_of r.judged }
      | some refusal ↦ record report {
        disappearance_rate_per_day = rate_of r.judged;
        lifecycle_skipped = some (gate refusal);
        gate_refused = true;
      }
    ] in
    record gated {
      events = report.events ++ r.events;
      clock_stepped_back_ms = stepped_back r.clock_stepped_back_ms report.clock_stepped_back_ms;
    }

module _ {S P Num : Type 0} (floats : Floats Num) (stages : Stages S P Num) where
  -- Stage 5, when the run is complete and observed something.
  pub reconcile_run :
      Text → RunClock → RunOptions Num → Loop S Num → Result (IngestRunReport Num) × S
  unfolding reconciled
  reconcile_run source clock options l = elim (stages.last_complete_at source l.state) [
    | err e ↦ (err e, l.state)
    | ok last ↦
        let (r, s) =
          stages.reconcile source l.seen clock.reconcile_at
            (λ tally.
              judge_disappearances floats tally last
                (limit_of floats options.max_daily_disappearance_rate))
            l.state in
        (elim r [ err e ↦ err e | ok done ↦ ok (reconciled done l.report) ], s)
  ]

  unfoldable pub finish_lifecycle :
      Text → RunClock → RunOptions Num → Loop S Num → Result (IngestRunReport Num) × S
  unfolding reconcile_run
  finish_lifecycle source clock options l =
      if not options.complete
      then (ok (record l.report { lifecycle_skipped = some declared_partial }), l.state)
      else if is_empty l.seen
      then (ok (record l.report { lifecycle_skipped = some observed_nothing }), l.state)
      else reconcile_run source clock options l

  pub record_run : RunClock → Result (IngestRunReport Num) × S → Result (IngestRunReport Num) × S
  record_run clock (err e, s) = (err e, s)
  record_run clock (ok report, s) =
      let (r, s') = stages.record_run (to_run_record report clock.started_at clock.finished_at) s in
      (elim r [ err e ↦ err e | ok _ ↦ ok report ], s')

  -- `runIngest`. An error of the feed propagates once what it yielded before is ingested.
  pub run_ingest : Feed P → RunClock → RunOptions Num → S → Result (IngestRunReport Num) × S
  unfolding finish_lifecycle record_run
  run_ingest feed clock options s =
      let l = ingest_feed stages feed s in
      elim feed.broken_by [
        | some e ↦ (err e, l.state)
        | none ↦ record_run clock (finish_lifecycle feed.source clock options l)
      ]
