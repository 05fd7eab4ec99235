-- ===== src/Ingest/Report.antt =====
-- What a run of core/ingest/pipeline.ts reports and records, and the stages that it runs on: an
-- interface over a state `S`, which Ingest/Memory.antt implements.
use monster_paws.Prelude.{
  ℕ, suc, Text, Bool, true, false, Option, none, some, List, [], ◌∷◌, Map, length, if◌then◌else◌,
}
use monster_paws.Result.{Result, Error}
use monster_paws.Ingest.Fields.{Field}
use monster_paws.Ingest.Gate.{DisappearanceTally, DisappearanceVerdict, Refusal}
use monster_paws.Ingest.Model.{
  Observation, StoredObservation, NormalizedAnimal, AnimalCandidate, IngestEvent, EventKind,
  animal_seen, animal_updated, animal_disappeared, animal_reappeared,
}

pub record Applied : Type 0 where
  pub animal_id : ℕ
  pub events : List IngestEvent
  pub conflicted : List Field

-- What a reconciliation reports; `judged` is what the run's gate found, if it was asked.
pub record Reconciled (Num : Type 0) : Type 0 where
  pub events : List IngestEvent
  pub clock_stepped_back_ms : Option ℕ
  pub refused : Option (Refusal Num)
  pub judged : Option (DisappearanceVerdict Num)

pub data SkipReason (Num : Type 0) : Type 0 where
  declared_partial observed_nothing : SkipReason Num
  gate : Refusal Num → SkipReason Num

pub data Stage : Type 0 where
  persisting normalizing resolving writing : Stage

pub record IngestFailure : Type 0 where
  pub external_id : Text
  pub stage : Stage
  pub error : Error

pub record IngestRunReport (Num : Type 0) : Type 0 where
  pub source : Text
  pub observed : ℕ
  pub persisted : ℕ
  pub deduped : ℕ
  pub normalized : ℕ
  pub conflicted : ℕ
  pub lifecycle_skipped : Option (SkipReason Num)
  pub clock_stepped_back_ms : Option ℕ
  pub disappearance_rate_per_day : Option Num
  pub gate_refused : Bool
  pub events : List IngestEvent
  pub failures : List IngestFailure

pub record IngestRunRecord (Num : Type 0) : Type 0 where
  pub source : Text
  pub started_at : ℕ
  pub finished_at : ℕ
  pub complete : Bool
  pub lifecycle_skipped : Option (SkipReason Num)
  pub observed : ℕ
  pub persisted : ℕ
  pub deduped : ℕ
  pub normalized : ℕ
  pub conflicted : ℕ
  pub failures : ℕ
  pub events : EventKind → ℕ
  pub clock_stepped_back_ms : Option ℕ

-- `IngestStages`. A stage may throw; what it wrote before stays written.
pub record Stages (S P Num : Type 0) : Type 0 where
  pub persist : Observation P → S → Result (StoredObservation P × Bool) × S
  pub normalizers : Map Text (StoredObservation P → Result NormalizedAnimal)
  pub resolve : AnimalCandidate → S → Result (Option ℕ)
  pub apply : AnimalCandidate → Option ℕ → S → Result Applied × S
  pub reconcile :
      Text
      → List Text
      → ℕ
      → (DisappearanceTally → DisappearanceVerdict Num)
      → S
      → Result (Reconciled Num) × S
  pub record_run : IngestRunRecord Num → S → Result (Unit {0}) × S
  pub last_complete_at : Text → S → Result (Option ℕ)

unfoldable pub kind_eq : EventKind → EventKind → Bool
kind_eq animal_seen animal_seen = true
kind_eq animal_updated animal_updated = true
kind_eq animal_disappeared animal_disappeared = true
kind_eq animal_reappeared animal_reappeared = true
kind_eq _ _ = false

unfoldable pub count_kind : EventKind → List IngestEvent → ℕ
unfolding kind_eq
count_kind k [] = 0
count_kind k (e ∷ es) = if kind_eq e.kind k then suc (count_kind k es) else count_kind k es

unfoldable pub is_absent {ℓ} : {A : Type ℓ} → Option A → Bool
is_absent none = true
is_absent (some x) = false

-- The instants at which a run reads its clock.
pub record RunClock : Type 0 where
  pub started_at : ℕ
  pub reconcile_at : ℕ
  pub finished_at : ℕ

pub record RunOptions (Num : Type 0) : Type 0 where
  pub complete : Bool
  pub max_daily_disappearance_rate : Option Num

-- `adapter.fetch()`: the observations that it yields, and the error that ends it, if one does.
pub record Feed (P : Type 0) : Type 0 where
  pub source : Text
  pub observations : List (Observation P)
  pub broken_by : Option Error

module _ {Num : Type 0} where
  unfoldable pub empty_report : Text → IngestRunReport Num
  empty_report source = record {
    source = source;
    observed = 0;
    persisted = 0;
    deduped = 0;
    normalized = 0;
    conflicted = 0;
    lifecycle_skipped = none;
    clock_stepped_back_ms = none;
    disappearance_rate_per_day = none;
    gate_refused = false;
    events = [];
    failures = [];
  }

  unfoldable pub to_run_record : IngestRunReport Num → ℕ → ℕ → IngestRunRecord Num
  unfolding is_absent count_kind
  to_run_record report started_at finished_at = record {
    source = report.source;
    started_at = started_at;
    finished_at = finished_at;
    complete = is_absent report.lifecycle_skipped;
    lifecycle_skipped = report.lifecycle_skipped;
    observed = report.observed;
    persisted = report.persisted;
    deduped = report.deduped;
    normalized = report.normalized;
    conflicted = report.conflicted;
    failures = length report.failures;
    events = λ k. count_kind k report.events;
    clock_stepped_back_ms = report.clock_stepped_back_ms;
  }
