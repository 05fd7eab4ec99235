-- ===== src/Ingest/Model.antt =====
-- The data that passes between the stages (core/ingest/observation.ts, core/ingest/pipeline.ts).
-- `P` is the type of a source's payload, which no stage but the normalizer looks into.
use monster_paws.Prelude.{ℕ, Text, Option, List}
use monster_paws.Ingest.Fields.{Field, AnimalClaims}

pub record Observation (P : Type 0) : Type 0 where
  pub source : Text
  pub external_id : Text
  pub payload : P
  pub fetched_at : ℕ
  pub content_hash : Text

pub record StoredObservation (P : Type 0) : Type 0 where
  pub observation : Observation P
  pub open observation use *
  pub raw_id : ℕ

pub record DisplayPhoto : Type 0 where
  pub url : Text
  pub width : ℕ
  pub height : ℕ

pub record DisplayContent : Type 0 where
  pub description : Option Text
  pub photos : List DisplayPhoto
  pub listing_org : Option Text
  pub tracker_url : Option Text
  pub fetched_at : ℕ

-- A normalizer's output. `source_updated_at` may be absent, and present and `null`.
pub record NormalizedAnimal : Type 0 where
  pub claims : AnimalClaims
  pub display : Option DisplayContent
  pub source_updated_at : Option (Option ℕ)

pub record AnimalCandidate : Type 0 where
  pub source : Text
  pub external_id : Text
  pub raw_id : ℕ
  pub claims : AnimalClaims
  pub display : Option DisplayContent
  pub source_updated_at : Option (Option ℕ)

pub data EventKind : Type 0 where
  animal_seen animal_updated animal_disappeared animal_reappeared : EventKind

-- The `data` of an event: what the writer, a return and an absence put there.
pub data EventData : Type 0 where
  written : ℕ → Text → List Field → EventData
  returned : Text → ℕ → EventData
  absent : Text → ℕ → EventData

-- `subjectType` is always "animal".
pub record IngestEvent : Type 0 where
  pub kind : EventKind
  pub source : Text
  pub subject_id : Text
  pub event_data : EventData
  pub occurred_at : ℕ

-- `data.externalId`, which every event has.
unfoldable pub event_external_id : EventData → Text
event_external_id (written raw_id external_id changed) = external_id
event_external_id (returned external_id disappeared_at) = external_id
event_external_id (absent external_id last_seen_at) = external_id
