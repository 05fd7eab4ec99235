-- ===== src/Ingest/Memory.antt =====
-- core/ingest/memory.ts: the in-memory stages, the reference that production must match.
pub mod Raw
pub mod Writer
pub mod Replay
pub mod WellFormed
mod Tests
pub mod Kept
use monster_paws.Prelude.{
  ℕ, suc, ◌+◌, Text, text_eq, text_key, nat_key, decimal, Bool, true, false, not, ◌&&◌, ◌||◌,
  Option, none, some, List, [], ◌∷◌, ◌++◌, map, Map, lookup, insert, length, keep_if, find_last,
  ltb, ◌==◌, if◌then◌else◌,
}
use monster_paws.Result.{Result, ok, err, lacks_name_or_species, no_such_animal}
use monster_paws.Ingest.Fields.{Field, AnimalClaims}
use monster_paws.Ingest.Merge.{MergeOutcome, merge_claims, viable_first_observation}
use monster_paws.Ingest.Gate.{
  DisappearanceTally, DisappearanceVerdict, Refusal, resolve_reconcile_at,
}
use monster_paws.Ingest.Model.{
  Observation, StoredObservation, NormalizedAnimal, AnimalCandidate, IngestEvent, animal_seen,
  animal_updated, animal_disappeared, animal_reappeared, written, returned, absent,
}
use monster_paws.Ingest.Report.{Applied, Reconciled, IngestRunRecord, Stages, is_absent}
use monster_paws.Ingest.Pipeline.{has_text}
use monster_paws.Ingest.Corpus.{
  Corpus, MemoryRawRow, MemoryIdentity, MemoryDisplay, key, display_key, no_claims, median_date,
  in_lifecycle_order,
}

module _ {A : Type 0} where
  unfoldable pub any_of : (A → Bool) → List A → Bool
  any_of test [] = false
  any_of test (x ∷ xs) = test x || any_of test xs

  -- A write to the element that `findLast` returns.
  unfoldable pub update_last : (A → Bool) → (A → A) → List A → List A
  unfolding any_of
  update_last test f [] = []
  update_last test f (x ∷ xs) =
      let rest = update_last test f xs in
      if any_of test xs then x ∷ rest else if test x then f x ∷ xs else x ∷ xs

unfoldable pub animal_of : Option MemoryIdentity → Option ℕ
animal_of none = none
animal_of (some id) = some id.animal_id

-- `candidate.sourceUpdatedAt ?? null`.
unfoldable pub upkeep : Option (Option ℕ) → Option ℕ
upkeep none = none
upkeep (some stamp) = stamp

-- The source's own stamp, on the identity that is there; an absent stamp leaves it.
unfoldable pub stamp_identity :
    Option (Option ℕ) → Text → Map Text MemoryIdentity → Map Text MemoryIdentity
stamp_identity none k ids = ids
stamp_identity (some stamp) k ids = elim (lookup k ids) [
  | none ↦ ids
  | some id ↦ insert k (record id { source_updated_at = stamp }) ids
]

show_display : AnimalCandidate → ℕ → Map Text MemoryDisplay → Map Text MemoryDisplay
show_display candidate animal_id shown = elim candidate.display [
  | none ↦ shown
  | some content ↦
      insert (display_key animal_id candidate.source)
        (record { animal_id = animal_id; source = candidate.source; content = content }) shown
]

has_changes : List Field → Bool
has_changes [] = false
has_changes (f ∷ fs) = true

pub writer_events : AnimalCandidate → ℕ → Bool → MergeOutcome → List IngestEvent
unfolding has_changes
writer_events candidate animal_id is_new merged = elim merged.occurred_at [
  | none ↦ []
  | some at ↦
      if is_new || has_changes merged.changed
      then (record {
        kind = if is_new then animal_seen else animal_updated;
        source = candidate.source;
        subject_id = decimal animal_id;
        event_data = written candidate.raw_id candidate.external_id merged.changed;
        occurred_at = at;
      })
        ∷ []
      else []
]

module _ {P : Type 0} where
  unfoldable pub is_row_of : Text → Text → MemoryRawRow P → Bool
  is_row_of source external_id row =
      text_eq row.source source && text_eq row.external_id external_id

  -- The stored observation is the row that is there, with its instant and not this poll's.
  unfoldable pub existing_observation : Observation P → MemoryRawRow P → StoredObservation P
  existing_observation obs existing = record {
    observation = record obs { payload = existing.payload; fetched_at = existing.fetched_at };
    raw_id = existing.raw_id;
  }

  unfoldable pub new_row : Observation P → ℕ → MemoryRawRow P
  new_row obs raw_id = record {
    raw_id = raw_id;
    source = obs.source;
    external_id = obs.external_id;
    payload = obs.payload;
    fetched_at = obs.fetched_at;
    content_hash = obs.content_hash;
    last_seen = obs.fetched_at;
  }

  -- `raw?.lastSeen ?? merged.occurredAt ?? new Date(0)`.
  unfoldable pub first_sighting : Option (MemoryRawRow P) → Option ℕ → ℕ
  first_sighting (some row) occurred = row.last_seen
  first_sighting none (some at) = at
  first_sighting none none = 0

module _ {P Num : Type 0} where
  unfoldable pub insert_row :
      Observation P → Corpus P Num → Result (StoredObservation P × Bool) × Corpus P Num
  unfolding new_row
  insert_row obs c = (
    ok (record { observation = obs; raw_id = c.next_raw_id }, true),
    record c {
      raw_rows = c.raw_rows ++ new_row obs c.next_raw_id ∷ [];
      next_raw_id = suc c.next_raw_id;
    },
  )

  unfoldable pub touch_row :
      Observation P
      → MemoryRawRow P
      → Corpus P Num
      → Result (StoredObservation P × Bool) × Corpus P Num
  unfolding is_row_of update_last existing_observation
  touch_row obs existing c = (
    ok (existing_observation obs existing, false),
    record c {
      raw_rows =
          update_last (is_row_of obs.source obs.external_id)
            (λ row. record row { last_seen = obs.fetched_at }) c.raw_rows;
    },
  )

  -- `rawStore.persist`.
  unfoldable pub persist :
      Observation P → Corpus P Num → Result (StoredObservation P × Bool) × Corpus P Num
  unfolding insert_row touch_row is_row_of
  persist obs c = elim (find_last (is_row_of obs.source obs.external_id) c.raw_rows) [
    | none ↦ insert_row obs c
    | some existing ↦
        if text_eq existing.content_hash obs.content_hash
        then touch_row obs existing c
        else insert_row obs c
  ]

  -- `resolver.resolve`.
  unfoldable pub resolve : AnimalCandidate → Corpus P Num → Option ℕ
  unfolding animal_of
  resolve candidate c = animal_of (lookup (key candidate.source candidate.external_id) c.identities)

  unfoldable pub new_identity : AnimalCandidate → ℕ → Option ℕ → Corpus P Num → MemoryIdentity
  unfolding first_sighting upkeep is_row_of
  new_identity candidate animal_id occurred c = record {
    animal_id = animal_id;
    source = candidate.source;
    external_id = candidate.external_id;
    last_seen_at =
        first_sighting (find_last (is_row_of candidate.source candidate.external_id) c.raw_rows)
          occurred;
    disappeared_at = none;
    source_updated_at = upkeep candidate.source_updated_at;
  }

  -- Everything that `writer.apply` writes once the claims are merged.
  unfoldable pub commit :
      AnimalCandidate → ℕ → Bool → MergeOutcome → Corpus P Num → Result Applied × Corpus P Num
  unfolding new_identity stamp_identity show_display writer_events
  commit candidate animal_id is_new merged c =
      let k = key candidate.source candidate.external_id in
      let emitted = writer_events candidate animal_id is_new merged in
      (
        ok (record { animal_id = animal_id; events = emitted; conflicted = merged.conflicted }),
        record c {
          animals = insert animal_id merged.claims c.animals;
          identities =
              if is_new
              then insert k (new_identity candidate animal_id merged.occurred_at c) c.identities
              else stamp_identity candidate.source_updated_at k c.identities;
          display = show_display candidate animal_id c.display;
          events = c.events ++ emitted;
        },
      )

  unfoldable pub merge_into :
      AnimalCandidate → ℕ → Bool → AnimalClaims → Corpus P Num → Result Applied × Corpus P Num
  unfolding commit
  merge_into candidate animal_id is_new held c =
      elim (merge_claims held candidate.claims candidate.raw_id) [
        | err e ↦ (err e, c)
        | ok merged ↦ commit candidate animal_id is_new merged c
      ]

  -- `writer.apply`: without an animal, a new one under the next id.
  unfoldable pub apply : AnimalCandidate → Option ℕ → Corpus P Num → Result Applied × Corpus P Num
  unfolding merge_into
  apply candidate none c =
      if not (viable_first_observation candidate.claims)
      then (err (lacks_name_or_species candidate.source candidate.external_id), c)
      else merge_into candidate c.next_animal_id true no_claims
          (record c { next_animal_id = suc c.next_animal_id })
  apply candidate (some animal_id) c = elim (lookup animal_id c.animals) [
    | none ↦ (err no_such_animal, c)
    | some held ↦ merge_into candidate animal_id false held c
  ]
