-- ===== src/Ingest/Pg.antt =====
-- core/ingest/pg.ts: the stages over Postgres. A table is the list of its rows in the order of
-- their insertion; a transaction is one step, of which a failure leaves nothing but the numbers
-- that a sequence gave out.
pub mod View
pub mod Rows
pub mod Store
pub mod Canonical
pub mod Lifecycle
pub mod Stages
pub mod Runs
mod Tests
use monster_paws.Prelude.{
  ℕ, suc, Text, text_eq, text_key, nat_key, ltb, ◌==◌, Bool, true, false, not, ◌&&◌, ◌||◌, Option,
  none, some, List, [], ◌∷◌, ◌++◌, map, Map, lookup, insert, keep_if, if◌then◌else◌,
}
use monster_paws.Result.{
  Result, ok, err, Error, thrown, lacks_name_or_species, no_such_animal, ◌>>=◌,
}
use monster_paws.Trust.{Claim}
use monster_paws.Ingest.Fields.{
  Field, name, species, FieldValue, FieldClaim, AnimalClaims, field_eq,
}
use monster_paws.Ingest.Merge.{MergeOutcome, merge_claims, viable_first_observation}
use monster_paws.Ingest.Model.{Observation, StoredObservation, AnimalCandidate, IngestEvent}
use monster_paws.Ingest.Report.{Applied, IngestRunRecord}
use monster_paws.Ingest.Corpus.{MemoryRawRow, MemoryIdentity, MemoryDisplay, no_claims}
use monster_paws.Ingest.Memory.{is_row_of, new_row, animal_of, upkeep, writer_events}
use monster_paws.Shelters.{find_first}

-- `provenance`: a stamp for each field that a source has claimed.
pub record Stamp : Type 0 where
  pub source : Text
  pub fetched_at : ℕ
  pub raw_id : Option ℕ

-- A row of `animals`: its columns, where `none` is `NULL`, and their provenance.
pub record AnimalRow : Type 0 where
  pub columns : Field → Option FieldValue
  pub provenance : Field → Option Stamp

-- The tables, and the next numbers of two of their sequences.
pub record PgCorpus (P Num : Type 0) : Type 0 where
  pub raw_payloads : List (MemoryRawRow P)
  pub animals : Map ℕ AnimalRow
  pub animal_identities : List MemoryIdentity
  pub animal_display : List MemoryDisplay
  pub event_log : List IngestEvent
  pub ingest_runs : List (IngestRunRecord Num)
  pub next_raw_id : ℕ
  pub next_animal_id : ℕ

-- `UPDATE … WHERE`.
unfoldable pub update_where {ℓ} : {A : Type ℓ} → (A → Bool) → (A → A) → List A → List A
update_where test f [] = []
update_where test f (x ∷ xs) = (if test x then f x else x) ∷ update_where test f xs

unfoldable pub some_row {ℓ} : {A : Type ℓ} → (A → Bool) → List A → Bool
some_row test [] = false
some_row test (x ∷ xs) = test x || some_row test xs

unfoldable pub is_identity_of : Text → Text → MemoryIdentity → Bool
is_identity_of source external_id id =
    text_eq id.source source && text_eq id.external_id external_id

module _ {Num : Type 0} where
  max_finished : List (IngestRunRecord Num) → Option ℕ
  max_finished [] = none
  max_finished (r ∷ rs) = elim (max_finished rs) [
    | none ↦ some r.finished_at
    | some at ↦ if ltb at r.finished_at then some r.finished_at else some at
  ]

-- An `integer` column.
unfoldable pub fits_integer : ℕ → Bool
fits_integer n = ltb n 2_147_483_648

-- A row of which an `integer` overflows is refused.
unfoldable pub is_recordable : {Num : Type 0} → IngestRunRecord Num → Bool
unfolding fits_integer
is_recordable run =
    fits_integer run.observed
    && (fits_integer run.persisted
        && (fits_integer run.deduped
            && (fits_integer run.normalized
                && (fits_integer run.conflicted
                    && (fits_integer run.failures && elim run.clock_stepped_back_ms [
                      | none ↦ true
                      | some ms ↦ fits_integer ms
                    ])))))

module _ {P Num : Type 0} where
  -- `createPgEntityResolver`'s `resolve`.
  pub resolve : AnimalCandidate → PgCorpus P Num → Option ℕ
  resolve candidate d =
      animal_of
        (find_first (is_identity_of candidate.source candidate.external_id) d.animal_identities)

  -- `createPgRunStore`'s `record` and `lastCompleteAt`.
  pub record_run : IngestRunRecord Num → PgCorpus P Num → Result (Unit {0}) × PgCorpus P Num
  unfolding is_recordable
  record_run run d =
      if is_recordable run
      then (ok tt, record d { ingest_runs = d.ingest_runs ++ run ∷ [] })
      else (err (thrown []), d)

  pub last_complete_at : Text → PgCorpus P Num → Option ℕ
  unfolding max_finished
  last_complete_at source d =
      max_finished (keep_if (λ r. text_eq r.source source && r.complete) d.ingest_runs)
