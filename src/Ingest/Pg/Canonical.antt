-- ===== src/Ingest/Pg/Canonical.antt =====
-- `createPgCanonicalWriter` of core/ingest/pg.ts: one transaction for a candidate.
pub mod Writer
pub mod Rows
pub mod Sound
pub mod Refines
use monster_paws.Prelude.{
  ℕ, suc, Text, text_eq, text_key, nat_key, ltb, ◌==◌, Bool, true, false, not, ◌&&◌, ◌||◌, Option,
  none, some, List, [], ◌∷◌, ◌++◌, lookup, insert, keep_if, if◌then◌else◌,
}
use monster_paws.Result.{Result, ok, err, thrown, lacks_name_or_species, no_such_animal, ◌>>=◌}
use monster_paws.Ingest.Fields.{
  Field, name, species, FieldValue, FieldClaim, AnimalClaims, field_eq,
}
use monster_paws.Ingest.Merge.{MergeOutcome, merge_claims, viable_first_observation}
use monster_paws.Ingest.Model.{AnimalCandidate}
use monster_paws.Ingest.Report.{Applied}
use monster_paws.Ingest.Corpus.{MemoryRawRow, MemoryIdentity, MemoryDisplay}
use monster_paws.Ingest.Memory.{is_row_of, upkeep, writer_events}
use monster_paws.Ingest.Pg.{Stamp, AnimalRow, PgCorpus, update_where, some_row, is_identity_of}

is_display_of : ℕ → Text → MemoryDisplay → Bool
is_display_of animal_id source row = (row.animal_id == animal_id) && text_eq row.source source

-- `currentClaimsOf`: the claims that a row holds, from its columns and their provenance.
unfoldable pub claim_of : Option FieldValue → Option Stamp → Option FieldClaim
claim_of value none = none
claim_of value (some stamp) = some (record {
  value = value;
  source = stamp.source;
  fetched_at = stamp.fetched_at;
  raw_id = stamp.raw_id;
})

unfoldable pub current_claims_of : AnimalRow → AnimalClaims
unfolding claim_of
current_claims_of row f = claim_of (row.columns f) (row.provenance f)

abbrev pub empty_row : AnimalRow
empty_row = record { columns = λ f. none; provenance = λ f. none }

-- A touched field's column and stamp. Reading a winner that is not there would throw.
unfoldable pub write_field : Field → FieldClaim → AnimalRow → AnimalRow
write_field f winner row = record {
  columns = λ g. if field_eq f g then winner.value else row.columns g;
  provenance = λ g.
      if field_eq f g
      then some (record {
        source = winner.source;
        fetched_at = winner.fetched_at;
        raw_id = winner.raw_id;
      })
      else row.provenance g;
}

unfoldable pub write_touched : List Field → AnimalClaims → AnimalRow → Result AnimalRow
unfolding write_field
write_touched [] claims row = ok row
write_touched (f ∷ fs) claims row = elim (claims f) [
  | none ↦ err (thrown [])
  | some winner ↦ write_touched fs claims (write_field f winner row)
]

pub is_null : Option FieldValue → Bool
is_null none = true
is_null (some v) = false

stamp_rows : AnimalCandidate → List MemoryIdentity → List MemoryIdentity
stamp_rows candidate ids = elim candidate.source_updated_at [
  | none ↦ ids
  | some stamp ↦
      update_where (is_identity_of candidate.source candidate.external_id)
        (λ id. record id { source_updated_at = stamp }) ids
]

-- `INSERT … ON CONFLICT DO UPDATE` on the licensed display of an animal by a source.
upsert_display : AnimalCandidate → ℕ → List MemoryDisplay → List MemoryDisplay
unfolding is_display_of
upsert_display candidate animal_id rows = elim candidate.display [
  | none ↦ rows
  | some content ↦
      if some_row (is_display_of animal_id candidate.source) rows
      then update_where (is_display_of animal_id candidate.source)
          (λ row. record row { content = content }) rows
      else rows
        ++ record { animal_id = animal_id; source = candidate.source; content = content } ∷ []
]

pub merge_row : AnimalCandidate → AnimalRow → Result (MergeOutcome × AnimalRow)
merge_row candidate row = do
  merged ← merge_claims (current_claims_of row) candidate.claims candidate.raw_id
  written ← write_touched merged.touched merged.claims row
  ok (merged, written)

module _ {P : Type 0} where
  -- `max(last_seen)`.
  unfoldable pub max_last_seen : List (MemoryRawRow P) → Option ℕ
  max_last_seen [] = none
  max_last_seen (r ∷ rs) = elim (max_last_seen rs) [
    | none ↦ some r.last_seen
    | some at ↦ if ltb at r.last_seen then some r.last_seen else some at
  ]

unfoldable pub or_instant : Option ℕ → ℕ → ℕ
or_instant none d = d
or_instant (some at) d = at

module _ {P Num : Type 0} where
  identity_row : AnimalCandidate → ℕ → Option ℕ → PgCorpus P Num → MemoryIdentity
  unfolding or_instant
  identity_row candidate animal_id occurred d = record {
    animal_id = animal_id;
    source = candidate.source;
    external_id = candidate.external_id;
    last_seen_at =
        or_instant
          (max_last_seen
            (keep_if (is_row_of candidate.source candidate.external_id) d.raw_payloads))
          (or_instant occurred 0);
    disappeared_at = none;
    source_updated_at = upkeep candidate.source_updated_at;
  }

  -- What the transaction writes after the animal's row: display and event.
  pub finish :
      AnimalCandidate → ℕ → Bool → MergeOutcome → PgCorpus P Num → Result Applied × PgCorpus P Num
  unfolding upsert_display
  finish candidate animal_id is_new merged d =
      let emitted = writer_events candidate animal_id is_new merged in
      (
        ok (record { animal_id = animal_id; events = emitted; conflicted = merged.conflicted }),
        record d {
          animal_display = upsert_display candidate animal_id d.animal_display;
          event_log = d.event_log ++ emitted;
        },
      )

  -- The rows of a new animal; `name`, `species` and the record's identity are constrained.
  start_animal :
      AnimalCandidate → MergeOutcome → AnimalRow → PgCorpus P Num → Result Applied × PgCorpus P Num
  unfolding finish identity_row is_null
  start_animal candidate merged row d =
      let taken : PgCorpus P Num = record d { next_animal_id = suc d.next_animal_id } in
      if is_null (row.columns name)
        || is_null (row.columns species)
        || some_row (is_identity_of candidate.source candidate.external_id) d.animal_identities
      then (err (thrown []), taken)
      else finish candidate d.next_animal_id true merged (record taken {
        animals = insert d.next_animal_id row d.animals;
        animal_identities =
            d.animal_identities
            ++ identity_row candidate d.next_animal_id merged.occurred_at d ∷ [];
      })

  -- Written on any touched field, not only on a changed value.
  rewrite_animal :
      AnimalCandidate
      → ℕ
      → MergeOutcome
      → AnimalRow
      → PgCorpus P Num
      → Result Applied × PgCorpus P Num
  unfolding finish stamp_rows
  rewrite_animal candidate animal_id merged row d =
      finish candidate animal_id false merged (record d {
        animals = elim merged.touched [ [] ↦ d.animals | f ∷ fs ↦ insert animal_id row d.animals ];
        animal_identities = stamp_rows candidate d.animal_identities;
      })

  -- `createPgCanonicalWriter`'s `apply`. An identity whose animal is not there, which the foreign
  -- key rules out, gives the error that it gives in memory.
  pub apply : AnimalCandidate → Option ℕ → PgCorpus P Num → Result Applied × PgCorpus P Num
  unfolding merge_row start_animal rewrite_animal
  apply candidate none d =
      if not (viable_first_observation candidate.claims)
      then (err (lacks_name_or_species candidate.source candidate.external_id), d)
      else elim (merge_row candidate empty_row) [
        | err e ↦ (err e, d)
        | ok (merged, row) ↦ start_animal candidate merged row d
      ]
  apply candidate (some animal_id) d = elim (lookup animal_id d.animals) [
    | none ↦ (err no_such_animal, d)
    | some existing ↦ elim (merge_row candidate existing) [
      | err e ↦ (err e, d)
      | ok (merged, row) ↦ rewrite_animal candidate animal_id merged row d
    ]
  ]
