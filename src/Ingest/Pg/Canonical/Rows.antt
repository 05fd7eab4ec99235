-- ===== src/Ingest/Pg/Canonical/Rows.antt =====
-- What the transaction of core/ingest/pg.ts leaves of the raw table and of the identity rows.
use monster_paws.Prelude.{
  ℕ, Text, nat_key, lookup, ◌≡◌, refl, inl, inr, ◌||◌, Option, none, some, arith, Option-cases,
  Bool-cases,
}
use monster_paws.Result.{Result-cases}
use monster_paws.Sources.Identity.{IsKnown}
use monster_paws.Ingest.Fields.{name, species}
use monster_paws.Ingest.Merge.{MergeOutcome, viable_first_observation}
use monster_paws.Ingest.Model.{AnimalCandidate}
use monster_paws.Ingest.Pg.{AnimalRow, PgCorpus, some_row, is_identity_of}
use monster_paws.Ingest.Pg.Rows.{IdentityRows, update_where-IdentityRows, append-IdentityRows}
use monster_paws.Ingest.Pg.Canonical.{
  empty_row, merge_row, finish, start_animal, rewrite_animal, stamp_rows, identity_row, is_null,
  apply,
}

-- The raw table stands, and the identity rows stay one for each record.
pub record Leaves {P Num : Type 0} (IsPlain : Text → Type 0) (d d' : PgCorpus P Num) : Type 0 where
  pub raw_payloads : d'.raw_payloads ≡ d.raw_payloads
  pub next_raw_id : d'.next_raw_id ≡ d.next_raw_id
  pub identity_rows :
      IdentityRows IsPlain d.animal_identities → IdentityRows IsPlain d'.animal_identities

module _ {P Num : Type 0} (IsPlain : Text → Type 0) (candidate : AnimalCandidate)
    (d : PgCorpus P Num) where
  stamp_rows-IdentityRows :
      (o : Option (Option ℕ))
      → candidate.source_updated_at ≡ o
      → IdentityRows IsPlain d.animal_identities
      → IdentityRows IsPlain (stamp_rows candidate d.animal_identities)
  unfolding stamp_rows
  stamp_rows-IdentityRows none e h = rw (e, stamp_rows) h
  stamp_rows-IdentityRows (some stamp) e h =
      rw (e, stamp_rows)
        (update_where-IdentityRows IsPlain _ (λ id. record id { source_updated_at = stamp })
          (λ r. (refl, refl)) d.animal_identities h)

  start_animal-Leaves :
      (o : MergeOutcome) (row : AnimalRow)
      → IsKnown candidate.source
      → IsPlain candidate.external_id
      → Leaves IsPlain d (start_animal candidate o row d).1
  unfolding start_animal finish identity_row
  start_animal-Leaves o row known plain =
      elim (Bool-cases (
        is_null (row.columns name)
        || is_null (row.columns species)
        || some_row (is_identity_of candidate.source candidate.external_id) d.animal_identities)) [
          | inl refused ↦
              rw refused
                (record { raw_payloads = refl; next_raw_id = refl; identity_rows = λ h. h })
          | inr fits ↦ rw fits (record {
            raw_payloads = refl;
            next_raw_id = refl;
            identity_rows =
                append-IdentityRows IsPlain _ d.animal_identities known plain (ground arith);
          })
        ]

  nothing-Leaves : Leaves IsPlain d d
  nothing-Leaves = record { raw_payloads = refl; next_raw_id = refl; identity_rows = λ h. h }

  -- Applying a candidate of a known source.
  pub apply-Leaves :
      (animal : Option ℕ)
      → IsKnown candidate.source
      → IsPlain candidate.external_id
      → Leaves IsPlain d (apply candidate animal d).1
  unfolding apply rewrite_animal finish
  apply-Leaves none known plain = elim (Bool-cases (viable_first_observation candidate.claims)) [
    | inr lacking ↦ rw (lacking, apply) nothing-Leaves
    | inl viable ↦ elim (Result-cases (merge_row candidate empty_row)) [
      | inr (x, e) ↦ rw (viable, apply, e) nothing-Leaves
      | inl (w, e) ↦ rw (viable, apply, e) (start_animal-Leaves w.0 w.1 known plain)
    ]
  ]
  apply-Leaves (some n) known plain = elim (Option-cases (lookup n d.animals)) [
    | inl gone ↦ rw (gone, apply) nothing-Leaves
    | inr (row, there) ↦ elim (Result-cases (merge_row candidate row)) [
      | inr (x, e) ↦ rw (there, apply, e) nothing-Leaves
      | inl (w, e) ↦
          rw (there, apply, e)
            (record {
              raw_payloads = refl;
              next_raw_id = refl;
              identity_rows = stamp_rows-IdentityRows candidate.source_updated_at refl;
            })
    ]
  ]
