-- ===== src/Ingest/Pg/Rows.antt =====
-- The identity rows of core/ingest/pg.ts: of known sources, and one for each record.
use monster_paws.Prelude.{
  Text, text_eq_iff, ◌≡◌, inl, inr, Bool, false, List, [], ◌∷◌, ◌++◌, All, All-append, arith,
  Bool-cases,
}
use monster_paws.Sources.Identity.{IsKnown}
use monster_paws.Ingest.Corpus.{MemoryIdentity}
use monster_paws.Ingest.Pg.{update_where, some_row, is_identity_of}
use monster_paws.Ingest.Pg.View.{KnownRow, Apart, UniqueRows}

-- `IsPlain` is a class of external ids.
pub record IdentityRows (IsPlain : Text → Type 0) (ids : List MemoryIdentity) : Type 0 where
  pub known : All KnownRow ids
  pub unique : UniqueRows ids
  pub plain : All (λ id. IsPlain id.external_id) ids

-- An update that leaves whose row it is.
module _ (IsPlain : Text → Type 0) (test : MemoryIdentity → Bool)
    (f : MemoryIdentity → MemoryIdentity)
    (same : (r : MemoryIdentity)
      → ((f r).source ≡ r.source) × ((f r).external_id ≡ r.external_id)) where
  update_where-KnownRow :
      (ids : List MemoryIdentity) → All KnownRow ids → All KnownRow (update_where test f ids)
  unfolding update_where
  update_where-KnownRow [] h = tt
  update_where-KnownRow (r ∷ ids) h = elim (Bool-cases (test r)) [
    | inl hit ↦ rw (hit, (same r).0) (h.0, update_where-KnownRow ids h.1)
    | inr miss ↦ rw miss (h.0, update_where-KnownRow ids h.1)
  ]

  update_where-Apart :
      (a : MemoryIdentity) (ids : List MemoryIdentity)
      → All (Apart a) ids
      → All (Apart a) (update_where test f ids)
  unfolding update_where is_identity_of
  update_where-Apart a [] h = tt
  update_where-Apart a (r ∷ ids) h = elim (Bool-cases (test r)) [
    | inl hit ↦ rw (hit, (same r).0, (same r).1) (h.0, update_where-Apart a ids h.1)
    | inr miss ↦ rw miss (h.0, update_where-Apart a ids h.1)
  ]

  update_where-UniqueRows :
      (ids : List MemoryIdentity) → UniqueRows ids → UniqueRows (update_where test f ids)
  unfolding update_where
  update_where-UniqueRows [] h = tt
  update_where-UniqueRows (r ∷ ids) h = elim (Bool-cases (test r)) [
    | inl hit ↦
        rw (hit, (same r).0, (same r).1)
          (update_where-Apart r ids h.0, update_where-UniqueRows ids h.1)
    | inr miss ↦ rw miss (update_where-Apart r ids h.0, update_where-UniqueRows ids h.1)
  ]

  update_where-plain :
      (ids : List MemoryIdentity)
      → All (λ id. IsPlain id.external_id) ids
      → All (λ id. IsPlain id.external_id) (update_where test f ids)
  unfolding update_where
  update_where-plain [] h = tt
  update_where-plain (r ∷ ids) h = elim (Bool-cases (test r)) [
    | inl hit ↦ rw (hit, (same r).1) (h.0, update_where-plain ids h.1)
    | inr miss ↦ rw miss (h.0, update_where-plain ids h.1)
  ]

  pub update_where-IdentityRows :
      (ids : List MemoryIdentity)
      → IdentityRows IsPlain ids
      → IdentityRows IsPlain (update_where test f ids)
  update_where-IdentityRows ids h = record {
    known = update_where-KnownRow ids h.known;
    unique = update_where-UniqueRows ids h.unique;
    plain = update_where-plain ids h.plain;
  }

module _ (IsPlain : Text → Type 0) (row : MemoryIdentity) where
  Apart-sym : (id : MemoryIdentity) → Apart row id → Apart id row
  unfolding is_identity_of
  Apart-sym id h = ground (
    arith,
    text_eq_iff id.source row.source,
    text_eq_iff row.source id.source,
    text_eq_iff id.external_id row.external_id,
    text_eq_iff row.external_id id.external_id,
  )

  append-UniqueRows :
      (ids : List MemoryIdentity)
      → some_row (is_identity_of row.source row.external_id) ids ≡ false
      → UniqueRows ids
      → UniqueRows (ids ++ row ∷ [])
  unfolding some_row
  append-UniqueRows [] free h = (tt, tt)
  append-UniqueRows (id ∷ ids) free h =
      let apart : Apart row id = ground arith in
      let rest : some_row (is_identity_of row.source row.external_id) ids ≡ false = ground arith in
      (All-append _ ids (row ∷ []) h.0 (Apart-sym id apart, tt), append-UniqueRows ids rest h.1)

  -- The row of a record that has none.
  pub append-IdentityRows :
      (ids : List MemoryIdentity)
      → IsKnown row.source
      → IsPlain row.external_id
      → some_row (is_identity_of row.source row.external_id) ids ≡ false
      → IdentityRows IsPlain ids
      → IdentityRows IsPlain (ids ++ row ∷ [])
  append-IdentityRows ids known plain free h = record {
    known = All-append KnownRow ids (row ∷ []) h.known (known, tt);
    unique = append-UniqueRows ids free h.unique;
    plain = All-append (λ id. IsPlain id.external_id) ids (row ∷ []) h.plain (plain, tt);
  }
