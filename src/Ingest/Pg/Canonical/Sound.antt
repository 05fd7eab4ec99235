-- ===== src/Ingest/Pg/Canonical/Sound.antt =====
-- What the tables hold, and what the record of a new animal must bring.
use monster_paws.Prelude.{
  ℕ, text_key, nat_key, ◌≡◌, refl, sym, ap, ◌∙◌, subst, Bool, false, Option, none, some, List, [],
  ◌∷◌, lookup, keep_if, find_last, All, arith,
}
use monster_paws.Shelters.{find_first}
use monster_paws.Ingest.Fields.{Field, name, species, FieldValue, FieldClaim, AnimalClaims}
use monster_paws.Ingest.Merge.{MergeOutcome, competing}
use monster_paws.Ingest.Merge.Outcome.{AllKnown, FieldOutcome}
use monster_paws.Ingest.Model.{AnimalCandidate}
use monster_paws.Ingest.Corpus.{no_claims}
use monster_paws.Ingest.Memory.{is_row_of, first_sighting}
use monster_paws.Ingest.Pg.{PgCorpus, AnimalRow, some_row}
use monster_paws.Ingest.Pg.Canonical.{
  claim_of, current_claims_of, max_last_seen, or_instant, is_null,
}
use monster_paws.Ingest.Pg.View.{KnownRow, UniqueRows}

-- What the tables hold: records of known sources, one row each, and claims of known sources.
pub record Sound {P Num : Type 0} (d : PgCorpus P Num) : Type 0 where
  pub known_rows : All KnownRow d.animal_identities
  pub unique_rows : UniqueRows d.animal_identities
  pub known_claims :
      (n : ℕ) (row : AnimalRow) → lookup n d.animals ≡ some row → AllKnown (current_claims_of row)

-- A claim with a value, as a column that is not null needs it.
abbrev pub Valued : Option FieldClaim → Type 0
Valued o = (c : FieldClaim) × (v : FieldValue) × (o ≡ some c) × (c.value ≡ some v)

-- A new record's candidate: both constrained columns get a value, and the record's newest raw row
-- is the one that was seen last.
pub record Fresh {P Num : Type 0} (candidate : AnimalCandidate) (d : PgCorpus P Num) : Type 0 where
  pub named : Valued (candidate.claims name)
  pub kinded : Valued (candidate.claims species)
  pub newest :
      (occurred : Option ℕ)
      → or_instant
          (max_last_seen
            (keep_if (is_row_of candidate.source candidate.external_id) d.raw_payloads))
          (or_instant occurred 0)
        ≡ first_sighting
            (find_last (is_row_of candidate.source candidate.external_id) d.raw_payloads)
            occurred

column_of :
    (value : Option FieldValue) (stamp : Option _) (w : FieldClaim)
    → claim_of value stamp ≡ some w
    → value ≡ w.value
unfolding claim_of
column_of value none w e = absurd (cc)
column_of value (some stamp) w e = cc

competing-valued :
    (raw_id : ℕ) (c : FieldClaim) (v : FieldValue)
    → c.value ≡ some v
    → competing raw_id (some c) ≡ some (record c { raw_id = some raw_id })
unfolding competing
competing-valued raw_id c v ev =
    subst
      (λ o.
        (elim o as (λ _. Option FieldClaim) [
          | none ↦ none
          | some x ↦ some (record c { raw_id = some raw_id })
        ])
        ≡ some (record c { raw_id = some raw_id }))
      (sym ev) refl

-- The column of a field that a valued claim starts.
pub started_column :
    (claims : AnimalClaims) (raw_id : ℕ) (o : MergeOutcome) (row : AnimalRow) (f : Field)
    → FieldOutcome no_claims claims raw_id o f
    → current_claims_of row ≡ o.claims
    → Valued (claims f)
    → is_null (row.columns f) ≡ false
unfolding competing current_claims_of is_null
started_column claims raw_id o row f outcome holds (c, v, e, ev) =
    let competes : competing raw_id (claims f) ≡ some (record c { raw_id = some raw_id }) =
      ap (competing raw_id) e ∙ competing-valued raw_id c v ev in
    let settles : o.claims f ≡ some (record c { raw_id = some raw_id }) =
      rw competes at (outcome.settles) in
    let at : claim_of (row.columns f) (row.provenance f)
        ≡ some (record c { raw_id = some raw_id }) =
      ap (λ k. k f) holds ∙ settles in
    rw (column_of (row.columns f) (row.provenance f) _ at ∙ ev) refl

pub none-some_row :
    {A : Type 0} (test : A → Bool) (xs : List A)
    → find_first test xs ≡ none
    → some_row test xs ≡ false
unfolding find_first some_row
none-some_row test [] h = refl
none-some_row test (x ∷ xs) h = ground (arith, none-some_row test xs)
