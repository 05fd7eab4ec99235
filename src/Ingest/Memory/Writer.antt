-- ===== src/Ingest/Memory/Writer.antt =====
-- Stage 4 in memory: what `apply` does, and that it does all of it or nothing.
use monster_paws.Prelude.{
  ℕ, suc, text_key, nat_key, ◌≡◌, refl, sym, ap, ◌∙◌, inl, inr, true, false, Option, none, some,
  lookup, Option-cases, Bool-cases,
}
use monster_paws.Result.{ok, err, Error, lacks_name_or_species, no_such_animal, Result-cases}
use monster_paws.Ingest.Fields.{AnimalClaims}
use monster_paws.Ingest.Merge.{MergeOutcome, merge_claims, viable_first_observation}
use monster_paws.Ingest.Merge.Laws.{merge_claims-empty}
use monster_paws.Ingest.Model.{AnimalCandidate}
use monster_paws.Ingest.Corpus.{Corpus, no_claims}
use monster_paws.Ingest.Memory.{commit, merge_into, apply}

module _ {P Num : Type 0} where
  -- The corpus with one more animal id given out.
  abbrev pub count_animal : Corpus P Num → Corpus P Num
  count_animal c = record c { next_animal_id = suc c.next_animal_id }

  -- The ways that `apply` can go.
  pub data Applies (candidate : AnimalCandidate) (animal : Option ℕ) (c : Corpus P Num)
      : Type 0 where
    starts :
        (merged : MergeOutcome)
        → animal ≡ none
        → merge_claims no_claims candidate.claims candidate.raw_id ≡ ok merged
        → apply candidate animal c ≡ commit candidate c.next_animal_id true merged (count_animal c)
        → Applies candidate animal c
    updates :
        (id : ℕ) (held : AnimalClaims) (merged : MergeOutcome)
        → animal ≡ some id
        → lookup id c.animals ≡ some held
        → merge_claims held candidate.claims candidate.raw_id ≡ ok merged
        → apply candidate animal c ≡ commit candidate id false merged c
        → Applies candidate animal c
    fails : (e : Error) → apply candidate animal c ≡ (err e, c) → Applies candidate animal c

  pub apply_cases :
      (candidate : AnimalCandidate) (animal : Option ℕ) (c : Corpus P Num)
      → Applies candidate animal c
  unfolding apply merge_into
  apply_cases candidate none c = elim (Bool-cases (viable_first_observation candidate.claims)) [
    | inl viable ↦
        let (merged, e) =
          merge_claims-empty no_claims candidate.claims candidate.raw_id (λ f. refl) in
        starts merged refl e (rw (viable, merge_into, e))
    | inr bad ↦ fails (lacks_name_or_species candidate.source candidate.external_id) (rw bad)
  ]
  apply_cases candidate (some id) c = elim (Option-cases (lookup id c.animals)) [
    | inl missing ↦ fails no_such_animal (rw (missing, apply))
    | inr (held, e) ↦ elim (Result-cases (merge_claims held candidate.claims candidate.raw_id)) [
      | inl (merged, f) ↦ updates id held merged refl e f (rw (e, apply, merge_into, f))
      | inr (error, f) ↦ fails error (rw (e, apply, merge_into, f))
    ]
  ]

  -- An `apply` that throws has written nothing, whatever the candidate.
  pub apply-err :
      (candidate : AnimalCandidate) (animal : Option ℕ) (c c' : Corpus P Num) (e : Error)
      → apply candidate animal c ≡ (err e, c')
      → c' ≡ c
  unfolding commit
  apply-err candidate animal c c' e h = go (apply_cases candidate animal c)
    where
      go : Applies candidate animal c → c' ≡ c
      go (starts merged _ _ way) = absurd (cc)
      go (updates id held merged _ _ _ way) = absurd (cc)
      go (fails x way) = ap (λ r. r.1) (sym h ∙ way)

  -- The way of an animal that is there.
  pub apply-updates :
      (candidate : AnimalCandidate) (id : ℕ) (held : AnimalClaims) (merged : MergeOutcome)
      (c : Corpus P Num)
      → lookup id c.animals ≡ some held
      → merge_claims held candidate.claims candidate.raw_id ≡ ok merged
      → apply candidate (some id) c ≡ commit candidate id false merged c
  unfolding apply merge_into
  apply-updates candidate id held merged c e f = rw (e, apply, merge_into, f)
