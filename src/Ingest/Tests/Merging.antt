-- ===== src/Ingest/Tests/Merging.antt =====
-- Runs of core/ingest/merge.ts.
use monster_paws.Prelude.{ℕ, ◌≡◌, ◌≢◌, refl, arith}
use monster_paws.Result.{ok}
use monster_paws.Ingest.Fields.{Field, name, species}
use monster_paws.Ingest.Merge.{MergeOutcome, merge_claims}
use monster_paws.Ingest.Merge.Outcome.{FieldOutcome, merge_claims-FieldOutcome}
use monster_paws.Ingest.Merge.Convergence.{HasRow, merge_claims-commute}
use monster_paws.Ingest.Tests.{
  first_claims, second_claims, first_claims-AllKnown, second_claims-AllKnown,
}

merge_claims_example :
    (o : MergeOutcome) × (merge_claims first_claims second_claims 4 ≡ ok o)
    × ((f : Field) → FieldOutcome first_claims second_claims 4 o f)
merge_claims_example =
    merge_claims-FieldOutcome first_claims second_claims 4 first_claims-AllKnown
      second_claims-AllKnown

first_claims-HasRow : (f : Field) → HasRow (first_claims f)
first_claims-HasRow name = (1, refl)
first_claims-HasRow species = (1, refl)
first_claims-HasRow _ = tt

three_ne_four : ◌≢◌ {A = ℕ} 3 4
three_ne_four e = omega arith

commute_example :
    (o₁ o₂ p₁ p₂ : MergeOutcome) × (merge_claims first_claims second_claims 3 ≡ ok o₁)
    × (merge_claims o₁.claims first_claims 4 ≡ ok o₂)
    × (merge_claims first_claims first_claims 4 ≡ ok p₁)
    × (merge_claims p₁.claims second_claims 3 ≡ ok p₂)
    × (o₂.claims ≡ p₂.claims)
commute_example =
    merge_claims-commute first_claims second_claims first_claims 3 4 first_claims-AllKnown
      second_claims-AllKnown first_claims-AllKnown first_claims-HasRow three_ne_four

merged :
    (o : MergeOutcome) × (merge_claims first_claims second_claims 4 ≡ ok o)
    × ((f : Field) → FieldOutcome first_claims second_claims 4 o f)
merged =
    merge_claims-FieldOutcome first_claims second_claims 4 first_claims-AllKnown
      second_claims-AllKnown
