-- ===== src/Ingest/Tests/Runs.antt =====
-- Runs of core/ingest/pipeline.ts over the stages in memory, and of its gate.
use mathlib.Core.Option.{some-injective}
use monster_paws.Prelude.{
  ℕ, codes, Text, text_eq, text_key, ◌≡◌, refl, sym, inl, inr, Bool, true, none, some, [], ◌∷◌,
  lookup, Map, subst, ap, ◌∙◌, Bool-cases,
}
use monster_paws.Result.{Result, ok, thrown, ok-injective}
use monster_paws.Ingest.Merge.Outcome.{AllKnown}
use monster_paws.Ingest.Model.{StoredObservation, NormalizedAnimal}
use monster_paws.Ingest.Report.{Feed, RunClock, RunOptions}
use monster_paws.Ingest.Pipeline.{ingest_feed, run_ingest}
use monster_paws.Ingest.Pipeline.Accounting.{Balanced, ingest_feed-Balanced}
use monster_paws.Ingest.Corpus.{empty_corpus}
use monster_paws.Ingest.Memory.WellFormed.{WellFormed}
use monster_paws.Ingest.Memory.Kept.{Kept}
use monster_paws.Ingest.MemoryStages.{memory_stages}
use monster_paws.Ingest.MemoryStages.Run.{Honest, run_ingest-WellFormed}
use monster_paws.Ingest.MemoryStages.Partial.{run_ingest-Kept}
use monster_paws.Ingest.Tests.{
  groups, observed, identity, corpus, first_claims, first_claims-AllKnown, thousandths,
}

abbrev pub any_order : Text → Text → Bool
any_order a b = true

abbrev pub normalized : NormalizedAnimal
normalized = record { claims = first_claims; display = none; source_updated_at = none }

abbrev pub normalizers : Map Text (StoredObservation ℕ → Result NormalizedAnimal)
normalizers = (groups, λ obs. ok normalized) ∷ []

abbrev feed : Feed ℕ
feed = record {
  source = groups;
  observations = observed (codes "77") 20 (codes "b") ∷ observed (codes "79") 21 (codes "c") ∷ [];
  broken_by = none;
}

abbrev broken_feed : Feed ℕ
broken_feed = record feed { broken_by = some (thrown (codes "timeout")) }

abbrev pub clock : RunClock
clock = record { started_at = 20; reconcile_at = 30; finished_at = 31 }

abbrev pub whole : RunOptions ℕ
whole = record { complete = true; max_daily_disappearance_rate = none }

feed_example : Balanced 2 (ingest_feed (memory_stages any_order normalizers) feed corpus).report
feed_example = ingest_feed-Balanced (memory_stages {Num = ℕ} any_order normalizers) feed corpus

-- The one normalizer there is says the same of every observation.
pub normalizers-normalized :
    (source : Text) (n : StoredObservation ℕ → Result NormalizedAnimal)
    → lookup source normalizers ≡ some n
    → n ≡ (λ obs. ok normalized)
unfolding lookup
normalizers-normalized source n there = elim (Bool-cases (text_eq groups source)) [
  | inr other ↦ absurd (cc (rw other at there))
  | inl same ↦ sym (some-injective _ _ (rw same at there))
]

pub normalizers-Honest : Honest {Num = ℕ} any_order normalizers thousandths
normalizers-Honest obs n a there e =
    let is : ok normalized ≡ ok a =
      ap (λ f. f obs) (sym (normalizers-normalized obs.source n there)) ∙ e in
    subst (λ (x : NormalizedAnimal). AllKnown x.claims) (ok-injective is) first_claims-AllKnown

pub empty-WellFormed : WellFormed {P = ℕ} {Num = ℕ} empty_corpus
unfolding lookup empty_corpus
empty-WellFormed = record {
  keyed = λ k id e. cc;
  linked = λ k id e. cc;
  below = λ n held e. cc;
  known = λ n held e. cc;
}

run_example :
    WellFormed
      (run_ingest thousandths (memory_stages any_order normalizers) feed clock whole empty_corpus).1
run_example =
    run_ingest-WellFormed any_order normalizers thousandths feed clock whole empty_corpus
      normalizers-Honest empty-WellFormed

found : lookup (codes "rescuegroups:77") corpus.identities ≡ some (identity (codes "77") 10 none)
unfolding lookup text_eq
found = refl

broken_example :
    Kept
      (codes "rescuegroups:77")
      (identity (codes "77") 10 none)
      (run_ingest thousandths
        (memory_stages any_order normalizers)
        broken_feed
        clock
        whole
        corpus).1
broken_example =
    run_ingest-Kept any_order normalizers thousandths broken_feed clock whole corpus
      (codes "rescuegroups:77") (identity (codes "77") 10 none)
      (inr (inl (thrown (codes "timeout"), refl))) found
