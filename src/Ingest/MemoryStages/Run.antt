-- ===== src/Ingest/MemoryStages/Run.antt =====
-- Whole runs of core/ingest/pipeline.ts over the stages of core/ingest/memory.ts.
use monster_paws.Prelude.{Text, text_key, nat_key, ◌≡◌, Bool, some, Map, lookup}
use monster_paws.Result.{Result, ok}
use monster_paws.Ingest.Gate.{Floats}
use monster_paws.Ingest.Merge.Outcome.{AllKnown}
use monster_paws.Ingest.Model.{StoredObservation, NormalizedAnimal}
use monster_paws.Ingest.Report.{Feed, RunClock, RunOptions}
use monster_paws.Ingest.Corpus.{Corpus}
use monster_paws.Ingest.Memory.WellFormed.{WellFormed, persist-WellFormed, apply-WellFormed}
use monster_paws.Ingest.Pipeline.{candidate_of, run_ingest}
use monster_paws.Ingest.Pipeline.Keeps.{run_ingest-keeps}
use monster_paws.Ingest.Reconcile.Keeps.{reconcile-WellFormed, record_run-WellFormed}
use monster_paws.Ingest.MemoryStages.{memory_stages}

module _ {P Num : Type 0} (precedes : Text → Text → Bool)
    (normalizers : Map Text (StoredObservation P → Result NormalizedAnimal))
    (floats : Floats Num) where
  -- What the code relies on of a normalizer: its claims name known sources.
  abbrev pub Honest : Type 0
  Honest =
      (obs : StoredObservation P) (n : StoredObservation P → Result NormalizedAnimal)
      (a : NormalizedAnimal)
      → lookup obs.source normalizers ≡ some n
      → n obs ≡ ok a
      → AllKnown a.claims

  -- A run over the stages in memory keeps a well-formed corpus well-formed, whatever the feed, its
  -- errors and the options, if the normalizers claim in the name of known sources.
  pub run_ingest-WellFormed :
      (feed : Feed P) (clock : RunClock) (options : RunOptions Num) (c : Corpus P Num)
      → Honest
      → WellFormed c
      → WellFormed (run_ingest floats (memory_stages precedes normalizers) feed clock options c).1
  unfolding memory_stages candidate_of
  run_ingest-WellFormed feed clock options c honest wf =
      run_ingest-keeps (memory_stages precedes normalizers) WellFormed (λ x. AllKnown x.claims)
        persist-WellFormed honest (λ x animal s good _ i. apply-WellFormed x animal s good i)
        (λ source seen at gate s i. reconcile-WellFormed precedes source seen at gate s i)
        (λ r s i. record_run-WellFormed precedes r s i) floats feed clock options c wf
