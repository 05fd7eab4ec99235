-- ===== src/Ingest/MemoryStages/Partial.antt =====
-- Runs of core/ingest/pipeline.ts that say nothing about absence: partial, broken or empty ones.
use monster_paws.Prelude.{Text, text_key, ◌≡◌, refl, ◌⊎◌, Bool, false, some, [], Map, lookup}
use monster_paws.Result.{Result, Error, ok-injective}
use monster_paws.Ingest.Gate.{Floats}
use monster_paws.Ingest.Model.{StoredObservation, NormalizedAnimal}
use monster_paws.Ingest.Report.{Feed, RunClock, RunOptions}
use monster_paws.Ingest.Corpus.{Corpus, MemoryIdentity}
use monster_paws.Ingest.Pipeline.{run_ingest}
use monster_paws.Ingest.Pipeline.Keeps.{run_ingest_blind-keeps}
use monster_paws.Ingest.Reconcile.Keeps.{record_run-Kept}
use monster_paws.Ingest.Memory.Kept.{Kept, persist-Kept, apply-Kept}
use monster_paws.Ingest.MemoryStages.{memory_stages}

module _ {P Num : Type 0} (precedes : Text → Text → Bool)
    (normalizers : Map Text (StoredObservation P → Result NormalizedAnimal))
    (floats : Floats Num) where
  -- Absence is never inferred from a feed that is declared partial, that breaks off or that yields
  -- nothing: such a run leaves every identity of the corpus under its key, with the animal, the
  -- last sighting and the disappearance that it had.
  pub run_ingest-Kept :
      (feed : Feed P) (clock : RunClock) (options : RunOptions Num) (c : Corpus P Num) (k : Text)
      (id : MemoryIdentity)
      → (options.complete ≡ false)
        ⊎ (((e : Error) × (feed.broken_by ≡ some e)) ⊎ (feed.observations ≡ []))
      → lookup k c.identities ≡ some id
      → Kept k id (run_ingest floats (memory_stages precedes normalizers) feed clock options c).1
  unfolding memory_stages
  run_ingest-Kept feed clock options c k id blind there =
      run_ingest_blind-keeps (memory_stages precedes normalizers) (Kept k id) (λ x. Unit)
        (persist-Kept k id) (λ obs n a found e. tt)
        (λ x animal s good resolved i. apply-Kept k id x animal s (ok-injective resolved) i)
        (λ r s i. record_run-Kept k id r s i) floats feed clock options c blind
        (record {
          now = id;
          there = there;
          disappeared_at = refl;
          last_seen_at = refl;
          animal_id = refl;
        })
