-- ===== src/Ingest/MemoryStages.antt =====
-- `createMemoryStages` of core/ingest/memory.ts: the stages of a run over the corpus in memory. No
-- memory stage but the writer throws.
pub mod Run
pub mod Partial
use monster_paws.Prelude.{Text, Bool, Map}
use monster_paws.Result.{Result, ok}
use monster_paws.Ingest.Model.{StoredObservation, NormalizedAnimal}
use monster_paws.Ingest.Report.{Stages}
use monster_paws.Ingest.Corpus.{Corpus}
use monster_paws.Ingest.Memory
use monster_paws.Ingest.Reconcile

module _ {P Num : Type 0} where
  unfoldable pub memory_stages :
      (Text → Text → Bool)
      → Map Text (StoredObservation P → Result NormalizedAnimal)
      → Stages (Corpus P Num) P Num
  memory_stages precedes normalizers = record {
    persist = Memory.persist;
    normalizers = normalizers;
    resolve = λ candidate c. ok (Memory.resolve candidate c);
    apply = Memory.apply;
    reconcile = λ source seen at gate c.
        let (done, c') = Reconcile.reconcile precedes source seen at gate c in (ok done, c');
    record_run = λ run c. (ok tt, Reconcile.record_run run c);
    last_complete_at = λ source c. ok (Reconcile.last_complete_at source c);
  }
