-- ===== src/Ingest/Pg/Stages.antt =====
-- `createPgStages` of core/ingest/pg.ts: the stages of a run over the tables.
use monster_paws.Prelude.{Text, Bool, List, Map}
use monster_paws.Result.{Result, ok}
use monster_paws.Ingest.Model.{StoredObservation, NormalizedAnimal}
use monster_paws.Ingest.Corpus.{MemoryIdentity}
use monster_paws.Ingest.Report.{Stages}
use monster_paws.Ingest.Pg.{PgCorpus, resolve, record_run, last_complete_at}
use monster_paws.Ingest.Pg.Store.{persist}
use monster_paws.Ingest.Pg.Canonical.{apply}
use monster_paws.Ingest.Pg.Lifecycle.{reconcile}

module _ {P Num : Type 0} where
  unfoldable pub pg_stages :
      (Text → Text → Bool)
      → (List MemoryIdentity → List MemoryIdentity)
      → (List MemoryIdentity → List MemoryIdentity)
      → Map Text (StoredObservation P → Result NormalizedAnimal)
      → Stages (PgCorpus P Num) P Num
  pg_stages precedes gone_order missed_order normalizers = record {
    persist = persist;
    normalizers = normalizers;
    resolve = λ candidate d. ok (resolve candidate d);
    apply = apply;
    reconcile = λ source seen at gate d.
        let (done, d') = reconcile precedes gone_order missed_order source seen at gate d in
        (ok done, d');
    record_run = record_run;
    last_complete_at = λ source d. ok (last_complete_at source d);
  }
