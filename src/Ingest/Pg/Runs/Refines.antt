-- ===== src/Ingest/Pg/Runs/Refines.antt =====
-- Whole runs of core/ingest/pipeline.ts over Postgres and in memory.
use monster_paws.Prelude.{
  true, List, ℕ, Text, text_key, lookup, ◌≡◌, refl, ap, ◌∙◌, Bool, some, [], ◌∷◌, ◌++◌, Map,
}
use monster_paws.Result.{Result, ok, ok-injective}
use monster_paws.Ingest.Gate.{Floats}
use monster_paws.Ingest.Merge.Outcome.{AllKnown}
use monster_paws.Ingest.Model.{StoredObservation, NormalizedAnimal}
use monster_paws.Ingest.Report.{
  Feed, RunClock, RunOptions, IngestRunRecord, IngestRunReport, to_run_record,
}
use monster_paws.Ingest.Corpus.{Corpus, MemoryIdentity}
use monster_paws.Ingest.MemoryStages.{memory_stages}
use monster_paws.Ingest.Reconcile
use monster_paws.Ingest.Reconcile.Keeps.{record_run-WellFormed}
use monster_paws.Ingest.Pipeline.{run_ingest, candidate_of, finish_lifecycle, ingest_feed}
use monster_paws.Ingest.Pipeline.Simulates.{
  SameAnswer, Chained, last_poll, with_payload, ingest_feed-same, run_ingest-same,
}
use monster_paws.Ingest.Pg.{PgCorpus, record_run, is_recordable}
use monster_paws.Ingest.Pg.Lifecycle.Shuffle.{Collates, IsRowOrder}
use monster_paws.Ingest.Pg.Stages.{pg_stages}
use monster_paws.Ingest.Pg.Runs.Latest.{last_complete_at-view}
use monster_paws.Ingest.Pg.Runs.Tables.{Polled, Ready, Stored, persist-Stored}
use monster_paws.Ingest.Pg.Runs.Writes.{Filled, apply-Ready, reconcile-Ready}

-- What the code relies on of the normalizers: they claim in the name of known sources, give a name
-- and a species a value where they claim them, and answer alike on payloads of one content hash.
pub record Faithful {P : Type 0} (hash_of : P → Text)
    (normalizers : Map Text (StoredObservation P → Result NormalizedAnimal)) : Type 0 where
  pub honest :
      (obs : StoredObservation P) (n : StoredObservation P → Result NormalizedAnimal)
      (x : NormalizedAnimal)
      → lookup obs.source normalizers ≡ some n
      → n obs ≡ ok x
      → AllKnown x.claims
  pub filled :
      (obs : StoredObservation P) (n : StoredObservation P → Result NormalizedAnimal)
      (x : NormalizedAnimal)
      → lookup obs.source normalizers ≡ some n
      → n obs ≡ ok x
      → Filled x.claims
  pub content :
      (obs : StoredObservation P) (p : P) (n : StoredObservation P → Result NormalizedAnimal)
      → lookup obs.source normalizers ≡ some n
      → hash_of obs.payload ≡ hash_of p
      → n obs ≡ n (with_payload obs p)

-- The numbers of a run's row fit into `integer` columns.
abbrev pub Recordable : {Num : Type 0} → IngestRunRecord Num → Type 0
Recordable run = is_recordable run ≡ true

module _ {P Num : Type 0} (hash_of : P → Text) (IsPlain : Text → Type 0)
    (precedes : Text → Text → Bool)
    (gone_order missed_order : List MemoryIdentity → List MemoryIdentity)
    (normalizers : Map Text (StoredObservation P → Result NormalizedAnimal)) where
  record_run-Ready :
      (now : ℕ) (run : IngestRunRecord Num) (d : PgCorpus P Num) (c : Corpus P Num)
      → Recordable run
      → Ready hash_of IsPlain now d c
      → SameAnswer
          (Ready hash_of IsPlain now)
          (record_run run d)
          (ok tt, Reconcile.record_run run c)
  unfolding record_run Reconcile.record_run
  record_run-Ready now run d c fits r = rw fits (
    refl,
    record {
      same = ap (λ (x : Corpus P Num). record x { runs = x.runs ++ run ∷ [] }) r.same;
      well_formed = record_run-WellFormed precedes run c r.well_formed;
      identity_rows = r.identity_rows;
      rising = r.rising;
      rows_by = r.rows_by;
    },
  )

  -- A run over Postgres is the run in memory. The tables start as ones that stand for a well-formed
  -- corpus, but for the licensed display, with one identity row for each record of a known source,
  -- raw ids that rise, the hash of every payload, and no sighting after an instant (`Ready`); the
  -- feed yields observations of known sources with the hashes of their payloads, at instants that
  -- do not go back (`Polled`); the normalizers claim in the name of known sources, give a value
  -- with a name or a species, and answer alike on payloads of one hash (`Faithful`); the comparison
  -- of external ids is transitive and tells those of the rows and the feed apart (`Collates`); and
  -- the numbers of the run's own row fit into its columns, the step back of the clock among them.
  -- Then, in whatever order the database returns rows, both runs give the same report or the same
  -- error, whatever breaks the feed off and whatever the options; and the tables stand for the
  -- corpus as before, up to the feed's last instant, so that a next run can follow.
  pub run_ingest-view :
      (floats : Floats Num) (feed : Feed P) (clock : RunClock) (options : RunOptions Num) (now : ℕ)
      (d : PgCorpus P Num) (c : Corpus P Num)
      → Faithful hash_of normalizers
      → Collates precedes IsPlain
      → IsRowOrder gone_order
      → IsRowOrder missed_order
      → Chained (Polled hash_of IsPlain) now feed.observations
      → Ready hash_of IsPlain now d c
      → ((r : IngestRunReport Num)
          → (finish_lifecycle floats
              (memory_stages precedes normalizers)
              feed.source
              clock
              options
              (ingest_feed (memory_stages precedes normalizers) feed c)).0
            ≡ ok r
          → Recordable (to_run_record r clock.started_at clock.finished_at))
      → let pg =
          run_ingest floats
            (pg_stages precedes gone_order missed_order normalizers)
            feed
            clock
            options
            d in
        let memory = run_ingest floats (memory_stages precedes normalizers) feed clock options c in
        (pg.0 ≡ memory.0) × Ready hash_of IsPlain (last_poll now feed.observations) pg.1 memory.1
  unfolding pg_stages memory_stages candidate_of Reconcile.last_complete_at
  run_ingest-view floats feed clock options now d c faithful collates g m chained ready fits =
      run_ingest-same (pg_stages precedes gone_order missed_order normalizers)
        (memory_stages precedes normalizers)
        (Ready hash_of IsPlain (last_poll now feed.observations))
        (λ source seen at gate s t r.
          let (answer, state) =
            reconcile-Ready hash_of IsPlain precedes gone_order missed_order collates g m source
              seen at _ gate s t r in
          (ap ok answer, state))
        (λ source s t r.
          ap ok (last_complete_at-view source s ∙ ap (Reconcile.last_complete_at source) r.same))
        Recordable (λ run s t fit r. record_run-Ready _ run s t fit r) floats feed clock options d c
        fits
        (ingest_feed-same (pg_stages precedes gone_order missed_order normalizers)
          (memory_stages precedes normalizers) normalizers refl refl (Polled hash_of IsPlain)
          (Ready hash_of IsPlain) (Stored hash_of IsPlain) (persist-Stored hash_of IsPlain)
          (λ stored kept at s t m. m.ready)
          (λ stored kept at s t n m found. faithful.content stored kept n found m.alike)
          (λ stored kept at s t n x m found made.
            let (resolved, applied) =
              apply-Ready hash_of IsPlain
                (candidate_of
                  (pg_stages {P = P} {Num = Num} precedes gone_order missed_order normalizers)
                  stored x)
                at s t m.known m.plain (faithful.honest stored n x found made)
                (faithful.filled stored n x found made) m.ready m.row m.newest m.seen_now in
            (ap ok resolved, λ animal e. applied animal (ok-injective e)))
          now feed d c chained ready)
