-- ===== src/Ingest/Pg/Runs/Tests.antt =====
-- A run of core/ingest/pipeline.ts from empty tables: a record that is polled twice with payloads
-- of one hash, and another record.
use mathlib.Core.Option.{some-injective}
use monster_paws.Prelude.{
  starts_with, keep_if, find_last, text_eq, lookup, insert, ℕ, Text, codes, ◌≡◌, refl, sym, ap, ◌∙◌,
  subst, ltb, none, List, [], ◌∷◌, if◌then◌else◌, arith,
}
use monster_paws.Result.{Result, ok, err, ok-injective}
use monster_paws.Sources.{tier_of, is_scrape_source, fixed_source_tier, rank_of}
use monster_paws.Trust.{resolve_claim, cross_tier}
use monster_paws.Ingest.Fields.{field_eq}
use monster_paws.Ingest.Model.{Observation, NormalizedAnimal}
use monster_paws.Ingest.Merge.{
  verdict_on, judge, enter, merge_field, merge_fields, merge_claims, competing,
  viable_first_observation,
}
use monster_paws.Ingest.Pipeline.{
  derive_one, ingest_one, ingest_all, ingest_feed, finish_lifecycle, run_ingest,
}
use monster_paws.Ingest.Gate.{judge_disappearances, resolve_reconcile_at}
use monster_paws.Ingest.Memory.{persist, resolve, apply}
use monster_paws.Ingest.Reconcile.{newest_sighting, reconcile}
use monster_paws.Ingest.Corpus.{key, empty_corpus}
use monster_paws.Ingest.Report.{IngestRunRecord, Feed, IngestRunReport, to_run_record, empty_report}
use monster_paws.Ingest.MemoryStages.{memory_stages}
use monster_paws.Ingest.Pipeline.Simulates.{Chained, last_poll, with_payload}
use monster_paws.Ingest.Pg.{PgCorpus, is_recordable}
use monster_paws.Ingest.Pg.Stages.{pg_stages}
use monster_paws.Ingest.Pg.Runs.Tables.{Polled, Ready}
use monster_paws.Ingest.Pg.Runs.Writes.{Filled}
use monster_paws.Ingest.Pg.Runs.Refines.{Faithful, Recordable, run_ingest-view}
use monster_paws.Ingest.Tests.{
  IsPlain, by_weight, by_weight-Collates, flipped, flipped-IsRowOrder, groups, observed,
  first_claims, thousandths, groups-IsKnown,
}
use monster_paws.Ingest.Tests.Runs.{
  normalized, normalizers, clock, whole, normalizers-normalized, normalizers-Honest,
  empty-WellFormed,
}

abbrev hash_of : ℕ → Text
hash_of payload = if ltb payload 25 then codes "b" else codes "c"

abbrev polls : List (Observation ℕ)
polls =
    observed (codes "77") 20 (codes "b")
    ∷ observed (codes "77") 21 (codes "b")
    ∷ observed (codes "79") 30 (codes "c")
    ∷ []

abbrev feed : Feed ℕ
feed = record { source = groups; observations = polls; broken_by = none }

abbrev no_rows : PgCorpus ℕ ℕ
no_rows = record {
  raw_payloads = [];
  animals = [];
  animal_identities = [];
  animal_display = [];
  event_log = [];
  ingest_runs = [];
  next_raw_id = 1;
  next_animal_id = 1;
}

no_rows-Ready : Ready hash_of IsPlain 0 no_rows empty_corpus
unfolding empty_corpus
no_rows-Ready = record {
  same = refl;
  well_formed = empty-WellFormed;
  identity_rows = record { known = tt; unique = tt; plain = tt };
  rising = tt;
  rows_by = tt;
}

polls-Polled : Chained (Polled hash_of IsPlain) 0 polls
polls-Polled = (
  record { known = groups-IsKnown; plain = (_, refl); hashed = refl; timely = omega arith },
  (
    record { known = groups-IsKnown; plain = (_, refl); hashed = refl; timely = omega arith },
    (record { known = groups-IsKnown; plain = (_, refl); hashed = refl; timely = omega arith }, tt),
  ),
)

first_claims-Filled : Filled first_claims
first_claims-Filled = (
  λ c e. (_, ap (λ x. x.value) (sym (some-injective _ c e))),
  λ c e. (_, ap (λ x. x.value) (sym (some-injective _ c e))),
)

normalizers-Faithful : Faithful hash_of normalizers
normalizers-Faithful = record {
  honest = normalizers-Honest;
  filled = λ obs n x there e.
      let is : ok normalized ≡ ok x =
        ap (λ f. f obs) (sym (normalizers-normalized obs.source n there)) ∙ e in
      subst (λ (y : NormalizedAnimal). Filled y.claims) (ok-injective is) first_claims-Filled;
  content = λ obs p n there same.
      ap (λ f. f obs) (normalizers-normalized obs.source n there)
      ∙ ap (λ f. f (with_payload obs p)) (sym (normalizers-normalized obs.source n there));
}

abbrev finished : Result (IngestRunReport ℕ)
finished =
    (finish_lifecycle thousandths (memory_stages by_weight normalizers) groups clock whole
      (ingest_feed (memory_stages by_weight normalizers) feed empty_corpus)).0

row_of : Result (IngestRunReport ℕ) → IngestRunRecord ℕ
row_of (ok r) = to_run_record r clock.started_at clock.finished_at
row_of (err e) = to_run_record (empty_report groups) clock.started_at clock.finished_at

finished-Recordable : Recordable (row_of finished)
unfolding row_of memory_stages empty_corpus is_recordable keep_if find_last text_eq lookup insert
    verdict_on judge enter merge_field merge_fields merge_claims competing viable_first_observation
    derive_one ingest_one ingest_all ingest_feed finish_lifecycle judge_disappearances
    resolve_reconcile_at persist resolve apply newest_sighting reconcile key to_run_record
    empty_report field_eq resolve_claim tier_of is_scrape_source starts_with fixed_source_tier
    rank_of cross_tier
finished-Recordable = refl

polls-Recordable :
    (r : IngestRunReport ℕ)
    → (finish_lifecycle thousandths
        (memory_stages by_weight normalizers)
        groups
        clock
        whole
        (ingest_feed (memory_stages by_weight normalizers) feed empty_corpus)).0
      ≡ ok r
    → Recordable (to_run_record r clock.started_at clock.finished_at)
unfolding row_of
polls-Recordable r e = subst (λ z. Recordable (row_of z)) e finished-Recordable

run_view_example :
    let pg =
      run_ingest thousandths
        (pg_stages by_weight flipped flipped normalizers)
        feed
        clock
        whole
        no_rows in
    let memory =
      run_ingest thousandths (memory_stages by_weight normalizers) feed clock whole empty_corpus in
    (pg.0 ≡ memory.0) × Ready hash_of IsPlain (last_poll 0 polls) pg.1 memory.1
run_view_example =
    run_ingest-view hash_of IsPlain by_weight flipped flipped normalizers thousandths feed clock
      whole 0 no_rows empty_corpus normalizers-Faithful by_weight-Collates flipped-IsRowOrder
      flipped-IsRowOrder polls-Polled no_rows-Ready polls-Recordable
