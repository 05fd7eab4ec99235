-- ===== src/Ingest/Pipeline/Accounting.antt =====
-- The counts of a run's report, for any stages whatever.
use native.Mathlib.Nat.{add-zero}
use monster_paws.Prelude.{
  ℕ, suc, ◌+◌, ◌≤◌, Text, ◌≡◌, refl, inl, inr, Bool, true, false, List, [], ◌∷◌, ◌++◌, lookup,
  text_key, length, length-append, if◌then◌else◌, arith, Option-cases,
}
use monster_paws.Result.{Result-cases, Result, ok, err, Error}
use monster_paws.Ingest.Model.{Observation, StoredObservation, NormalizedAnimal, AnimalCandidate}
use monster_paws.Ingest.Report.{
  Applied, Stage, persisting, normalizing, resolving, writing, IngestFailure, IngestRunReport,
  Stages, Feed, empty_report,
}
use monster_paws.Ingest.Pipeline.{
  Loop, fail, wrote, resolve_and_write, normalize_and_on, derive_one, persisted_then, ingest_one,
  ingest_all, ingest_feed, replay, replay_all,
}

stage_eq : Stage → Stage → Bool
stage_eq persisting persisting = true
stage_eq normalizing normalizing = true
stage_eq resolving resolving = true
stage_eq writing writing = true
stage_eq _ _ = false

-- How many failures are of a stage.
pub failures_at : Stage → List IngestFailure → ℕ
failures_at k [] = 0
failures_at k (f ∷ fs) = if stage_eq f.stage k then suc (failures_at k fs) else failures_at k fs

failures_at-append :
    (k : Stage) (fs gs : List IngestFailure)
    → failures_at k (fs ++ gs) ≡ failures_at k fs + failures_at k gs
unfolding failures_at
failures_at-append k [] gs = omega arith
failures_at-append k (f ∷ fs) gs = ground (arith, failures_at-append k fs gs)

module _ {Num : Type 0} where
  -- What deriving one stored observation does to the counts.
  record Derived (before after : IngestRunReport Num) : Type 0 where
    observed : after.observed ≡ before.observed
    persisted : after.persisted ≡ before.persisted
    deduped : after.deduped ≡ before.deduped
    persist_failures :
        failures_at persisting after.failures ≡ failures_at persisting before.failures
    normalized :
        after.normalized + failures_at normalizing after.failures
        ≡ before.normalized + failures_at normalizing before.failures + 1
    failed : length after.failures ≤ length before.failures + 1

  module _ (id : Text) (e : Error) (r : IngestRunReport Num) where
    failures_at-fail :
        (k : Stage) (s : Stage)
        → failures_at k (fail id s e r).failures
          ≡ failures_at k r.failures + (if stage_eq s k then 1 else 0)
    unfolding fail failures_at
    failures_at-fail k s = ground (
      arith,
      failures_at-append k r.failures ((record { external_id = id; stage = s; error = e }) ∷ []),
    )

    length-fail : (s : Stage) → length (fail id s e r).failures ≡ length r.failures + 1
    unfolding fail
    length-fail s =
        length-append r.failures ((record { external_id = id; stage = s; error = e }) ∷ [])

    -- The three ways that a stored observation fails.
    fail_normalizing-Derived : Derived r (fail id normalizing e r)
    unfolding fail stage_eq
    fail_normalizing-Derived = record {
      observed = refl;
      persisted = refl;
      deduped = refl;
      persist_failures = omega (arith, failures_at-fail persisting normalizing);
      normalized = omega (arith, failures_at-fail normalizing normalizing);
      failed = omega (arith, length-fail normalizing);
    }

    fail_late-Derived :
        (s : Stage)
        → stage_eq s persisting ≡ false
        → stage_eq s normalizing ≡ false
        → Derived r (fail id s e (record r { normalized = r.normalized + 1 }))
    unfolding fail
    fail_late-Derived s n m = record {
      observed = refl;
      persisted = refl;
      deduped = refl;
      persist_failures =
          rw (failures_at-append persisting) (unfold failures_at in rw n (omega arith));
      normalized = rw (failures_at-append normalizing) (unfold failures_at in rw m (omega arith));
      failed = omega (arith, length-append r.failures);
    }

module _ {S P Num : Type 0} (stages : Stages S P Num) where
  wrote-Derived :
      (id : Text) (r : IngestRunReport Num) (w : Result Applied × S)
      → Derived r (wrote stages id (record r { normalized = r.normalized + 1 }) w).0
  unfolding wrote stage_eq
  wrote-Derived id r (ok applied, s) = ground arith
  wrote-Derived id r (err e, s) = fail_late-Derived id e r writing refl refl

  resolve_and_write-Derived :
      (c : AnimalCandidate) (r : IngestRunReport Num) (s : S)
      → Derived r (resolve_and_write stages c (record r { normalized = r.normalized + 1 }) s).0
  unfolding resolve_and_write stage_eq
  resolve_and_write-Derived c r s = elim (Result-cases (stages.resolve c s)) [
    | inl (id, e) ↦ rw (e, resolve_and_write) (wrote-Derived c.external_id r (stages.apply c id s))
    | inr (x, e) ↦
        rw (e, resolve_and_write) (fail_late-Derived c.external_id x r resolving refl refl)
  ]

  normalize_and_on-Derived :
      (obs : StoredObservation P) (n : StoredObservation P → Result NormalizedAnimal)
      (r : IngestRunReport Num) (s : S)
      → Derived r (normalize_and_on stages obs n r s).0
  unfolding normalize_and_on
  normalize_and_on-Derived obs n r s = elim (Result-cases (n obs)) [
    | inl (a, e) ↦ rw (e, normalize_and_on) (resolve_and_write-Derived _ r s)
    | inr (x, e) ↦ rw (e, normalize_and_on) (fail_normalizing-Derived obs.external_id x r)
  ]

  derive_one-Derived :
      (obs : StoredObservation P) (r : IngestRunReport Num) (s : S)
      → Derived r (derive_one stages obs r s).0
  unfolding derive_one
  derive_one-Derived obs r s = elim (Option-cases (lookup obs.source stages.normalizers)) [
    | inl e ↦ rw (e, derive_one) (fail_normalizing-Derived obs.external_id _ r)
    | inr (n, e) ↦ rw (e, derive_one) (normalize_and_on-Derived obs n r s)
  ]

-- The books of a run after `n` observations: each is counted once as new, as seen before or as a
-- failure to persist; each that was persisted is counted once as normalized or as a failure to
-- normalize; and no observation fails twice.
pub record Balanced {Num : Type 0} (n : ℕ) (r : IngestRunReport Num) : Type 0 where
  pub observed : r.observed ≡ n
  pub persisted : r.persisted + r.deduped + failures_at persisting r.failures ≡ n
  pub normalized : r.normalized + failures_at normalizing r.failures ≡ r.persisted + r.deduped
  pub failed : length r.failures ≤ n

module _ {S P Num : Type 0} (stages : Stages S P Num) where
  -- One more observation, which is persisted or fails to be.
  persisted_then-Balanced :
      (n : ℕ) (id : Text) (seen : List Text) (r : IngestRunReport Num)
      (p : Result (StoredObservation P × Bool) × S)
      → Balanced n r
      → Balanced
          (n + 1)
          (persisted_then stages id seen (record r { observed = r.observed + 1 }) p).report
  unfolding persisted_then
  persisted_then-Balanced n id seen r (err e, s) b = record {
    observed = unfold fail in omega arith;
    persisted =
        unfold fail stage_eq in omega (arith, failures_at-fail id e r persisting persisting);
    normalized =
        unfold fail stage_eq in omega (arith, failures_at-fail id e r normalizing persisting);
    failed = unfold fail in omega (arith, length-fail id e r persisting);
  }
  persisted_then-Balanced n id seen r (ok (stored, true), s) b =
      let d =
        derive_one-Derived stages stored
          (record r { observed = r.observed + 1; persisted = r.persisted + 1 }) s in
      record {
        observed = omega (arith, d.observed);
        persisted = omega (arith, d.persisted, d.deduped, d.persist_failures);
        normalized = omega (arith, d.normalized, d.persisted, d.deduped);
        failed = omega (arith, d.failed);
      }
  persisted_then-Balanced n id seen r (ok (stored, false), s) b =
      let d =
        derive_one-Derived stages stored
          (record r { observed = r.observed + 1; deduped = r.deduped + 1 }) s in
      record {
        observed = omega (arith, d.observed);
        persisted = omega (arith, d.persisted, d.deduped, d.persist_failures);
        normalized = omega (arith, d.normalized, d.persisted, d.deduped);
        failed = omega (arith, d.failed);
      }

  ingest_all-Balanced :
      (n : ℕ) (obs : List (Observation P)) (l : Loop S Num)
      → Balanced n l.report
      → Balanced (n + length obs) (ingest_all stages obs l).report
  unfolding ingest_all ingest_one
  ingest_all-Balanced n [] l b = rw add-zero b
  ingest_all-Balanced n (o ∷ rest) l b =
      let next : Balanced (n + 1) (ingest_one stages o l).report =
        persisted_then-Balanced n o.external_id _ l.report (stages.persist o l.state) b in
      let done = ingest_all-Balanced (n + 1) rest (ingest_one stages o l) next in
      let e : n + length (o ∷ rest) ≡ n + 1 + length rest = omega arith in rw e done

  -- Whatever the stages do, throwing included, the report of a feed has balanced books: every
  -- observation that the feed yields is counted once as new, as a duplicate or as failing to
  -- persist, every persisted one once as normalized or as failing to be, and none fails twice.
  pub ingest_feed-Balanced :
      (feed : Feed P) (s : S)
      → Balanced (length feed.observations) (ingest_feed stages feed s).report
  unfolding ingest_feed empty_report failures_at
  ingest_feed-Balanced feed s =
      let e : length feed.observations ≡ 0 + length feed.observations = omega arith in
      rw e (
        ingest_all-Balanced 0 feed.observations _
          (record { observed = refl; persisted = refl; normalized = refl; failed = omega arith }))

  record Replayed (n : ℕ) (before after : IngestRunReport Num) : Type 0 where
    observed : after.observed ≡ before.observed
    persisted : after.persisted ≡ before.persisted
    deduped : after.deduped ≡ before.deduped
    persist_failures :
        failures_at persisting after.failures ≡ failures_at persisting before.failures
    normalized :
        after.normalized + failures_at normalizing after.failures
        ≡ before.normalized + failures_at normalizing before.failures + n
    failed : length after.failures ≤ length before.failures + n

  replay_all-Replayed :
      (stored : List (StoredObservation P)) (r : IngestRunReport Num) (s : S)
      → Replayed (length stored) r (replay_all stages stored r s).0
  unfolding replay_all
  replay_all-Replayed [] r s = omega arith
  replay_all-Replayed (obs ∷ rest) r s =
      let d = derive_one-Derived stages obs r s in
      let (r', s') = derive_one stages obs r s in
      let h = replay_all-Replayed rest r' s' in
      record {
        observed = omega (arith, d.observed, h.observed);
        persisted = omega (arith, d.persisted, h.persisted);
        deduped = omega (arith, d.deduped, h.deduped);
        persist_failures = omega (arith, d.persist_failures, h.persist_failures);
        normalized = omega (arith, d.normalized, h.normalized);
        failed = omega (arith, d.failed, h.failed);
      }

  -- The books of a replay balance too, with every stored observation counted as a duplicate.
  pub replay-Balanced :
      (source : Text) (stored : List (StoredObservation P)) (s : S)
      → Balanced (length stored) (replay stages source stored s).0
  unfolding replay empty_report failures_at
  replay-Balanced source stored s =
      let h =
        replay_all-Replayed stored
          (record (empty_report source) { observed = length stored; deduped = length stored }) s in
      record {
        observed = h.observed;
        persisted = omega (arith, h.persisted, h.deduped, h.persist_failures);
        normalized = omega (arith, h.normalized, h.persisted, h.deduped);
        failed = omega (arith, h.failed);
      }
