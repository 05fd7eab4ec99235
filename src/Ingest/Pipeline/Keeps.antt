-- ===== src/Ingest/Pipeline/Keeps.antt =====
-- Invariants of the state through a run: what the stages keep, the loops keep.
use monster_paws.Prelude.{
  Text, text_key, lookup, ◌≡◌, ◌≢◌, refl, ◌⊎◌, inl, inr, Bool, true, false, Option, some, List, [],
  ◌∷◌, ℕ, Option-cases, Bool-cases,
}
use monster_paws.Result.{Result, ok, err, Error, Result-cases}
use monster_paws.Ingest.Gate.{
  Floats, DisappearanceTally, DisappearanceVerdict, judge_disappearances,
}
use monster_paws.Ingest.Model.{Observation, StoredObservation, NormalizedAnimal, AnimalCandidate}
use monster_paws.Ingest.Report.{
  Applied, IngestRunReport, IngestRunRecord, Stages, SkipReason, declared_partial, observed_nothing,
  Feed, RunClock, RunOptions,
}
use monster_paws.Ingest.Pipeline.{
  Loop, wrote, resolve_and_write, normalize_and_on, derive_one, persisted_then, ingest_one,
  ingest_all, ingest_feed, candidate_of, run_ingest, finish_lifecycle, reconcile_run, record_run,
  limit_of, is_empty, replay, replay_all,
}

seen-cases :
    (seen : List Text)
    → ((seen ≡ []) × (is_empty seen ≡ true)) ⊎ ((seen ≢ []) × (is_empty seen ≡ false))
seen-cases [] = inl (refl, refl)
seen-cases (x ∷ xs) = inr (λ e. cc, refl)

-- What comes after the feed: a run that is partial or observed nothing skips stage 5 and leaves the
-- state alone; any other asks for the last complete run, which may throw, and reconciles.
pub finish_cases :
    {S P Num : Type 0} (floats : Floats Num) (stages : Stages S P Num) (source : Text)
    (clock : RunClock) (options : RunOptions Num) (l : Loop S Num)
    → let finish = finish_lifecycle floats stages source clock options l in
      ((reason : SkipReason Num) × (finish
          ≡ (ok (record l.report { lifecycle_skipped = some reason }), l.state))
        × ((options.complete ≡ false) ⊎ (l.seen ≡ [])))
      ⊎ ((options.complete ≡ true)
          × (l.seen ≢ [])
          × (((x : Error) × (finish ≡ (err x, l.state)))
              ⊎ ((last : Option ℕ) × (stages.last_complete_at source l.state ≡ ok last)
                  × (finish.1
                      ≡ (stages.reconcile source l.seen clock.reconcile_at
                          (λ tally.
                            judge_disappearances floats tally last
                              (limit_of floats options.max_daily_disappearance_rate))
                          l.state).1))))
unfolding finish_lifecycle reconcile_run
finish_cases floats stages source clock options l = elim (Bool-cases options.complete) [
  | inr partial ↦ inl (declared_partial, rw (partial, finish_lifecycle), inl partial)
  | inl complete ↦ elim (seen-cases l.seen) [
    | inl (empty, e) ↦ inl (observed_nothing, rw (complete, finish_lifecycle, e), inr empty)
    | inr (some_seen, e) ↦ inr (
      complete,
      some_seen,
      elim (Result-cases (stages.last_complete_at source l.state)) [
        | inr (x, f) ↦ inl (x, rw (complete, finish_lifecycle, e, reconcile_run, f))
        | inl (last, f) ↦ inr (last, f, rw (complete, finish_lifecycle, e, reconcile_run, f))
      ],
    )
  ]
]

module _ {S P Num : Type 0} (stages : Stages S P Num) (I : S → Type 0)
    (Good : AnimalCandidate → Type 0)
    (persist_keeps : (obs : Observation P) (s : S) → I s → I (stages.persist obs s).1)
    (normalizer_good : (obs : StoredObservation P)
        (n : StoredObservation P → Result NormalizedAnimal) (a : NormalizedAnimal)
      → lookup obs.source stages.normalizers ≡ some n
      → n obs ≡ ok a
      → Good (candidate_of stages obs a))
    (apply_keeps : (c : AnimalCandidate) (animal : Option ℕ) (s : S)
      → Good c
      → stages.resolve c s ≡ ok animal
      → I s
      → I (stages.apply c animal s).1) where
  wrote-state :
      (id : Text) (r : IngestRunReport Num) (w : Result Applied × S) → (wrote stages id r w).1 ≡ w.1
  unfolding wrote
  wrote-state id r (ok a, s) = refl
  wrote-state id r (err e, s) = refl

  resolve_and_write-keeps :
      (c : AnimalCandidate) (r : IngestRunReport Num) (s : S)
      → Good c
      → I s
      → I (resolve_and_write stages c r s).1
  unfolding resolve_and_write
  resolve_and_write-keeps c r s good i = elim (Result-cases (stages.resolve c s)) [
    | inl (animal, e) ↦
        rw (e, resolve_and_write, wrote-state c.external_id r (stages.apply c animal s))
          (apply_keeps c animal s good e i)
    | inr (x, e) ↦ rw (e, resolve_and_write) i
  ]

  derive_one-keeps :
      (obs : StoredObservation P) (r : IngestRunReport Num) (s : S)
      → I s
      → I (derive_one stages obs r s).1
  unfolding derive_one normalize_and_on
  derive_one-keeps obs r s i = elim (Option-cases (lookup obs.source stages.normalizers)) [
    | inl e ↦ rw (e, derive_one) i
    | inr (n, e) ↦ elim (Result-cases (n obs)) [
      | inl (a, f) ↦
          rw (e, derive_one, normalize_and_on, f)
            (resolve_and_write-keeps _ _ s (normalizer_good obs n a e f) i)
      | inr (x, f) ↦ rw (e, derive_one, normalize_and_on, f) i
    ]
  ]

  persisted_then-keeps :
      (id : Text) (seen : List Text) (r : IngestRunReport Num)
      (p : Result (StoredObservation P × Bool) × S)
      → I p.1
      → I (persisted_then stages id seen r p).state
  unfolding persisted_then
  persisted_then-keeps id seen r (err e, s) i = i
  persisted_then-keeps id seen r (ok (stored, inserted), s) i = derive_one-keeps stored _ s i

  ingest_all-keeps :
      (obs : List (Observation P)) (l : Loop S Num) → I l.state → I (ingest_all stages obs l).state
  unfolding ingest_all ingest_one
  ingest_all-keeps [] l i = i
  ingest_all-keeps (o ∷ rest) l i = ingest_all-keeps rest (ingest_one stages o l) (
      persisted_then-keeps o.external_id _ _ (stages.persist o l.state) (persist_keeps o l.state i))

  pub ingest_feed-keeps : (feed : Feed P) (s : S) → I s → I (ingest_feed stages feed s).state
  unfolding ingest_feed
  ingest_feed-keeps feed s i = ingest_all-keeps feed.observations _ i

  replay_all-keeps :
      (stored : List (StoredObservation P)) (r : IngestRunReport Num) (s : S)
      → I s
      → I (replay_all stages stored r s).1
  unfolding replay_all
  replay_all-keeps [] r s i = i
  replay_all-keeps (o ∷ rest) r s i = replay_all-keeps rest _ _ (derive_one-keeps o r s i)

  pub replay-keeps :
      (source : Text) (stored : List (StoredObservation P)) (s : S)
      → I s
      → I (replay stages source stored s).1
  unfolding replay
  replay-keeps source stored s i = replay_all-keeps stored _ s i

  module _
      (reconcile_keeps : (source : Text) (seen : List Text) (at : ℕ)
          (gate : DisappearanceTally → DisappearanceVerdict Num) (s : S)
        → I s
        → I (stages.reconcile source seen at gate s).1)
      (record_keeps : (r : IngestRunRecord Num) (s : S) → I s → I (stages.record_run r s).1)
      (floats : Floats Num) where
    finish_lifecycle-keeps :
        (source : Text) (clock : RunClock) (options : RunOptions Num) (l : Loop S Num)
        → I l.state
        → I (finish_lifecycle floats stages source clock options l).1
    unfolding finish_lifecycle reconcile_run
    finish_lifecycle-keeps source clock options l i =
        elim (finish_cases floats stages source clock options l) [
          | inl (reason, e, _) ↦ rw e i
          | inr (_, _, (inl (x, e))) ↦ rw e i
          | inr (_, _, (inr (last, e, f))) ↦
              rw f (reconcile_keeps source l.seen clock.reconcile_at _ l.state i)
        ]

    record_run-keeps :
        (clock : RunClock) (r : Result (IngestRunReport Num) × S)
        → I r.1
        → I (record_run floats stages clock r).1
    unfolding record_run
    record_run-keeps clock (err e, s) i = i
    record_run-keeps clock (ok report, s) i = record_keeps _ s i

    -- The whole run, also one that its feed breaks off.
    pub run_ingest-keeps :
        (feed : Feed P) (clock : RunClock) (options : RunOptions Num) (s : S)
        → I s
        → I (run_ingest floats stages feed clock options s).1
    unfolding run_ingest
    run_ingest-keeps feed clock options s i = elim (Option-cases feed.broken_by) [
      | inr (e, broken) ↦ rw (broken, run_ingest) (ingest_feed-keeps feed s i)
      | inl whole ↦
          rw (whole, run_ingest)
            (record_run-keeps clock _
              (finish_lifecycle-keeps feed.source clock options _ (ingest_feed-keeps feed s i)))
    ]

  -- A run that is partial, broken off or empty keeps what stages 1 to 4 keep: it skips stage 5.
  module _ (record_keeps : (r : IngestRunRecord Num) (s : S) → I s → I (stages.record_run r s).1)
      (floats : Floats Num) where
    recorded_blind-keeps :
        (source : Text) (clock : RunClock) (options : RunOptions Num) (l : Loop S Num)
        → (options.complete ≡ false) ⊎ (l.seen ≡ [])
        → I l.state
        → I
            (record_run floats stages clock
              (finish_lifecycle floats stages source clock options l)).1
    unfolding record_run
    recorded_blind-keeps source clock options l blind i =
        elim (finish_cases floats stages source clock options l) [
          | inl (reason, e, _) ↦ rw (e, record_run) (record_keeps _ l.state i)
          | inr (complete, seen, _) ↦ elim blind [
            | inl partial ↦ absurd (cc)
            | inr empty ↦ absurd (seen empty)
          ]
        ]

    pub run_ingest_blind-keeps :
        (feed : Feed P) (clock : RunClock) (options : RunOptions Num) (s : S)
        → (options.complete ≡ false)
          ⊎ (((e : Error) × (feed.broken_by ≡ some e)) ⊎ (feed.observations ≡ []))
        → I s
        → I (run_ingest floats stages feed clock options s).1
    unfolding run_ingest ingest_feed ingest_all
    run_ingest_blind-keeps feed clock options s blind i = elim (Option-cases feed.broken_by) [
      | inr (e, broken) ↦ rw (broken, run_ingest) (ingest_feed-keeps feed s i)
      | inl whole ↦
          rw (whole, run_ingest)
            (recorded_blind-keeps feed.source clock options _
              (elim blind [
                | inl partial ↦ inl partial
                | inr (inl (e, broken)) ↦ absurd (cc)
                | inr (inr empty) ↦ inr (rw (empty, ingest_all))
              ])
              (ingest_feed-keeps feed s i))
    ]
