-- ===== src/Ingest/Pipeline/Simulates.antt =====
-- Two implementations of the stages that answer alike, step by step, answer alike in a whole run.
use monster_paws.Prelude.{
  ℕ, ◌+◌, ◌++◌, length, if◌then◌else◌, Text, text_key, lookup, ◌≡◌, refl, sym, ap, ◌∙◌, subst, inl,
  inr, Bool, Option, some, List, [], ◌∷◌, Map, Option-cases, Bool-cases,
}
use monster_paws.Result.{Result, ok, err, Result-cases, ok-injective, err-injective}
use monster_paws.Ingest.Gate.{
  Floats, judge_disappearances, DisappearanceTally, DisappearanceVerdict,
}
use monster_paws.Ingest.Model.{Observation, StoredObservation, NormalizedAnimal}
use monster_paws.Ingest.Report.{
  writing, Applied, Reconciled, IngestRunReport, IngestRunRecord, Stages, Feed, RunClock,
  RunOptions, to_run_record,
}
use monster_paws.Ingest.Pipeline.{
  Loop, fail, wrote, resolve_and_write, normalize_and_on, derive_one, persisted_then, ingest_one,
  ingest_all, ingest_feed, candidate_of, run_ingest, finish_lifecycle, reconcile_run, record_run,
  is_empty, limit_of, reconciled,
}

-- The same answer, and states that stand for each other.
abbrev pub SameAnswer : {A S T : Type 0} → (S → T → Type 0) → A × S → A × T → Type 0
SameAnswer R p q = (p.0 ≡ q.0) × R p.1 q.1

abbrev pub SameLoop : {S T Num : Type 0} → (S → T → Type 0) → Loop S Num → Loop T Num → Type 0
SameLoop R l k = (l.report ≡ k.report) × (l.seen ≡ k.seen) × R l.state k.state

-- The feed in its order, each observation as `Next` allows after the one before, and the instant
-- of the last one.
abbrev pub Chained : {P : Type 0} → (ℕ → Observation P → Type 0) → ℕ → List (Observation P) → Type 0
Chained Next now [] = Unit
Chained Next now (obs ∷ rest) = Next now obs × Chained Next obs.fetched_at rest

abbrev pub last_poll : {P : Type 0} → ℕ → List (Observation P) → ℕ
last_poll now [] = now
last_poll now (obs ∷ rest) = last_poll obs.fetched_at rest

-- A stored observation with another payload.
abbrev pub with_payload : {P : Type 0} → StoredObservation P → P → StoredObservation P
with_payload stored p = record stored { observation = record stored.observation { payload = p } }

-- `Next` says how an observation may follow an instant, `R` which states stand for each other at
-- it, and `M` which do once an observation was stored, with what payload in the second of them.
module _ {S T P Num : Type 0} (a : Stages S P Num) (b : Stages T P Num)
    (normalizers : Map Text (StoredObservation P → Result NormalizedAnimal))
    (a_normalizes : a.normalizers ≡ normalizers) (b_normalizes : b.normalizers ≡ normalizers)
    (Next : ℕ → Observation P → Type 0) (R : ℕ → S → T → Type 0)
    (M : StoredObservation P → P → ℕ → S → T → Type 0)
    (persists : (now : ℕ) (obs : Observation P) (s : S) (t : T)
      → Next now obs
      → R now s t
      → (stored : StoredObservation P) × (kept : P) × (inserted : Bool) × ((a.persist obs s).0
          ≡ ok (stored, inserted))
        × ((b.persist obs t).0 ≡ ok (with_payload stored kept, inserted))
        × M stored kept obs.fetched_at (a.persist obs s).1 (b.persist obs t).1)
    (forgets : (stored : StoredObservation P) (kept : P) (now : ℕ) (s : S) (t : T)
      → M stored kept now s t
      → R now s t)
    (normalizes : (stored : StoredObservation P) (kept : P) (now : ℕ) (s : S) (t : T)
        (n : StoredObservation P → Result NormalizedAnimal)
      → M stored kept now s t
      → lookup stored.source normalizers ≡ some n
      → n stored ≡ n (with_payload stored kept))
    (applies : (stored : StoredObservation P) (kept : P) (now : ℕ) (s : S) (t : T)
        (n : StoredObservation P → Result NormalizedAnimal) (x : NormalizedAnimal)
      → M stored kept now s t
      → lookup stored.source normalizers ≡ some n
      → n stored ≡ ok x
      → (a.resolve (candidate_of a stored x) s ≡ b.resolve (candidate_of a stored x) t)
        × ((animal : Option ℕ)
            → a.resolve (candidate_of a stored x) s ≡ ok animal
            → SameAnswer
                (R now)
                (a.apply (candidate_of a stored x) animal s)
                (b.apply (candidate_of a stored x) animal t))) where
  wrote-same :
      (now : ℕ) (id : Text) (r : IngestRunReport Num) (p : Result Applied × S)
      (q : Result Applied × T)
      → SameAnswer (R now) p q
      → SameAnswer (R now) (wrote a id r p) (wrote b id r q)
  unfolding wrote fail
  wrote-same now id r (ok x, s) (ok y, t) (e, same) = (
    ap
        (λ z. record r {
          conflicted = r.conflicted + length z.conflicted;
          events = r.events ++ z.events;
        })
        (ok-injective e),
    same,
  )
  wrote-same now id r (err x, s) (err y, t) (e, same) =
      (ap (λ z. fail id writing z r) (err-injective e), same)
  wrote-same now id r (ok x, s) (err y, t) (e, same) = absurd (cc)
  wrote-same now id r (err x, s) (ok y, t) (e, same) = absurd (cc)

  derive_one-same :
      (stored : StoredObservation P) (kept : P) (now : ℕ) (r : IngestRunReport Num) (s : S) (t : T)
      → M stored kept now s t
      → SameAnswer (R now) (derive_one a stored r s) (derive_one b (with_payload stored kept) r t)
  unfolding derive_one normalize_and_on resolve_and_write candidate_of fail
  derive_one-same stored kept now r s t m =
      let rest = forgets stored kept now s t m in
      elim (Option-cases (lookup stored.source normalizers)) [
        | inl e ↦
            let ea = ap (lookup stored.source) a_normalizes ∙ e in
            let eb = ap (lookup stored.source) b_normalizes ∙ e in
            rw (ea, derive_one, eb) (refl, rest)
        | inr (n, e) ↦
            let ea = ap (lookup stored.source) a_normalizes ∙ e in
            let eb = ap (lookup stored.source) b_normalizes ∙ e in
            elim (Result-cases (n stored)) [
              | inr (x, f) ↦
                  let fb = sym (normalizes stored kept now s t n m e) ∙ f in
                  rw (ea, derive_one, eb, normalize_and_on, f, fb) (refl, rest)
              | inl (x, f) ↦
                  let fb = sym (normalizes stored kept now s t n m e) ∙ f in
                  let (same, apply) = applies stored kept now s t n x m e f in
                  elim (Result-cases (b.resolve (candidate_of a stored x) t)) [
                    | inr (y, g) ↦
                        let ga = same ∙ g in
                        rw (ea, derive_one, eb, normalize_and_on, f, fb, ga, resolve_and_write, g)
                          (refl, rest)
                    | inl (animal, g) ↦
                        let ga = same ∙ g in
                        rw (ea, derive_one, eb, normalize_and_on, f, fb, ga, resolve_and_write, g)
                          (wrote-same now stored.external_id _ _ _ (apply animal ga))
                  ]
            ]
      ]

  ingest_one-same :
      (now : ℕ) (obs : Observation P) (l : Loop S Num) (k : Loop T Num)
      → Next now obs
      → SameLoop (R now) l k
      → SameLoop (R obs.fetched_at) (ingest_one a obs l) (ingest_one b obs k)
  unfolding ingest_one persisted_then
  ingest_one-same now obs l k next (report, seen, same) =
      let (stored, kept, inserted, ea, eb, m) = persists now obs l.state k.state next same in
      let (done, after) =
        derive_one-same stored kept obs.fetched_at
          (if inserted
            then record k.report {
              observed = k.report.observed + 1;
              persisted = k.report.persisted + 1;
            }
            else record k.report {
              observed = k.report.observed + 1;
              deduped = k.report.deduped + 1;
            })
          (a.persist obs l.state).1 (b.persist obs k.state).1 m in
      rw (ea, ingest_one, persisted_then, eb, report, seen) (done, refl, after)

  ingest_all-same :
      (now : ℕ) (obs : List (Observation P)) (l : Loop S Num) (k : Loop T Num)
      → Chained Next now obs
      → SameLoop (R now) l k
      → SameLoop (R (last_poll now obs)) (ingest_all a obs l) (ingest_all b obs k)
  unfolding ingest_all
  ingest_all-same now [] l k chained same = same
  ingest_all-same now (obs ∷ rest) l k chained same =
      ingest_all-same obs.fetched_at rest (ingest_one a obs l) (ingest_one b obs k) chained.1
        (ingest_one-same now obs l k chained.0 same)

  pub ingest_feed-same :
      (now : ℕ) (feed : Feed P) (s : S) (t : T)
      → Chained Next now feed.observations
      → R now s t
      → SameLoop (R (last_poll now feed.observations)) (ingest_feed a feed s) (ingest_feed b feed t)
  unfolding ingest_feed
  ingest_feed-same now feed s t chained same =
      ingest_all-same now feed.observations _ _ chained (refl, refl, same)

module _ {S T P Num : Type 0} (a : Stages S P Num) (b : Stages T P Num) (R : S → T → Type 0)
    (reconciles : (source : Text) (seen : List Text) (at : ℕ)
        (gate : DisappearanceTally → DisappearanceVerdict Num) (s : S) (t : T)
      → R s t
      → SameAnswer R (a.reconcile source seen at gate s) (b.reconcile source seen at gate t))
    (finishes : (source : Text) (s : S) (t : T)
      → R s t
      → a.last_complete_at source s ≡ b.last_complete_at source t)
    (Fits : IngestRunRecord Num → Type 0)
    (records : (run : IngestRunRecord Num) (s : S) (t : T)
      → Fits run
      → R s t
      → SameAnswer R (a.record_run run s) (b.record_run run t))
    (floats : Floats Num) where
  abbrev after_reconcile :
      IngestRunReport Num → Result (Reconciled Num) → Result (IngestRunReport Num)
  after_reconcile report r = elim r [ err e ↦ err e | ok done ↦ ok (reconciled done report) ]

  finish_alike :
      (source : Text) (clock : RunClock) (options : RunOptions Num) (report : IngestRunReport Num)
      (seen : List Text) (s : S) (t : T)
      → R s t
      → SameAnswer R
          (finish_lifecycle floats a source clock options
            (record { report = report; seen = seen; state = s }))
          (finish_lifecycle floats b source clock options
            (record { report = report; seen = seen; state = t }))
  unfolding finish_lifecycle reconcile_run
  finish_alike source clock options report seen s t same = elim (Bool-cases options.complete) [
    | inr partial ↦ rw (partial, finish_lifecycle) (refl, same)
    | inl complete ↦ elim (Bool-cases (is_empty seen)) [
      | inl empty ↦ rw (complete, finish_lifecycle, empty) (refl, same)
      | inr some_seen ↦ elim (Result-cases (b.last_complete_at source t)) [
        | inr (x, e) ↦
            let ea = finishes source s t same ∙ e in
            rw (complete, finish_lifecycle, some_seen, reconcile_run, ea, e) (refl, same)
        | inl (last, e) ↦
            let ea = finishes source s t same ∙ e in
            let gate : DisappearanceTally → DisappearanceVerdict Num = λ tally.
              judge_disappearances floats tally last
                (limit_of floats options.max_daily_disappearance_rate) in
            let (answer, after) = reconciles source seen clock.reconcile_at gate s t same in
            rw (complete, finish_lifecycle, some_seen, reconcile_run, ea, e)
              (ap (after_reconcile report) answer, after)
      ]
    ]
  ]

  finish_lifecycle-same :
      (source : Text) (clock : RunClock) (options : RunOptions Num) (l : Loop S Num)
      (k : Loop T Num)
      → SameLoop R l k
      → SameAnswer R
          (finish_lifecycle floats a source clock options l)
          (finish_lifecycle floats b source clock options k)
  finish_lifecycle-same source clock options l k (report, seen, same) =
      let here : Loop T Num = record { report = l.report; seen = l.seen; state = k.state } in
      let one : here ≡ k = λ i. record { report = report i; seen = seen i; state = k.state } in
      subst
        (λ z.
          SameAnswer R (finish_lifecycle floats a source clock options l)
            (finish_lifecycle floats b source clock options z))
        one (finish_alike source clock options l.report l.seen l.state k.state same)

  record_run-same :
      (clock : RunClock) (p : Result (IngestRunReport Num) × S)
      (q : Result (IngestRunReport Num) × T)
      → ((r : IngestRunReport Num)
          → q.0 ≡ ok r
          → Fits (to_run_record r clock.started_at clock.finished_at))
      → SameAnswer R p q
      → SameAnswer R (record_run floats a clock p) (record_run floats b clock q)
  unfolding record_run
  record_run-same clock (err x, s) (err y, t) fits (e, same) = (e, same)
  record_run-same clock (ok x, s) (err y, t) fits (e, same) = absurd (cc)
  record_run-same clock (err x, s) (ok y, t) fits (e, same) = absurd (cc)
  record_run-same clock (ok x, s) (ok y, t) fits (e, same) =
      let one = ok-injective e in
      let row : IngestRunReport Num → IngestRunRecord Num =
        λ z. to_run_record z clock.started_at clock.finished_at in
      let (answer, after) = records (row y) s t (fits y refl) same in
      (
        ap
              (λ z. elim (a.record_run (row z) s).0 as (λ _. Result (IngestRunReport Num)) [
                | err e ↦ err e
                | ok _ ↦ ok z
              ])
              one
            ∙ ap
                (λ r. elim r as (λ _. Result (IngestRunReport Num)) [ err e ↦ err e | ok _ ↦ ok y ])
                answer,
        subst (λ z. R (a.record_run (row z) s).1 (b.record_run (row y) t).1) (sym one) after,
      )

  pub run_ingest-same :
      (feed : Feed P) (clock : RunClock) (options : RunOptions Num) (s : S) (t : T)
      → ((r : IngestRunReport Num)
          → (finish_lifecycle floats b feed.source clock options (ingest_feed b feed t)).0 ≡ ok r
          → Fits (to_run_record r clock.started_at clock.finished_at))
      → SameLoop R (ingest_feed a feed s) (ingest_feed b feed t)
      → SameAnswer R
          (run_ingest floats a feed clock options s)
          (run_ingest floats b feed clock options t)
  unfolding run_ingest
  run_ingest-same feed clock options s t fits same = elim (Option-cases feed.broken_by) [
    | inr (x, e) ↦ rw (e, run_ingest) (refl, same.2)
    | inl e ↦
        rw (e, run_ingest)
          (record_run-same clock _ _ fits
            (finish_lifecycle-same feed.source clock options _ _ same))
  ]
