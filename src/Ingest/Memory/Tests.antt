-- ===== src/Ingest/Memory/Tests.antt =====
-- Runs of the raw store and the writer of core/ingest/memory.ts.
use monster_paws.Prelude.{
  ℕ, codes, ◌≡◌, refl, some, [], ◌∷◌, ◌++◌, map, lookup, text_key, nat_key, true, Bool,
  if◌then◌else◌, arith, ◌<◌,
}
use monster_paws.Result.{ok, err, no_such_animal}
use monster_paws.Ingest.Merge.{viable_first_observation, is_claimed}
use monster_paws.Ingest.Model.{StoredObservation}
use monster_paws.Ingest.Report.{Applied}
use monster_paws.Ingest.Corpus.{Corpus, empty_corpus}
use monster_paws.Ingest.Memory.{persist, apply, resolve}
use monster_paws.Ingest.Memory.Raw.{persist-append_only, Rising, freeze}
use monster_paws.Ingest.Memory.Replay.{apply-replay}
use monster_paws.Ingest.Memory.WellFormed.{WellFormed, apply-total}
use monster_paws.Ingest.Tests.{groups, observed, candidate, corpus, first_claims-AllKnown}

abbrev start : Corpus ℕ ℕ
start = empty_corpus

one_below_two : 1 < 2
one_below_two = omega arith

append_only_example :
    (stored : StoredObservation ℕ) × (inserted : Bool) × ((persist
        (observed (codes "77") 20 (codes "b"))
        corpus).0
      ≡ ok (stored, inserted))
    × (map freeze (persist (observed (codes "77") 20 (codes "b")) corpus).1.raw_rows ≡ (
        if inserted
        then map freeze corpus.raw_rows ++ (2, groups, codes "77", 20, 20, codes "b") ∷ []
        else map freeze corpus.raw_rows))
    × Rising
        (persist (observed (codes "77") 20 (codes "b")) corpus).1.next_raw_id
        (map freeze (persist (observed (codes "77") 20 (codes "b")) corpus).1.raw_rows)
append_only_example =
    persist-append_only (observed (codes "77") 20 (codes "b")) corpus (one_below_two, tt, tt)

missing : apply candidate (some 9) corpus ≡ (err no_such_animal, corpus)
unfolding apply lookup
missing = refl

start-WellFormed : WellFormed start
unfolding lookup empty_corpus
start-WellFormed = record {
  keyed = λ k id e. cc;
  linked = λ k id e. cc;
  below = λ n held e. cc;
  known = λ n held e. cc;
}

candidate_viable : viable_first_observation candidate.claims ≡ true
unfolding viable_first_observation is_claimed
candidate_viable = refl

apply_total_example :
    (done : Applied) × (c' : Corpus ℕ ℕ) × (apply candidate (resolve candidate start) start
      ≡ (ok done, c'))
apply_total_example =
    apply-total candidate start start-WellFormed first_claims-AllKnown (λ new. candidate_viable)

started :
    (done : Applied) × (c' : Corpus ℕ ℕ) × (apply candidate (resolve candidate start) start
      ≡ (ok done, c'))
started =
    apply-total candidate start start-WellFormed first_claims-AllKnown (λ new. candidate_viable)

apply_replay_example :
    (again : Applied) × (c'' : Corpus ℕ ℕ) × (apply candidate
        (resolve candidate started.1)
        started.1
      ≡ (ok again, c''))
    × (again.animal_id ≡ started.0.animal_id)
    × (again.events ≡ [])
    × (c''.events ≡ started.1.events)
    × (lookup started.0.animal_id c''.animals ≡ lookup started.0.animal_id started.1.animals)
apply_replay_example =
    apply-replay candidate start started.1 started.0 start-WellFormed.known first_claims-AllKnown
      started.2
