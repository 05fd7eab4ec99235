-- ===== src/Ingest/Memory/Replay.antt =====
-- Replaying an observation right after it was applied emits nothing.
use mathlib.Core.List.{append-nil}
use monster_paws.Prelude.{
  ℕ, Text, text_key, nat_key, Key, lookup-insert, ◌≡◌, refl, sym, ap, ◌∙◌, ◌⊎◌, inl, inr, Bool,
  true, false, Option, none, some, [], Map, lookup, insert, arith, Option-cases,
}
use monster_paws.Result.{Result, ok, err}
use monster_paws.Ingest.Fields.{AnimalClaims}
use monster_paws.Ingest.Merge.{MergeOutcome, merge_claims}
use monster_paws.Ingest.Merge.Outcome.{AllKnown}
use monster_paws.Ingest.Merge.Laws.{merge_claims-replay}
use monster_paws.Ingest.Model.{AnimalCandidate}
use monster_paws.Ingest.Report.{Applied}
use monster_paws.Ingest.Corpus.{Corpus, MemoryIdentity, key, no_claims}
use monster_paws.Ingest.Memory.{
  commit, apply, resolve, animal_of, stamp_identity, new_identity, writer_events, has_changes,
}
use monster_paws.Ingest.Memory.Writer.{
  Applies, starts, updates, fails, apply_cases, apply-updates, count_animal,
}

-- A map read at the key that was written.
pub lookup-insert_self :
    {K V : Type 0} ⦃e : Key K⦄ (k : K) (v : V) (m : Map K V) → lookup k (insert k v m) ≡ some v
lookup-insert_self ⦃e⦄ k v m = lookup-insert k k v m ∙ rw ((e.same_iff k k).1 refl)

abbrev id_of : Result Applied → ℕ
id_of (ok a) = a.animal_id
id_of (err e) = 0

stamp_identity-animal :
    (stamp : Option (Option ℕ)) (k : Text) (ids : Map Text MemoryIdentity)
    → animal_of (lookup k (stamp_identity stamp k ids)) ≡ animal_of (lookup k ids)
unfolding stamp_identity animal_of
stamp_identity-animal none k ids = refl
stamp_identity-animal (some s) k ids = elim (Option-cases (lookup k ids)) [
  | inl e ↦ rw (e, stamp_identity) (ap animal_of e)
  | inr (id, e) ↦
      rw (e, stamp_identity)
        (ap animal_of (lookup-insert_self k (record id { source_updated_at = s }) ids))
]

writer_events-quiet :
    (candidate : AnimalCandidate) (id : ℕ) (merged : MergeOutcome)
    → merged.changed ≡ []
    → writer_events candidate id false merged ≡ []
unfolding writer_events has_changes
writer_events-quiet candidate id merged e = ground arith

module _ {P Num : Type 0} where
  -- An applied candidate resolves to the animal that it was applied to.
  resolve-commit :
      (candidate : AnimalCandidate) (id : ℕ) (is_new : Bool) (merged : MergeOutcome)
      (c : Corpus P Num)
      → (is_new ≡ true) ⊎ (resolve candidate c ≡ some id)
      → resolve candidate (commit candidate id is_new merged c).1 ≡ some id
  unfolding resolve commit animal_of new_identity
  resolve-commit candidate id true merged c _ = ap animal_of (
      lookup-insert_self (key candidate.source candidate.external_id)
        (new_identity candidate id merged.occurred_at c) c.identities)
  resolve-commit candidate id false merged c (inl e) = cc
  resolve-commit candidate id false merged c (inr e) =
      stamp_identity-animal candidate.source_updated_at (key candidate.source candidate.external_id)
        c.identities
      ∙ e

  abbrev pub KnownAnimals : Corpus P Num → Type 0
  KnownAnimals c = (n : ℕ) (held : AnimalClaims) → lookup n c.animals ≡ some held → AllKnown held

  -- The second application of a candidate whose claims were merged into `held`.
  commit-quiet :
      (candidate : AnimalCandidate) (id : ℕ) (is_new : Bool) (held : AnimalClaims)
      (merged : MergeOutcome) (c : Corpus P Num)
      → (is_new ≡ true) ⊎ (resolve candidate c ≡ some id)
      → AllKnown held
      → AllKnown candidate.claims
      → merge_claims held candidate.claims candidate.raw_id ≡ ok merged
      → let c' = (commit candidate id is_new merged c).1 in
        (again : Applied) × (c'' : Corpus P Num) × (apply candidate (resolve candidate c') c'
          ≡ (ok again, c''))
        × (again.animal_id ≡ id)
        × (again.events ≡ [])
        × (c''.events ≡ c'.events)
        × (lookup id c''.animals ≡ lookup id c'.animals)
  unfolding commit
  commit-quiet candidate id is_new held merged c known k kc e =
      let c' : Corpus P Num = (commit candidate id is_new merged c).1 in
      let found : lookup id c'.animals ≡ some merged.claims =
        lookup-insert_self id merged.claims c.animals in
      let (merged', e', same, changed, touched) =
        merge_claims-replay held candidate.claims candidate.raw_id k kc e in
      let way = apply-updates candidate id merged.claims merged' c' found e' in
      let quiet = writer_events-quiet candidate id merged' changed in
      (
        record {
          animal_id = id;
          events = writer_events candidate id false merged';
          conflicted = merged'.conflicted;
        },
        (commit candidate id false merged' c').1,
        ap (λ r. apply candidate r c') (resolve-commit candidate id is_new merged c known) ∙ way,
        refl,
        quiet,
        rw quiet (append-nil _),
        lookup-insert_self id merged'.claims c'.animals ∙ ap some same ∙ sym found,
      )

  -- In a corpus with claims of known sources, a candidate of known sources that was applied without
  -- an error and is applied a second time, to the animal that it now resolves to, succeeds on the
  -- same animal, emits no event, and leaves that animal's claims as they were.
  pub apply-replay :
      (candidate : AnimalCandidate) (c c' : Corpus P Num) (first : Applied)
      → KnownAnimals c
      → AllKnown candidate.claims
      → apply candidate (resolve candidate c) c ≡ (ok first, c')
      → (again : Applied) × (c'' : Corpus P Num) × (apply candidate (resolve candidate c') c'
          ≡ (ok again, c''))
        × (again.animal_id ≡ first.animal_id)
        × (again.events ≡ [])
        × (c''.events ≡ c'.events)
        × (lookup first.animal_id c''.animals ≡ lookup first.animal_id c'.animals)
  unfolding commit
  apply-replay candidate c c' first k kc h = go (apply_cases candidate (resolve candidate c) c)
    where
      Quiet : ℕ → Corpus P Num → Type 0
      Quiet id d =
          (again : Applied) × (c'' : Corpus P Num) × (apply candidate (resolve candidate d) d
            ≡ (ok again, c''))
          × (again.animal_id ≡ id)
          × (again.events ≡ [])
          × (c''.events ≡ d.events)
          × (lookup id c''.animals ≡ lookup id d.animals)

      moved :
          (id : ℕ) (d : Corpus P Num)
          → first.animal_id ≡ id
          → c' ≡ d
          → Quiet id d
          → Quiet first.animal_id c'
      moved id d ei ed q = rw (ei, ed) q

      go : Applies candidate (resolve candidate c) c → Quiet first.animal_id c'
      go (fails e way) = absurd (cc)
      go (starts merged _ e way) =
          moved c.next_animal_id (commit candidate c.next_animal_id true merged (count_animal c)).1
            (ap (λ r. id_of r.0) (sym h ∙ way)) (ap (λ r. r.1) (sym h ∙ way))
            (commit-quiet candidate c.next_animal_id true no_claims merged (count_animal c)
              (inl refl) (λ f. tt) kc e)
      go (updates id held merged r found e way) =
          moved id (commit candidate id false merged c).1 (ap (λ r. id_of r.0) (sym h ∙ way))
            (ap (λ r. r.1) (sym h ∙ way))
            (commit-quiet candidate id false held merged c (inr r) (k id held found) kc e)
