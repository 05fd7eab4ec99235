-- ===== src/Ingest/Memory/WellFormed.antt =====
-- The invariant of the corpus in memory: the map of identities is keyed by its records, every
-- identity's animal is there, ids are below the counter, and every claim is of a known source.
use monster_paws.Prelude.{
  ℕ, ◌<◌, Text, text_key, nat_key, Key, lookup-insert, ◌≡◌, refl, sym, ap, ◌∙◌, ◌⊎◌, inl, inr, Bool,
  true, false, Option, none, some, Map, lookup, insert, arith, Option-cases, Bool-cases, subst,
}
use monster_paws.Result.{ok}
use monster_paws.Ingest.Fields.{AnimalClaims}
use monster_paws.Ingest.Merge.{MergeOutcome, viable_first_observation}
use monster_paws.Ingest.Merge.Outcome.{AllKnown, merge_claims-FieldOutcome}
use monster_paws.Ingest.Merge.Laws.{merge_claims-AllKnown, merge_claims-empty}
use monster_paws.Ingest.Model.{Observation, AnimalCandidate}
use monster_paws.Ingest.Report.{Applied}
use monster_paws.Ingest.Corpus.{Corpus, MemoryIdentity, key, no_claims}
use monster_paws.Ingest.Memory.{
  commit, merge_into, apply, resolve, persist, animal_of, stamp_identity, new_identity, insert_row,
  touch_row,
}
use monster_paws.Ingest.Memory.Raw.{persist_cases}
use monster_paws.Ingest.Memory.Replay.{KnownAnimals, lookup-insert_self}
use monster_paws.Ingest.Memory.Writer.{
  Applies, starts, updates, fails, apply_cases, apply-updates, count_animal,
}

pub record WellFormed {P Num : Type 0} (c : Corpus P Num) : Type 0 where
  pub keyed :
      (k : Text) (id : MemoryIdentity)
      → lookup k c.identities ≡ some id
      → k ≡ key id.source id.external_id
  pub linked :
      (k : Text) (id : MemoryIdentity)
      → lookup k c.identities ≡ some id
      → (held : AnimalClaims) × (lookup id.animal_id c.animals ≡ some held)
  pub below : (n : ℕ) (held : AnimalClaims) → lookup n c.animals ≡ some held → n < c.next_animal_id
  pub known : KnownAnimals c

-- A lookup in a map that was written at `k`: what was written, or what was there.
lookup-insert_cases :
    {K V : Type 0} ⦃e : Key K⦄ (k j : K) (v : V) (m : Map K V) {w : V}
    → lookup j (insert k v m) ≡ some w
    → ((j ≡ k) × (w ≡ v)) ⊎ (lookup j m ≡ some w)
lookup-insert_cases ⦃e⦄ k j v m h = elim (Bool-cases (e.same k j)) [
  | inl same ↦ inl (sym ((e.same_iff k j).0 same), ground (arith, lookup-insert k j v m))
  | inr other ↦ inr (ground (arith, lookup-insert k j v m))
]

-- Writing keeps every key.
lookup-insert-some :
    {K V : Type 0} ⦃e : Key K⦄ (k j : K) (v w : V) (m : Map K V)
    → lookup j m ≡ some w
    → (x : V) × (lookup j (insert k v m) ≡ some x)
lookup-insert-some ⦃e⦄ k j v w m h = elim (Bool-cases (e.same k j)) [
  | inl same ↦ (v, ground (arith, lookup-insert k j v m))
  | inr other ↦ (w, ground (arith, lookup-insert k j v m))
]

-- Stamping changes one column.
stamp_identity-lookup :
    (stamp : Option (Option ℕ)) (k j : Text) (ids : Map Text MemoryIdentity) {id : MemoryIdentity}
    → lookup j (stamp_identity stamp k ids) ≡ some id
    → (old : MemoryIdentity) × (lookup j ids ≡ some old)
      × (id.animal_id ≡ old.animal_id)
      × (id.source ≡ old.source)
      × (id.external_id ≡ old.external_id)
unfolding stamp_identity
stamp_identity-lookup none k j ids {id} e = (id, e, refl, refl, refl)
stamp_identity-lookup (some s) k j ids {id} e = elim (Option-cases (lookup k ids)) [
  | inl missing ↦ (id, rw (missing, stamp_identity) at e, refl, refl, refl)
  | inr (old, there) ↦
      elim (lookup-insert_cases k j (record old { source_updated_at = s }) ids
        (rw (there, stamp_identity) at e)) [
          | inr same ↦ (id, same, refl, refl, refl)
          | inl (at, is) ↦ (
            old,
            ap (λ x. lookup x ids) at ∙ there,
            ap (λ x. x.animal_id) is,
            ap (λ x. x.source) is,
            ap (λ x. x.external_id) is,
          )
        ]
]

module _ {P Num : Type 0} where
  pub persist-WellFormed :
      (obs : Observation P) (c : Corpus P Num) → WellFormed c → WellFormed (persist obs c).1
  unfolding insert_row touch_row
  persist-WellFormed obs c wf = elim (persist_cases obs c) [
    | inl (old, e, same, way) ↦
        rw way (record { keyed = wf.keyed; linked = wf.linked; below = wf.below; known = wf.known })
    | inr (_, way) ↦
        rw way (record { keyed = wf.keyed; linked = wf.linked; below = wf.below; known = wf.known })
  ]

  -- The claims after a commit, for an animal below the counter.
  commit-below :
      (candidate : AnimalCandidate) (id : ℕ) (is_new : Bool) (merged : MergeOutcome)
      (c : Corpus P Num)
      → id < c.next_animal_id
      → ((n : ℕ) (held : AnimalClaims) → lookup n c.animals ≡ some held → n < c.next_animal_id)
      → (n : ℕ) (held : AnimalClaims)
      → lookup n (commit candidate id is_new merged c).1.animals ≡ some held
      → n < c.next_animal_id
  unfolding commit
  commit-below candidate id is_new merged c small below n held e =
      elim (lookup-insert_cases id n merged.claims c.animals e) [
        | inl (same, _) ↦ rw same small
        | inr old ↦ below n held old
      ]

  commit-known :
      (candidate : AnimalCandidate) (id : ℕ) (is_new : Bool) (merged : MergeOutcome)
      (c : Corpus P Num)
      → AllKnown merged.claims
      → KnownAnimals c
      → KnownAnimals (commit candidate id is_new merged c).1
  unfolding commit
  commit-known candidate id is_new merged c k known n held e =
      elim (lookup-insert_cases id n merged.claims c.animals e) [
        | inl (_, same) ↦ subst AllKnown (sym same) k
        | inr old ↦ known n held old
      ]

  -- Where an identity of the committed corpus comes from.
  commit-identity :
      (candidate : AnimalCandidate) (id : ℕ) (is_new : Bool) (merged : MergeOutcome)
      (c : Corpus P Num) (k : Text) (found : MemoryIdentity)
      → lookup k (commit candidate id is_new merged c).1.identities ≡ some found
      → ((k ≡ key found.source found.external_id) × (found.animal_id ≡ id))
        ⊎ ((old : MemoryIdentity) × (lookup k c.identities ≡ some old)
            × (found.animal_id ≡ old.animal_id)
            × (found.source ≡ old.source)
            × (found.external_id ≡ old.external_id))
  unfolding commit new_identity
  commit-identity candidate id true merged c k found e =
      elim (lookup-insert_cases (key candidate.source candidate.external_id) k
        (new_identity candidate id merged.occurred_at c) c.identities e) [
          | inl (at, is) ↦ inl (
            at ∙ ap (λ (x : MemoryIdentity). key x.source x.external_id) (sym is),
            ap (λ x. x.animal_id) is,
          )
          | inr old ↦ inr (found, old, refl, refl, refl)
        ]
  commit-identity candidate id false merged c k found e =
      inr (stamp_identity-lookup candidate.source_updated_at _ k c.identities e)

  commit-WellFormed :
      (candidate : AnimalCandidate) (id : ℕ) (is_new : Bool) (merged : MergeOutcome)
      (c : Corpus P Num)
      → id < c.next_animal_id
      → AllKnown merged.claims
      → WellFormed c
      → WellFormed (commit candidate id is_new merged c).1
  commit-WellFormed candidate id is_new merged c small k wf = record {
    keyed = λ j found e. elim (commit-identity candidate id is_new merged c j found e) [
      | inl (at, _) ↦ at
      | inr (old, there, _, es, ee) ↦ rw (es, ee) (wf.keyed j old there)
    ];
    linked = λ j found e. elim (commit-identity candidate id is_new merged c j found e) [
      | inl (_, is) ↦
          (merged.claims, unfold commit in rw is (lookup-insert_self id merged.claims c.animals))
      | inr (old, there, ea, _, _) ↦
          let (held, h) = wf.linked j old there in
          unfold commit in
          rw ea (lookup-insert-some id old.animal_id merged.claims held c.animals h)
    ];
    below = unfold commit in commit-below candidate id is_new merged c small wf.below;
    known = commit-known candidate id is_new merged c k wf.known;
  }

  count_animal-WellFormed : (c : Corpus P Num) → WellFormed c → WellFormed (count_animal c)
  count_animal-WellFormed c wf = record {
    keyed = wf.keyed;
    linked = wf.linked;
    below = λ n held e. omega (arith, wf.below n held e);
    known = wf.known;
  }

  -- Writing a candidate of known sources to the animal that it resolves to keeps the invariant.
  pub apply-WellFormed :
      (candidate : AnimalCandidate) (animal : Option ℕ) (c : Corpus P Num)
      → AllKnown candidate.claims
      → WellFormed c
      → WellFormed (apply candidate animal c).1
  apply-WellFormed candidate animal c k wf = go (apply_cases candidate animal c)
    where
      go : Applies candidate animal c → WellFormed (apply candidate animal c).1
      go (fails e way) = rw way wf
      go (starts merged _ e way) = rw way (
          commit-WellFormed candidate c.next_animal_id true merged (count_animal c) (omega arith)
            (merge_claims-AllKnown no_claims candidate.claims candidate.raw_id (λ f. tt) k e)
            (count_animal-WellFormed c wf))
      go (updates id held merged _ found e way) = rw way (
          commit-WellFormed candidate id false merged c (wf.below id held found)
            (merge_claims-AllKnown held candidate.claims candidate.raw_id (wf.known id held found) k
              e)
            wf)

  -- In a well-formed corpus the writer throws for one reason alone: applying a candidate whose
  -- claims are of known sources to the animal that it resolves to succeeds, unless the record is
  -- new and its claims lack a name or a species.
  pub apply-total :
      (candidate : AnimalCandidate) (c : Corpus P Num)
      → WellFormed c
      → AllKnown candidate.claims
      → (resolve candidate c ≡ none → viable_first_observation candidate.claims ≡ true)
      → (done : Applied) × (c' : Corpus P Num) × (apply candidate (resolve candidate c) c
          ≡ (ok done, c'))
  unfolding resolve animal_of apply merge_into commit
  apply-total candidate c wf k viable =
      elim (Option-cases (lookup (key candidate.source candidate.external_id) c.identities)) [
        | inl new ↦
            let unresolved : resolve candidate c ≡ none = ap animal_of new in
            let (merged, e) =
              merge_claims-empty no_claims candidate.claims candidate.raw_id (λ f. refl) in
            let way : apply candidate none c
                ≡ commit candidate c.next_animal_id true merged (count_animal c) =
              rw (viable unresolved, merge_into, e) in
            (_, _, ap (λ r. apply candidate r c) unresolved ∙ way)
        | inr (id, there) ↦
            let (held, h) = wf.linked _ id there in
            let (merged, e, _) =
              merge_claims-FieldOutcome held candidate.claims candidate.raw_id
                (wf.known id.animal_id held h) k in
            (
              _,
              _,
              ap (λ r. apply candidate r c) (ap animal_of there)
                  ∙ apply-updates candidate id.animal_id held merged c h e,
            )
      ]
