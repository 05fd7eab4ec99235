-- ===== src/Ingest/Pg/Canonical/Refines.antt =====
-- Applying a candidate over Postgres and in memory.
use mathlib.Core.Option.{some-injective}
use monster_paws.Prelude.{
  ℕ, suc, text_key, nat_key, ◌≡◌, refl, sym, ap, ◌∙◌, subst, inl, inr, true, false, Option, none,
  some, List, [], ◌∷◌, ◌++◌, Map, lookup, insert, Option-cases, Bool-cases,
}
use monster_paws.Result.{Result, ok, ok-injective}
use monster_paws.Sources.Identity.{IsKnown}
use monster_paws.Shelters.{find_first}
use monster_paws.Ingest.Fields.{Field, name, species, AnimalClaims}
use monster_paws.Ingest.Merge.{MergeOutcome, merge_claims, viable_first_observation, is_claimed}
use monster_paws.Ingest.Merge.Outcome.{AllKnown}
use monster_paws.Ingest.Model.{AnimalCandidate}
use monster_paws.Ingest.Report.{Applied}
use monster_paws.Ingest.Corpus.{Corpus, key, no_claims}
use monster_paws.Ingest.Memory
use monster_paws.Ingest.Memory.{
  animal_of, is_row_of, first_sighting, new_identity, stamp_identity, merge_into, upkeep,
}
use monster_paws.Ingest.Memory.Writer.{count_animal, apply-updates}
use monster_paws.Ingest.Pg.{PgCorpus, AnimalRow, is_identity_of, resolve}
use monster_paws.Ingest.Pg.Canonical.{
  claim_of, current_claims_of, empty_row, write_touched, is_null, merge_row, identity_row,
  stamp_rows, finish, start_animal, rewrite_animal, apply,
}
use monster_paws.Ingest.Pg.View.{
  pair_path, view, plain, view_animals, view_identities, lookup-view_animals, insert-view_animals,
  insert-lookup, lookup-view_identities, insert-view_identities_new, insert-view_identities,
  find_first-none-update,
}
use monster_paws.Ingest.Pg.Canonical.Writer.{merge_row_lem}
use monster_paws.Ingest.Pg.Canonical.Sound.{Sound, Fresh, started_column, none-some_row}

module _ {P Num : Type 0} (candidate : AnimalCandidate) (d : PgCorpus P Num)
    (known : IsKnown candidate.source) (sound : Sound d) where
  pub resolve-view : Memory.resolve candidate (view d) ≡ resolve candidate d
  unfolding resolve Memory.resolve
  resolve-view = ap animal_of (
      lookup-view_identities candidate.source candidate.external_id known d.animal_identities
        sound.known_rows)

  abbrev Same : Result Applied × PgCorpus P Num → Result Applied × Corpus P Num → Type 0
  Same pg memory = (view pg.1 ≡ plain memory.1) × (pg.0 ≡ memory.0)

  stamp-view :
      (o : Option (Option ℕ))
      → candidate.source_updated_at ≡ o
      → view_identities (stamp_rows candidate d.animal_identities)
        ≡ stamp_identity candidate.source_updated_at
            (key candidate.source candidate.external_id)
            (view_identities d.animal_identities)
  unfolding stamp_rows stamp_identity
  stamp-view none e = rw e refl
  stamp-view (some stamp) e =
      let at =
        lookup-view_identities candidate.source candidate.external_id known d.animal_identities
          sound.known_rows in
      elim (Option-cases
        (find_first (is_identity_of candidate.source candidate.external_id) d.animal_identities)) [
          | inl absent ↦
              let gone = at ∙ absent in
              rw (e, stamp_rows, stamp_identity, gone)
                (ap view_identities (
                  find_first-none-update _ (λ id. record id { source_updated_at = stamp })
                    d.animal_identities absent))
          | inr (id, found) ↦
              let there = at ∙ found in
              rw (e, stamp_rows, stamp_identity, there)
                (sym (
                  insert-view_identities candidate.source candidate.external_id known
                    (λ r. record r { source_updated_at = stamp }) id d.animal_identities
                    (λ r. (refl, refl)) sound.known_rows sound.unique_rows found))
        ]

  rewritten-view :
      (n : ℕ) (row row' : AnimalRow) (touched : List Field) (claims : AnimalClaims)
      → lookup n d.animals ≡ some row
      → write_touched touched claims row ≡ ok row'
      → current_claims_of row' ≡ claims
      → view_animals (elim touched as (λ _. Map ℕ AnimalRow) [
        | [] ↦ d.animals
        | f ∷ fs ↦ insert n row' d.animals
      ])
        ≡ insert n claims (view_animals d.animals)
  unfolding write_touched
  rewritten-view n row row' [] claims there wrote holds =
      let same : row ≡ row' = ok-injective wrote in
      let at : current_claims_of row ≡ claims = ap current_claims_of same ∙ holds in
      elim (lookup-view_animals n d.animals) [
        | inl (missing, _) ↦ absurd (cc (sym missing ∙ there))
        | inr (r, found, seen) ↦
            let one : r ≡ row = some-injective r row (sym found ∙ there) in
            sym (
              insert-lookup n claims (view_animals d.animals)
                (seen ∙ ap (λ x. some (current_claims_of x)) one ∙ ap some at))
      ]
  rewritten-view n row row' (f ∷ fs) claims there wrote holds =
      insert-view_animals n row' d.animals ∙ ap (λ c. insert n c (view_animals d.animals)) holds

  updates-view :
      (n : ℕ) (row : AnimalRow)
      → AllKnown candidate.claims
      → lookup n d.animals ≡ some row
      → Same (apply candidate (some n) d) (Memory.apply candidate (some n) (view d))
  unfolding apply rewrite_animal finish Memory.commit
  updates-view n row ki there =
      let (o, row', merged, both, holds, wrote, outcome) =
        merge_row_lem candidate row (sound.known_claims n row there) ki in
      let seen : lookup n (view_animals d.animals) ≡ some (current_claims_of row) =
        elim (lookup-view_animals n d.animals) [
          | inl (missing, _) ↦ absurd (cc (sym missing ∙ there))
          | inr (r, found, seen) ↦
              seen ∙ ap (λ x. some (current_claims_of x)) (some-injective r row (sym found ∙ there))
        ] in
      let way = apply-updates candidate n (current_claims_of row) o (view d) seen merged in
      rw (there, apply, both, way)
        (
          ap
              (λ a. record (view d) {
                animals = a.0;
                identities = a.1;
                events = d.event_log ++ Memory.writer_events candidate n false o;
              })
              (pair_path (rewritten-view n row row' o.touched o.claims there wrote holds)
                (stamp-view candidate.source_updated_at refl)),
          refl,
        )

  unresolved-absent :
      resolve candidate d ≡ none
      → find_first (is_identity_of candidate.source candidate.external_id) d.animal_identities
        ≡ none
  unfolding resolve animal_of
  unresolved-absent e =
      elim (Option-cases
        (find_first (is_identity_of candidate.source candidate.external_id) d.animal_identities)) [
          | inl absent ↦ absent
          | inr (id, found) ↦ absurd (cc (sym (ap animal_of found) ∙ e))
        ]

  -- The rows of a new animal stand for what memory enters.
  started-view :
      (o : MergeOutcome) (row : AnimalRow)
      → current_claims_of row ≡ o.claims
      → is_null (row.columns name) ≡ false
      → is_null (row.columns species) ≡ false
      → resolve candidate d ≡ none
      → Fresh candidate d
      → Same
          (start_animal candidate o row d)
          (Memory.commit candidate d.next_animal_id true o (count_animal (view d)))
  unfolding start_animal finish Memory.commit identity_row new_identity
  started-view o row holds n₁ n₂ unresolved fresh =
      let absent = unresolved-absent unresolved in
      let free =
        none-some_row (is_identity_of candidate.source candidate.external_id) d.animal_identities
          absent in
      let entered =
        insert-view_identities_new candidate.source candidate.external_id known
          (identity_row candidate d.next_animal_id o.occurred_at d) d.animal_identities refl refl
          sound.known_rows absent in
      let seen = fresh.newest o.occurred_at in
      let animals =
        insert-view_animals d.next_animal_id row d.animals
        ∙ ap (λ c. insert d.next_animal_id c (view_animals d.animals)) holds in
      rw (n₁, n₂, free)
        (
          ap
              (λ a. record (view d) {
                animals = a.0;
                identities = a.1;
                events = d.event_log ++ Memory.writer_events candidate d.next_animal_id true o;
                next_animal_id = suc d.next_animal_id;
              })
              (pair_path animals (
                sym entered
                ∙ ap
                    (λ at.
                      insert (key candidate.source candidate.external_id)
                        (record {
                          animal_id = d.next_animal_id;
                          source = candidate.source;
                          external_id = candidate.external_id;
                          last_seen_at = at;
                          disappeared_at = none;
                          source_updated_at = upkeep candidate.source_updated_at;
                        })
                        (view_identities d.animal_identities))
                    seen)),
          refl,
        )

  start-ways :
      (o : MergeOutcome) (row : AnimalRow)
      → viable_first_observation candidate.claims ≡ true
      → merge_row candidate empty_row ≡ ok (o, row)
      → merge_claims no_claims candidate.claims candidate.raw_id ≡ ok o
      → (apply candidate none d ≡ start_animal candidate o row d)
        × (Memory.apply candidate none (view d)
            ≡ Memory.commit candidate d.next_animal_id true o (count_animal (view d)))
  unfolding apply Memory.apply Memory.merge_into
  start-ways o row viable both merged =
      (rw (viable, both) refl, rw (viable, Memory.merge_into, merged) refl)

  starts-view :
      AllKnown candidate.claims
      → resolve candidate d ≡ none
      → Fresh candidate d
      → Same (apply candidate none d) (Memory.apply candidate none (view d))
  unfolding current_claims_of claim_of
  starts-view ki unresolved fresh =
      let (c₁, v₁, e₁, _) = fresh.named in
      let (c₂, v₂, e₂, _) = fresh.kinded in
      let viable : viable_first_observation candidate.claims ≡ true =
        unfold viable_first_observation is_claimed in rw (e₁, e₂) refl in
      let (o, row, merged, both, holds, wrote, outcome) =
        merge_row_lem candidate empty_row (λ f. tt) ki in
      let n₁ =
        started_column candidate.claims candidate.raw_id o row name (outcome name) holds
          fresh.named in
      let n₂ =
        started_column candidate.claims candidate.raw_id o row species (outcome species) holds
          fresh.kinded in
      let (pg, memory) = start-ways o row viable both merged in
      rw (pg, memory) (started-view o row holds n₁ n₂ unresolved fresh)

  missing-view :
      (n : ℕ)
      → lookup n d.animals ≡ none
      → Same (apply candidate (some n) d) (Memory.apply candidate (some n) (view d))
  unfolding apply Memory.apply
  missing-view n gone = elim (lookup-view_animals n d.animals) [
    | inr (row, found, _) ↦ absurd (cc (sym gone ∙ found))
    | inl (_, unseen) ↦ rw (gone, apply, unseen, Memory.apply) (refl, refl)
  ]

  unviable-view :
      viable_first_observation candidate.claims ≡ false
      → Same (apply candidate none d) (Memory.apply candidate none (view d))
  unfolding apply Memory.apply
  unviable-view lacking = rw (lacking, apply, Memory.apply) (refl, refl)

  abbrev AppliedSame : Option ℕ → Type 0
  AppliedSame a = Same (apply candidate a d) (Memory.apply candidate a (view d))

  -- The writer over Postgres refines the one in memory: a candidate of known sources resolves to
  -- the same animal, and applying it there gives the same result and leaves tables that stand for
  -- the corpus which memory then has, but for the licensed display. A new record that has a name and
  -- a species needs values in both, and its newest raw row to be the one that was seen last.
  pub apply-view :
      AllKnown candidate.claims
      → (resolve candidate d ≡ none
          → viable_first_observation candidate.claims ≡ true
          → Fresh candidate d)
      → (Memory.resolve candidate (view d) ≡ resolve candidate d)
        × (view (apply candidate (resolve candidate d) d).1
            ≡ plain (Memory.apply candidate (resolve candidate d) (view d)).1)
        × ((apply candidate (resolve candidate d) d).0
            ≡ (Memory.apply candidate (resolve candidate d) (view d)).0)
  apply-view ki fresh =
      let (state, result) : AppliedSame (resolve candidate d) =
        elim (Option-cases (resolve candidate d)) [
          | inl absent ↦
              subst AppliedSame (sym absent)
                (elim (Bool-cases (viable_first_observation candidate.claims)) [
                  | inl viable ↦ starts-view ki absent (fresh absent viable)
                  | inr lacking ↦ unviable-view lacking
                ])
          | inr (n, there) ↦
              subst AppliedSame (sym there) (elim (Option-cases (lookup n d.animals)) [
                | inl gone ↦ missing-view n gone
                | inr (row, found) ↦ updates-view n row ki found
              ])
        ] in
      (resolve-view, state, result)
