-- ===== src/Ingest/Pg/Runs/Plain.antt =====
-- The licensed display is written and never read: the operations of core/ingest/memory.ts answer
-- alike without it.
use monster_paws.Prelude.{
  ℕ, suc, Bool, true, false, Text, text_eq, text_key, nat_key, lookup, ◌≡◌, refl, inl, inr, Option,
  none, some, List, find_last, Option-cases, Bool-cases,
}
use monster_paws.Result.{Result-cases}
use monster_paws.Ingest.Gate.{DisappearanceTally, DisappearanceVerdict}
use monster_paws.Ingest.Model.{Observation, AnimalCandidate}
use monster_paws.Ingest.Fields.{AnimalClaims}
use monster_paws.Ingest.Merge.{merge_claims, viable_first_observation}
use monster_paws.Ingest.Corpus.{Corpus, no_claims}
use monster_paws.Ingest.Memory.{
  is_row_of, insert_row, touch_row, persist, new_identity, commit, merge_into, apply,
}
use monster_paws.Ingest.Reconcile.{reconcile, settle, tally_of, own_of}
use monster_paws.Ingest.Reconcile.Presence.{resolved_at}
use monster_paws.Ingest.Pg.View.{plain}

module _ {P Num : Type 0} where
  -- The same answer, and the same corpus but for the display.
  abbrev pub Alike : {A : Type 0} → A × Corpus P Num → A × Corpus P Num → Type 0
  Alike p q = (p.0 ≡ q.0) × (plain p.1 ≡ plain q.1)

  pub persist-plain :
      (obs : Observation P) (c : Corpus P Num) → Alike (persist obs (plain c)) (persist obs c)
  unfolding persist insert_row touch_row
  persist-plain obs c =
      elim (Option-cases (find_last (is_row_of obs.source obs.external_id) c.raw_rows)) [
        | inl e ↦ rw (e, persist) (refl, refl)
        | inr (old, e) ↦ elim (Bool-cases (text_eq old.content_hash obs.content_hash)) [
          | inl same ↦ rw (e, persist, same) (refl, refl)
          | inr other ↦ rw (e, persist, other) (refl, refl)
        ]
      ]

  merge_into-plain :
      (candidate : AnimalCandidate) (id : ℕ) (is_new : Bool) (held : AnimalClaims)
      (c : Corpus P Num)
      → Alike
          (merge_into candidate id is_new held (plain c))
          (merge_into candidate id is_new held c)
  unfolding merge_into commit new_identity
  merge_into-plain candidate id is_new held c =
      elim (Result-cases (merge_claims held candidate.claims candidate.raw_id)) [
        | inl (o, e) ↦ rw (e, merge_into) (refl, refl)
        | inr (x, e) ↦ rw (e, merge_into) (refl, refl)
      ]

  pub apply-plain :
      (candidate : AnimalCandidate) (animal : Option ℕ) (c : Corpus P Num)
      → Alike (apply candidate animal (plain c)) (apply candidate animal c)
  unfolding apply
  apply-plain candidate none c = elim (Bool-cases (viable_first_observation candidate.claims)) [
    | inl viable ↦
        rw (viable, apply)
          (merge_into-plain candidate c.next_animal_id true no_claims
            (record c { next_animal_id = suc c.next_animal_id }))
    | inr lacking ↦ rw (lacking, apply) (refl, refl)
  ]
  apply-plain candidate (some n) c = elim (Option-cases (lookup n c.animals)) [
    | inl gone ↦ rw (gone, apply) (refl, refl)
    | inr (held, there) ↦ rw (there, apply) (merge_into-plain candidate n false held c)
  ]

  pub reconcile-plain :
      (precedes : Text → Text → Bool) (source : Text) (seen : List Text) (at : ℕ)
      (gate : DisappearanceTally → DisappearanceVerdict Num) (c : Corpus P Num)
      → Alike
          (reconcile precedes source seen at gate (plain c))
          (reconcile precedes source seen at gate c)
  unfolding reconcile settle resolved_at
  reconcile-plain precedes source seen at gate c =
      elim (Option-cases
        (gate (
          tally_of seen (resolved_at source at c.identities).at
            (own_of source c.identities))).refusal) [
              | inr (r, e) ↦ rw (e, settle) (refl, refl)
              | inl e ↦ rw (e, settle) (refl, refl)
            ]
