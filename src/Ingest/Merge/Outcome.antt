-- ===== src/Ingest/Merge/Outcome.antt =====
-- The outcome of a whole merge.
use monster_paws.Prelude.{
  ℕ, ◌≡◌, ◌≢◌, refl, sym, ap, ◌∙◌, subst, ◌⊎◌, inl, inr, ◌↔◌, Bool, true, Option, none, some, List,
  [], ◌∷◌, Option-cases,
}
use monster_paws.Result.{ok, err}
use monster_paws.Sources.Identity.{IsKnown}
use monster_paws.Ingest.Fields.{Field, merged_fields, FieldClaim, AnimalClaims}
use monster_paws.Ingest.Merge.{
  unmerged, push_if, MergeOutcome, Verdict, judge, competing, enter, merge_field, merge_fields,
  merge_claims,
}
use monster_paws.Ingest.Merge.Slot.{
  KnownClaim, Settles, Conflicts, value_of, Judged, judge-Judged, competing_lem,
}
use monster_paws.Ingest.Merge.Pointwise.{
  Verdicts, enter_all, enter_at, mem_field, winner_or, flag_of, claims-enter_all, mem-enter_all,
  mem-merged_fields,
}

-- Every claim is of a known source.
abbrev pub AllKnown : AnimalClaims → Type 0
AllKnown claims = (f : Field) → KnownClaim (claims f)

pub verdict_of : Option FieldClaim → Option FieldClaim → Option (FieldClaim × Verdict)
verdict_of held none = none
verdict_of held (some c) = elim (judge c held) [ ok v ↦ some (c, v) | err _ ↦ none ]

competing-KnownClaim :
    (raw_id : ℕ) (o : Option FieldClaim) (c : FieldClaim)
    → KnownClaim o
    → competing raw_id o ≡ some c
    → IsKnown c.source × (c.value ≢ none)
competing-KnownClaim raw_id o c k e =
    let (r, there, same, real) = competing_lem raw_id o c e in
    let kr : IsKnown r.source = subst KnownClaim there k in
    (subst (λ x. IsKnown x.source) (sym same) kr, real)

module _ (current incoming : AnimalClaims) (raw_id : ℕ) (k : AllKnown current)
    (ki : AllKnown incoming) where
  verdicts : Verdicts
  unfolding verdict_of
  verdicts f = verdict_of (current f) (competing raw_id (incoming f))

  -- The two ways that a field of a merge can go: no claim competes, or one does and is judged.
  field_cases :
      (f : Field)
      → ((competing raw_id (incoming f) ≡ none) × (verdicts f ≡ none))
        ⊎ ((c : FieldClaim) × (v : Verdict) × (competing raw_id (incoming f) ≡ some c)
            × (judge c (current f) ≡ ok v)
            × (verdicts f ≡ some (c, v))
            × Judged c (current f) v)
  unfolding verdicts
  field_cases f = elim (Option-cases (competing raw_id (incoming f))) [
    | inl e ↦ inl (e, rw (e, verdict_of))
    | inr (c, e) ↦
        let (known, real) = competing-KnownClaim raw_id (incoming f) c (ki f) e in
        let (v, judged, means) = judge-Judged c (current f) known (k f) real in
        inr (c, v, e, judged, rw (e, verdict_of, judged), means)
  ]

  merge_field-enter_at :
      (f : Field) (out : MergeOutcome)
      → merge_field (competing raw_id (incoming f)) (current f) f out
        ≡ ok (enter_at f (verdicts f) out)
  unfolding merge_field enter_at
  merge_field-enter_at f out = elim (field_cases f) [
    | inl (e, n) ↦ rw (e, n, merge_field, enter_at)
    | inr (c, v, e, judged, n, means) ↦ rw (e, n, merge_field, enter_at, judged)
  ]

  merge_fields-enter_all :
      (fs : List Field) (out : MergeOutcome)
      → merge_fields current incoming raw_id fs out ≡ ok (enter_all verdicts fs out)
  unfolding merge_fields enter_all
  merge_fields-enter_all [] out = refl
  merge_fields-enter_all (f ∷ fs) out =
      rw (merge_field-enter_at f out) (merge_fields-enter_all fs (enter_at f (verdicts f) out))

-- The claim that competes for a field conflicts with the held one.
abbrev pub ConflictsAt : Option FieldClaim → Option FieldClaim → Type 0
ConflictsAt held none = ⊥
ConflictsAt held (some c) = Conflicts held c

-- What a merge did to one field.
pub record FieldOutcome (current incoming : AnimalClaims) (raw_id : ℕ) (o : MergeOutcome)
    (f : Field) : Type 0 where
  pub settles : Settles (current f) (competing raw_id (incoming f)) (o.claims f)
  pub changed : (mem_field f o.changed ≡ true) ↔ (value_of (current f) ≢ value_of (o.claims f))
  pub touched : (mem_field f o.touched ≡ true) ↔ (current f ≢ o.claims f)
  pub conflicted :
      (mem_field f o.conflicted ≡ true) ↔ ConflictsAt (current f) (competing raw_id (incoming f))

-- The same in terms of the field's verdict.
verdict-FieldOutcome :
    (current incoming : AnimalClaims) (raw_id : ℕ) (o : MergeOutcome) (f : Field)
    (candidate : Option FieldClaim) (p : Option (FieldClaim × Verdict))
    → competing raw_id (incoming f) ≡ candidate
    → o.claims f ≡ winner_or (current f) p
    → mem_field f o.changed ≡ flag_of (λ v. v.is_changed) p
    → mem_field f o.touched ≡ flag_of (λ v. v.is_touched) p
    → mem_field f o.conflicted ≡ flag_of (λ v. v.is_conflicted) p
    → ((candidate ≡ none) × (p ≡ none))
      ⊎ ((c : FieldClaim) × (v : Verdict) × (candidate ≡ some c)
          × (p ≡ some (c, v))
          × Judged c (current f) v)
    → FieldOutcome current incoming raw_id o f
verdict-FieldOutcome current incoming raw_id o f candidate p ec claims changed touched conflicted
      (inl (e, n)) =
    let same : o.claims f ≡ current f = claims ∙ ap (winner_or (current f)) n in
    record {
      settles = rw (ec, e) same;
      changed = rw (changed, n, same) (λ x. absurd (cc x), λ x. absurd (x refl));
      touched = rw (touched, n, same) (λ x. absurd (cc x), λ x. absurd (x refl));
      conflicted = rw (conflicted, n, ec, e) (λ x. cc x, λ x. absurd x);
    }
verdict-FieldOutcome current incoming raw_id o f candidate p ec claims changed touched conflicted
      (inr (c, v, e, n, means)) =
    let same : o.claims f ≡ some v.winner = claims ∙ ap (winner_or (current f)) n in
    record {
      settles = rw (ec, e, same) means.settles;
      changed = rw (changed, n, same) means.changed;
      touched = rw (touched, n, same) means.touched;
      conflicted = rw (conflicted, n, ec, e) means.conflicted;
    }

-- Claims of known sources merge without an error, and for each field the outcome is exact: the
-- field keeps its claim unless a competing claim is there that the held one does not beat; it is
-- listed as changed exactly if its value changes, as touched exactly if its claim does, and as
-- conflicted exactly if the competing claim has another tier and another value than the held one.
pub merge_claims-FieldOutcome :
    (current incoming : AnimalClaims) (raw_id : ℕ)
    → AllKnown current
    → AllKnown incoming
    → (o : MergeOutcome) × (merge_claims current incoming raw_id ≡ ok o)
      × ((f : Field) → FieldOutcome current incoming raw_id o f)
unfolding merge_claims mem_field verdicts push_if enter
merge_claims-FieldOutcome current incoming raw_id k ki = (
  out,
  merge_fields-enter_all current incoming raw_id k ki merged_fields (unmerged current),
  λ f.
      verdict-FieldOutcome current incoming raw_id out f _ (vs f) refl
        (rw (claims-enter_all vs f merged_fields (unmerged current), mem-merged_fields f))
        (visits (λ o. o.changed) (λ v. v.is_changed) (λ g c v o. refl) f refl)
        (visits (λ o. o.touched) (λ v. v.is_touched) (λ g c v o. refl) f refl)
        (visits (λ o. o.conflicted) (λ v. v.is_conflicted) (λ g c v o. refl) f refl)
        (elim (field_cases current incoming raw_id k ki f) [
          | inl n ↦ inl n
          | inr (c, v, e, _, n, means) ↦ inr (c, v, e, n, means)
        ]),
)
  where
    vs : Verdicts
    vs = verdicts current incoming raw_id k ki

    out : MergeOutcome
    out = enter_all vs merged_fields (unmerged current)

    visits :
        (list : MergeOutcome → List Field) (flag : Verdict → Bool)
        → ((g : Field) (c : FieldClaim) (v : Verdict) (o : MergeOutcome)
            → list (enter g c v o) ≡ push_if (flag v) g (list o))
        → (f : Field) → list (unmerged current) ≡ []
        → mem_field f (list out) ≡ flag_of flag (vs f)
    visits list flag pushes f e =
        mem-enter_all vs list flag pushes f merged_fields (unmerged current)
        ∙ rw (e, mem-merged_fields f)
