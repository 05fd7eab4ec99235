-- ===== src/Ingest/Merge/Pointwise.antt =====
-- A merge taken field by field.
use monster_paws.Prelude.{
  ◌≡◌, refl, ap, inl, inr, Bool, true, false, ◌&&◌, ◌||◌, Option, none, some, List, [], ◌∷◌, ◌++◌,
  arith, Bool-cases, Option-cases, if◌then◌else◌,
}
use monster_paws.Ingest.Fields.{Field, name, merged_fields, FieldClaim, field_eq, field_eq_iff}
use monster_paws.Ingest.Merge.{MergeOutcome, Verdict, push_if, enter}

unfoldable pub mem_field : Field → List Field → Bool
mem_field f [] = false
mem_field f (g ∷ gs) = field_eq g f || mem_field f gs

mem_field-append :
    (f : Field) (gs hs : List Field) → mem_field f (gs ++ hs) ≡ (mem_field f gs || mem_field f hs)
unfolding mem_field
mem_field-append f [] hs = refl
mem_field-append f (g ∷ gs) hs = ground (arith, mem_field-append f gs hs)

mem_field-push_if :
    (b : Bool) (f g : Field) (gs : List Field)
    → mem_field f (push_if b g gs) ≡ (mem_field f gs || (b && field_eq g f))
unfolding mem_field push_if
mem_field-push_if true f g gs = ground (arith, mem_field-append f gs (g ∷ []))
mem_field-push_if false f g gs = ground arith

pub mem-merged_fields : (f : Field) → mem_field f merged_fields ≡ true
unfolding mem_field field_eq
mem-merged_fields name = refl
mem-merged_fields _ = refl

-- The verdicts of a merge, one for each field that has a competing claim.
abbrev pub Verdicts : Type 0
Verdicts = Field → Option (FieldClaim × Verdict)

unfoldable pub enter_at : Field → Option (FieldClaim × Verdict) → MergeOutcome → MergeOutcome
enter_at f none out = out
enter_at f (some (c, v)) out = enter f c v out

unfoldable pub enter_all : Verdicts → List Field → MergeOutcome → MergeOutcome
enter_all vs [] out = out
enter_all vs (f ∷ fs) out = enter_all vs fs (enter_at f (vs f) out)

abbrev pub winner_or : Option FieldClaim → Option (FieldClaim × Verdict) → Option FieldClaim
winner_or held none = held
winner_or held (some (c, v)) = some v.winner

abbrev pub flag_of : (Verdict → Bool) → Option (FieldClaim × Verdict) → Bool
flag_of flag none = false
flag_of flag (some (c, v)) = flag v

claims-enter_at :
    (o : Option (FieldClaim × Verdict)) (f g : Field) (out : MergeOutcome)
    → (enter_at g o out).claims f
      ≡ (if field_eq g f then winner_or (out.claims f) o else out.claims f)
unfolding enter_at enter
claims-enter_at none f g out = ground arith
claims-enter_at (some p) f g out = ground arith

module _ (vs : Verdicts) where
  -- The claim of a field that the loop visits is the winner of its verdict.
  pub claims-enter_all :
      (f : Field) (fs : List Field) (out : MergeOutcome)
      → (enter_all vs fs out).claims f
        ≡ (if mem_field f fs then winner_or (out.claims f) (vs f) else out.claims f)
  unfolding enter_all mem_field
  claims-enter_all f [] out = refl
  claims-enter_all f (g ∷ fs) out = elim (Bool-cases (field_eq g f)) [
    | inl e ↦
        let same : vs g ≡ vs f = ap vs ((field_eq_iff g f).0 e) in
        elim (Option-cases (vs f)) [
          | inl m ↦
              ground (
                arith,
                claims-enter_all f fs (enter_at g (vs g) out),
                claims-enter_at (vs g) f g out,
              )
          | inr (p, m) ↦
              ground (
                arith,
                claims-enter_all f fs (enter_at g (vs g) out),
                claims-enter_at (vs g) f g out,
              )
        ]
    | inr e ↦
        ground
          (arith, claims-enter_all f fs (enter_at g (vs g) out), claims-enter_at (vs g) f g out)
  ]

  module _ (list : MergeOutcome → List Field) (flag : Verdict → Bool)
      (pushes : (g : Field) (c : FieldClaim) (v : Verdict) (out : MergeOutcome)
        → list (enter g c v out) ≡ push_if (flag v) g (list out)) where
    mem-enter_at :
        (o : Option (FieldClaim × Verdict)) (f g : Field) (out : MergeOutcome)
        → mem_field f (list (enter_at g o out))
          ≡ (mem_field f (list out) || (flag_of flag o && field_eq g f))
    unfolding enter_at
    mem-enter_at none f g out = ground arith
    mem-enter_at (some (c, v)) f g out =
        rw (pushes g c v out) (mem_field-push_if (flag v) f g (list out))

    -- A list of the outcome holds the visited fields whose verdicts have the flag.
    pub mem-enter_all :
        (f : Field) (fs : List Field) (out : MergeOutcome)
        → mem_field f (list (enter_all vs fs out))
          ≡ (mem_field f (list out) || (mem_field f fs && flag_of flag (vs f)))
    unfolding enter_all mem_field
    mem-enter_all f [] out = ground arith
    mem-enter_all f (g ∷ fs) out = elim (Bool-cases (field_eq g f)) [
      | inl e ↦
          let same : flag_of flag (vs g) ≡ flag_of flag (vs f) =
            ap (λ x. flag_of flag (vs x)) ((field_eq_iff g f).0 e) in
          ground
            (arith, mem-enter_all f fs (enter_at g (vs g) out), mem-enter_at (vs g) f g out, same)
      | inr e ↦
          ground (arith, mem-enter_all f fs (enter_at g (vs g) out), mem-enter_at (vs g) f g out)
    ]
