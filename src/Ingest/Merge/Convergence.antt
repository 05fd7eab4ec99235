-- ===== src/Ingest/Merge/Convergence.antt =====
-- Observations that arrive in another order merge to the same claims.
use mathlib.Core.Path.{fun_ext}
use monster_paws.Prelude.{
  ℕ, ◌≡◌, ◌≢◌, refl, sym, ◌∙◌, subst, ◌⊎◌, inl, inr, Option, none, some, Option-cases,
}
use monster_paws.Result.{ok}
use monster_paws.Trust.Order.{
  Stronger, Stronger-trans, Stronger-irrefl, Stronger-total, Stronger-split,
}
use monster_paws.Ingest.Fields.{Field, FieldClaim, AnimalClaims}
use monster_paws.Ingest.Merge.{MergeOutcome, competing, merge_claims}
use monster_paws.Ingest.Merge.Slot.{Settles}
use monster_paws.Ingest.Merge.Outcome.{AllKnown, merge_claims-FieldOutcome}
use monster_paws.Ingest.Merge.Laws.{Settles-unique, merge_claims-AllKnown}

-- A claim that is there names its raw row.
abbrev pub HasRow : Option FieldClaim → Type 0
HasRow none = Unit
HasRow (some c) = (x : ℕ) × (c.raw_id ≡ some x)

-- A claim that is there comes from the raw row `x`.
abbrev FromRow : ℕ → Option FieldClaim → Type 0
FromRow x none = Unit
FromRow x (some c) = c.raw_id ≡ some x

competing-FromRow : (x : ℕ) (o : Option FieldClaim) → FromRow x (competing x o)
unfolding competing
competing-FromRow x none = tt
competing-FromRow x (some r) = elim (Option-cases r.value) [
  | inl e ↦ rw (e, competing) tt
  | inr (v, e) ↦ rw (e, competing)
]

Stronger-asym : (a b : FieldClaim) → Stronger a b → ¬ Stronger b a
Stronger-asym a b s t = Stronger-irrefl a (Stronger-trans a b a s t)

-- Two claims of which one is the stronger, the weaker or the stronger first.
settle_two :
    (a b : FieldClaim) (r s : Option FieldClaim)
    → Stronger a b ⊎ Stronger b a
    → Settles (some a) (some b) r
    → Settles (some b) (some a) s
    → r ≡ s
settle_two a b r s t (inl (_, e)) (inr (_, f)) = e ∙ sym f
settle_two a b r s t (inr (_, e)) (inl (_, f)) = e ∙ sym f
settle_two a b r s t (inl (u, e)) (inl (w, f)) = absurd (Stronger-asym a b u w)
settle_two a b r s (inl t) (inr (n, e)) (inr (m, f)) = absurd (n t)
settle_two a b r s (inr t) (inr (n, e)) (inr (m, f)) = absurd (m t)

module _ (x y : ℕ) (apart : x ≢ y) where
  -- A held claim and two more, from different rows.
  settle_three :
      (h a b : FieldClaim) (r₁ r₂ s₁ s₂ : Option FieldClaim)
      → HasRow (some h)
      → FromRow x (some a)
      → FromRow y (some b)
      → Settles (some h) (some a) r₁
      → Settles r₁ (some b) r₂
      → Settles (some h) (some b) s₁
      → Settles s₁ (some a) s₂
      → r₂ ≡ s₂
  settle_three h a b r₁ r₂ s₁ s₂ (z, ez) ea eb (inl (u, e)) f (inl (w, g)) k =
      let f' : Settles (some h) (some b) r₂ = subst (λ t. Settles t (some b) r₂) e f in
      let k' : Settles (some h) (some a) s₂ = subst (λ t. Settles t (some a) s₂) g k in
      Settles-unique (some h) (some b) r₂ (some h) f' (inl (w, refl))
      ∙ Settles-unique (some h) (some a) (some h) s₂ (inl (u, refl)) k'
  settle_three h a b r₁ r₂ s₁ s₂ (z, ez) ea eb (inl (u, e)) f (inr (n, g)) k =
      let f' : Settles (some h) (some b) r₂ = subst (λ t. Settles t (some b) r₂) e f in
      let k' : Settles (some b) (some a) s₂ = subst (λ t. Settles t (some a) s₂) g k in
      let over : Stronger b a = elim (Stronger-split h a b z x y ez ea eb u) [
        | inl t ↦ absurd (n t)
        | inr t ↦ t
      ] in
      Settles-unique (some h) (some b) r₂ (some b) f' (inr (n, refl))
      ∙ Settles-unique (some b) (some a) (some b) s₂ (inl (over, refl)) k'
  settle_three h a b r₁ r₂ s₁ s₂ (z, ez) ea eb (inr (n, e)) f (inl (w, g)) k =
      let f' : Settles (some a) (some b) r₂ = subst (λ t. Settles t (some b) r₂) e f in
      let k' : Settles (some h) (some a) s₂ = subst (λ t. Settles t (some a) s₂) g k in
      let over : Stronger a b = elim (Stronger-split h b a z y x ez eb ea w) [
        | inl t ↦ absurd (n t)
        | inr t ↦ t
      ] in
      Settles-unique (some a) (some b) r₂ (some a) f' (inl (over, refl))
      ∙ Settles-unique (some h) (some a) (some a) s₂ (inr (n, refl)) k'
  settle_three h a b r₁ r₂ s₁ s₂ (z, ez) ea eb (inr (n, e)) f (inr (m, g)) k =
      let f' : Settles (some a) (some b) r₂ = subst (λ t. Settles t (some b) r₂) e f in
      let k' : Settles (some b) (some a) s₂ = subst (λ t. Settles t (some a) s₂) g k in
      settle_two a b r₂ s₂ (Stronger-total a b x y ea eb apart) f' k'

  Settles-commute :
      (h c d r₁ r₂ s₁ s₂ : Option FieldClaim)
      → HasRow h
      → FromRow x c
      → FromRow y d
      → Settles h c r₁
      → Settles r₁ d r₂
      → Settles h d s₁
      → Settles s₁ c s₂
      → r₂ ≡ s₂
  Settles-commute h none d r₁ r₂ s₁ s₂ eh ec ed e f g k =
      Settles-unique h d r₂ s₁ (subst (λ t. Settles t d r₂) e f) g ∙ sym k
  Settles-commute h (some a) none r₁ r₂ s₁ s₂ eh ec ed e f g k =
      f ∙ Settles-unique h (some a) r₁ s₂ e (subst (λ t. Settles t (some a) s₂) g k)
  Settles-commute none (some a) (some b) r₁ r₂ s₁ s₂ eh ec ed e f g k =
      settle_two a b r₂ s₂ (Stronger-total a b x y ec ed apart)
        (subst (λ t. Settles t (some b) r₂) e f) (subst (λ t. Settles t (some a) s₂) g k)
  Settles-commute (some h) (some a) (some b) r₁ r₂ s₁ s₂ eh ec ed e f g k =
      settle_three h a b r₁ r₂ s₁ s₂ eh ec ed e f g k

-- Two observations from different raw rows leave an animal with the same claims in whichever
-- order they are merged, if all claims are of known sources and the held ones name their rows.
pub merge_claims-commute :
    (current first second : AnimalClaims) (x y : ℕ)
    → AllKnown current
    → AllKnown first
    → AllKnown second
    → ((f : Field) → HasRow (current f))
    → x ≢ y
    → (o₁ o₂ p₁ p₂ : MergeOutcome) × (merge_claims current first x ≡ ok o₁)
      × (merge_claims o₁.claims second y ≡ ok o₂)
      × (merge_claims current second y ≡ ok p₁)
      × (merge_claims p₁.claims first x ≡ ok p₂)
      × (o₂.claims ≡ p₂.claims)
merge_claims-commute current first second x y k kf ks rows apart =
    let (o₁, e₁, a₁) = merge_claims-FieldOutcome current first x k kf in
    let (p₁, e₃, a₃) = merge_claims-FieldOutcome current second y k ks in
    let (o₂, e₂, a₂) =
      merge_claims-FieldOutcome o₁.claims second y (merge_claims-AllKnown current first x k kf e₁)
        ks in
    let (p₂, e₄, a₄) =
      merge_claims-FieldOutcome p₁.claims first x (merge_claims-AllKnown current second y k ks e₃)
        kf in
    (
      o₁,
      o₂,
      p₁,
      p₂,
      e₁,
      e₂,
      e₃,
      e₄,
      fun_ext λ f.
          Settles-commute x y apart (current f) _ _ _ _ _ _ (rows f) (competing-FromRow x (first f))
            (competing-FromRow y (second f)) (a₁ f).settles (a₂ f).settles (a₃ f).settles
            (a₄ f).settles,
    )
