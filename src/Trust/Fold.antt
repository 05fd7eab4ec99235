-- ===== src/Trust/Fold.antt =====
-- Folding a set of claims down to one.
use monster_paws.Prelude.{◌≡◌, refl, ◌⊎◌, inl, inr, some, List, [], ◌∷◌, All, Any, subst, sym}
use monster_paws.Result.{ok}
use monster_paws.Sources.Identity.{IsKnown}
use monster_paws.Trust.{Claim, resolve_claims, resolve_from}
use monster_paws.Trust.Order.{Stronger, Stronger-trans, Stronger-irrefl, resolve_claim-Stronger}

module _ {V : Type 0} where
  abbrev pub FromKnown : List (Claim V) → Type 0
  FromKnown = All (λ c. IsKnown c.source)

  -- What a fold from `w` over `rest` ends with: `w` itself or a stronger claim of `rest`, which no
  -- claim of the two beats.
  abbrev Ends : Claim V → List (Claim V) → Claim V → Type 0
  Ends w rest v =
      ((v ≡ w) ⊎ (Stronger v w × Any (λ x. x ≡ v) rest)) × All (λ x. ¬ Stronger x v) (w ∷ rest)

  Ends-Stronger :
      (w next : Claim V) (rest : List (Claim V)) (v : Claim V)
      → Stronger next w
      → Ends next rest v
      → Ends w (next ∷ rest) v
  Ends-Stronger w next rest v s (inl e, h) =
      let t : Stronger v w = subst (λ x. Stronger x w) (sym e) s in
      (inr (t, inl (sym e)), (λ u. Stronger-irrefl w (Stronger-trans w v w u t), h))
  Ends-Stronger w next rest v s (inr (t', m), h) =
      let t : Stronger v w = Stronger-trans v next w t' s in
      (inr (t, inr m), (λ u. Stronger-irrefl w (Stronger-trans w v w u t), h))

  Ends-kept :
      (w next : Claim V) (rest : List (Claim V)) (v : Claim V)
      → ¬ Stronger next w
      → Ends w rest v
      → Ends w (next ∷ rest) v
  Ends-kept w next rest v s (inl e, h) =
      (inl e, (h.0, (subst (λ x. ¬ Stronger next x) (sym e) s, h.1)))
  Ends-kept w next rest v s (inr (t, m), h) =
      (inr (t, inr m), (h.0, (λ u. s (Stronger-trans next v w u t), h.1)))

  resolve_from-Ends :
      (w : Claim V) (rest : List (Claim V))
      → FromKnown (w ∷ rest)
      → (v : Claim V) × (resolve_from w rest ≡ ok v) × Ends w rest v
  unfolding resolve_from
  resolve_from-Ends w [] k = (w, refl, (inl refl, (Stronger-irrefl w, tt)))
  resolve_from-Ends w (next ∷ rest) k = elim (resolve_claim-Stronger w next k.0 k.1.0) [
    | inl (s, e) ↦
        let (v, f, ends) = resolve_from-Ends next rest k.1 in
        (v, rw e f, Ends-Stronger w next rest v s ends)
    | inr (s, e) ↦
        let (v, f, ends) = resolve_from-Ends w rest (k.0, k.1.1) in
        (v, rw e f, Ends-kept w next rest v s ends)
  ]

  -- Claims of known sources, at least one of them, fold to one of these claims, and none of them
  -- is stronger than it.
  pub resolve_claims-strongest :
      (first : Claim V) (rest : List (Claim V))
      → FromKnown (first ∷ rest)
      → (v : Claim V) × (resolve_claims (first ∷ rest) ≡ ok (some v))
        × Any (λ x. x ≡ v) (first ∷ rest)
        × All (λ x. ¬ Stronger x v) (first ∷ rest)
  unfolding resolve_claims
  resolve_claims-strongest first rest k =
      let (v, f, (origin, best)) = resolve_from-Ends first rest k in
      (v, rw f, elim origin [ inl e ↦ inl (sym e) | inr (_, m) ↦ inr m ], best)
