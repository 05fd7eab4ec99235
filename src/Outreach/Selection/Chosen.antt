-- ===== src/Outreach/Selection/Chosen.antt =====
-- What a selected wave holds.
use monster_paws.Prelude.{
  take, ℕ, zero, suc, ◌≤◌, ◌≡◌, refl, ap, ◌⊎◌, inl, inr, Text, Bool, true, false, none, not, ◌&&◌,
  Option, some, List, [], ◌∷◌, keep_if, All, All-mono, All-kept, Any, length, arith, Bool-cases,
  Option-cases,
}
use monster_paws.Ingest.Corpus.{sort}
use monster_paws.Ingest.Corpus.Sort.{All-sort, sort-All}
use monster_paws.Shelters.{includes}
use monster_paws.Outreach.Guard.{is_wave_name}
use monster_paws.Outreach.Selection.{
  OutreachShelter, Region, NamedShelter, is_missing, is_empty, WaveSpec, chosen, inside_of, pick,
  select_wave, limit_of, more_visible,
}

module _ {A : Type 0} where
  length-take : (n : ℕ) (xs : List A) → length (take n xs) ≤ n
  unfolding take
  length-take zero xs = omega arith
  length-take (suc n) [] = omega arith
  length-take (suc n) (x ∷ xs) = omega (arith, length-take n xs)

  All-take : (P : A → Type 0) (n : ℕ) (xs : List A) → All P xs → All P (take n xs)
  unfolding take
  All-take P zero xs h = tt
  All-take P (suc n) [] h = tt
  All-take P (suc n) (x ∷ xs) h = (h.0, All-take P n xs h.1)

  -- Either the list was taken whole, or as much of it as was asked for.
  take-whole : (n : ℕ) (xs : List A) → (take n xs ≡ xs) ⊎ (length (take n xs) ≡ n)
  unfolding take
  take-whole zero xs = inr refl
  take-whole (suc n) [] = inl refl
  take-whole (suc n) (x ∷ xs) = elim (take-whole n xs) [
    | inl e ↦ inl (ap (λ l. x ∷ l) e)
    | inr e ↦ inr (omega (arith, e))
  ]

  All-self : (xs : List A) → All (λ x. Any (λ y. y ≡ x) xs) xs
  All-self [] = tt
  All-self (x ∷ xs) = (inl refl, All-mono _ _ (λ y h. inr h) xs (All-self xs))

  All-keep_if :
      (P : A → Type 0) (test : A → Bool) (xs : List A)
      → All P xs
      → All (λ x. (test x ≡ true) × P x) (keep_if test xs)
  unfolding keep_if
  All-keep_if P test [] h = tt
  All-keep_if P test (x ∷ xs) h = elim (Bool-cases (test x)) [
    | inl stays ↦ rw stays ((stays, h.0), All-keep_if P test xs h.1)
    | inr out ↦ rw out (All-keep_if P test xs h.1)
  ]

-- What is asked of a wave's shelters.
abbrev pub wanted : (OutreachShelter → Bool) → List Text → OutreachShelter → Bool
wanted inside approached s = inside s && not (includes s.shelter_external_id approached)

-- A place, a state or a shelter is named.
abbrev pub HasRegion : WaveSpec → Type 0
HasRegion spec =
    ((region : Region) × (spec.within ≡ some region))
    ⊎ ((state : Text) × (states : List Text) × (spec.states ≡ some (state ∷ states)))
    ⊎ ((s : NamedShelter) × (named : List NamedShelter) × (spec.shelters ≡ some (s ∷ named)))

is_missing-some : (o : Option Region) → is_missing o ≡ false → (region : Region) × (o ≡ some region)
unfolding is_missing
is_missing-some none e = absurd (cc)
is_missing-some (some region) e = (region, refl)

is_empty-some :
    {A : Type 0} (o : Option (List A))
    → is_empty o ≡ false
    → (x : A) × (xs : List A) × (o ≡ some (x ∷ xs))
unfolding is_empty
is_empty-some none e = absurd (cc)
is_empty-some (some []) e = absurd (cc)
is_empty-some (some (x ∷ xs)) e = (x, xs, refl)

has_region :
    (spec : WaveSpec)
    → (is_missing spec.within && (is_empty spec.states && is_empty spec.shelters)) ≡ false
    → HasRegion spec
has_region spec e = elim (Bool-cases (is_missing spec.within)) [
  | inr placed ↦ inl (is_missing-some spec.within placed)
  | inl missing ↦ elim (Bool-cases (is_empty spec.states)) [
    | inr some_states ↦ inr (inl (is_empty-some spec.states some_states))
    | inl no_states ↦ inr (inr (is_empty-some spec.shelters (ground arith)))
  ]
]

module _ {Point : Type 0} (zip_point : Text → Option Point) (is_within : Point → Point → ℕ → Bool)
    (upper : Text → Text) (precedes : Text → Text → Bool) where
  -- A wave that is chosen has a proper name and names a region, which is a place, some states or
  -- some shelters; its limit is one to 200, and it holds no more shelters than that: shelters of
  -- the list that lie inside and have not been written to. If it leaves one of these out, it has
  -- reached its limit.
  pub select_wave-chosen :
      (shelters : List OutreachShelter) (spec : WaveSpec) (approached : List Text)
      (ws : List OutreachShelter)
      → select_wave zip_point is_within upper precedes shelters spec approached ≡ chosen ws
      → (inside : OutreachShelter → Bool) × (inside_of zip_point is_within upper precedes spec
          ≡ some inside)
        × (is_wave_name spec.name ≡ true)
        × HasRegion spec
        × (1 ≤ limit_of spec.limit)
        × (limit_of spec.limit ≤ 200)
        × (length ws ≤ limit_of spec.limit)
        × All (λ s. (wanted inside approached s ≡ true) × Any (λ t. t ≡ s) shelters) ws
        × ((All (λ s. wanted inside approached s ≡ true → Any (λ t. t ≡ s) ws) shelters)
            ⊎ (length ws ≡ limit_of spec.limit))
  unfolding select_wave pick
  select_wave-chosen shelters spec approached ws h =
      elim (Option-cases (inside_of zip_point is_within upper precedes spec)) [
        | inl unplaced ↦ absurd (ground arith)
        | inr (inside, e) ↦
            let kept = keep_if (wanted inside approached) shelters in
            let ordered = sort (more_visible zip_point is_within upper precedes) kept in
            let parts : (1 ≤ limit_of spec.limit)
                × (limit_of spec.limit ≤ 200)
                × ((is_missing spec.within && (is_empty spec.states && is_empty spec.shelters))
                    ≡ false)
                × (is_wave_name spec.name ≡ true)
                × (take (limit_of spec.limit) ordered ≡ ws) =
              ground arith in
            let (some_wanted, few, placed, named, taken) = parts in
            let of_list : All (λ s. (wanted inside approached s ≡ true) × Any (λ t. t ≡ s) shelters)
                ordered =
              All-sort _ _ kept (
                All-keep_if (λ s. Any (λ t. t ≡ s) shelters) (wanted inside approached) shelters
                  (All-self shelters)) in
            (
              inside,
              e,
              named,
              has_region spec placed,
              some_wanted,
              few,
              rw (← taken) (length-take (limit_of spec.limit) ordered),
              rw (← taken) (All-take _ (limit_of spec.limit) ordered of_list),
              elim (take-whole (limit_of spec.limit) ordered) [
                | inr full ↦ inr (rw (← taken) full)
                | inl whole ↦ inl (
                    rw (← taken) (
                      rw whole (
                        All-kept (λ s. Any (λ t. t ≡ s) ordered) (wanted inside approached) shelters
                          (sort-All _ _ kept (All-self ordered)))))
              ],
            )
      ]
