-- ===== src/Ingest/Corpus/Shuffle.antt =====
-- The sort of a list does not depend on the list's order, where any two elements are told apart.
use mathlib.Core.List.{Permᴰ}
use monster_paws.Prelude.{
  ◌≡◌, refl, ap, ◌∙◌, subst, inl, inr, Bool, true, false, not, List, [], ◌∷◌, ◌++◌, map, All,
  All-append, arith, Bool-cases,
}
use monster_paws.Ingest.Corpus.{insert_sorted, sort}

module _ {A : Type 0} where
  pub All-Permᴰ : (P : A → Type 0) {xs ys : List A} → Permᴰ xs ys → All P xs → All P ys
  All-Permᴰ P Permᴰ.nil h = h
  All-Permᴰ P (Permᴰ.cons e p) h = (subst P e h.0, All-Permᴰ P p h.1)
  All-Permᴰ P (Permᴰ.swap e f) h = (subst P f h.1.0, (subst P e h.0, h.1.1))
  All-Permᴰ P (Permᴰ.trans p q) h = All-Permᴰ P q (All-Permᴰ P p h)

  pub map-Permᴰ :
      {B : Type 0} (f : A → B) {xs ys : List A} → Permᴰ xs ys → Permᴰ (map f xs) (map f ys)
  map-Permᴰ f Permᴰ.nil = Permᴰ.nil
  map-Permᴰ f (Permᴰ.cons e p) = Permᴰ.cons (ap f e) (map-Permᴰ f p)
  map-Permᴰ f (Permᴰ.swap e g) = Permᴰ.swap (ap f e) (ap f g)
  map-Permᴰ f (Permᴰ.trans p q) = Permᴰ.trans (map-Permᴰ f p) (map-Permᴰ f q)

module _ {A : Type 0} (before : A → A → Bool) where
  -- One of the two stands in front of the other.
  abbrev pub ToldApart : A → A → Type 0
  ToldApart a b = before a b ≡ not (before b a)

  abbrev pub AllToldApart : List A → Type 0
  AllToldApart [] = Unit
  AllToldApart (x ∷ xs) = All (ToldApart x) xs × AllToldApart xs

  pub append-AllToldApart :
      (xs ys : List A)
      → AllToldApart xs
      → AllToldApart ys
      → All (λ x. All (ToldApart x) ys) xs
      → AllToldApart (xs ++ ys)
  append-AllToldApart [] ys h k cross = k
  append-AllToldApart (x ∷ xs) ys h k cross =
      (All-append (ToldApart x) xs ys h.0 cross.0, append-AllToldApart xs ys h.1 k cross.1)

  ToldApart-sym : (a b : A) → ToldApart a b → ToldApart b a
  ToldApart-sym a b h = elim (Bool-cases (before b a)) [
    | inl first ↦ ground arith
    | inr later ↦ ground arith
  ]

  module _
      (transitive : (a b c : A) → before a b ≡ true → before b c ≡ true → before a c ≡ true) where
    insert_sorted_comm :
        (a b : A) (xs : List A)
        → ToldApart a b
        → insert_sorted before a (insert_sorted before b xs)
          ≡ insert_sorted before b (insert_sorted before a xs)
    unfolding insert_sorted
    insert_sorted_comm a b [] apart = elim (Bool-cases (before b a)) [
      | inl first ↦ let e : before a b ≡ false = ground arith in rw (first, e) refl
      | inr later ↦ let e : before a b ≡ true = ground arith in rw (later, e) refl
    ]
    insert_sorted_comm a b (x ∷ xs) apart =
        let ih = insert_sorted_comm a b xs apart in
        elim (Bool-cases (before a x)) [
          | inl ax ↦ elim (Bool-cases (before b x)) [
            | inl bx ↦ elim (Bool-cases (before b a)) [
              | inl ba ↦
                  let ab : before a b ≡ false = ground arith in
                  rw (ax, bx, ab, insert_sorted, ba) (rw ax refl)
              | inr nba ↦
                  let ab : before a b ≡ true = ground arith in
                  rw (ax, bx, ab, insert_sorted, nba) refl
            ]
            | inr nbx ↦
                let nba : before b a ≡ false = ground (arith, transitive b a x) in
                rw (ax, nbx, insert_sorted, nba) (rw ax refl)
          ]
          | inr nax ↦ elim (Bool-cases (before b x)) [
            | inl bx ↦
                let nab : before a b ≡ false = ground (arith, transitive a b x) in
                rw (nax, bx, insert_sorted, nab) (rw nax refl)
            | inr nbx ↦ rw (nax, nbx, insert_sorted) (rw nax (ap (λ l. x ∷ l) ih))
          ]
        ]

    pub sort-Permᴰ :
        {xs ys : List A}
        → Permᴰ xs ys
        → AllToldApart xs
        → (sort before xs ≡ sort before ys) × AllToldApart ys
    unfolding sort
    sort-Permᴰ Permᴰ.nil h = (refl, h)
    sort-Permᴰ (Permᴰ.cons {a = a} {b = b} {l₁ = l} {l₂ = k} e p) h =
        let (same, told) = sort-Permᴰ p h.1 in
        (
          ap (λ x. insert_sorted before x (sort before l)) e ∙ ap (insert_sorted before b) same,
          (subst (λ x. All (ToldApart x) k) e (All-Permᴰ (ToldApart a) p h.0), told),
        )
    sort-Permᴰ (Permᴰ.swap {a = a} {b = b} {a' = a'} {b' = b'} {l = l} e f) h = (
      insert_sorted_comm a b (sort before l) h.0.0
          ∙ ap (λ x. insert_sorted before b (insert_sorted before x (sort before l))) e
          ∙ ap (λ x. insert_sorted before x (insert_sorted before b' (sort before l))) f,
      (
        (
          subst (λ x. ToldApart x b') f (subst (ToldApart b) e (ToldApart-sym a b h.0.0)),
          subst (λ x. All (ToldApart x) l) f h.1.0,
        ),
        (subst (λ x. All (ToldApart x) l) e h.0.1, h.1.1),
      ),
    )
    sort-Permᴰ (Permᴰ.trans p q) h =
        let (same, told) = sort-Permᴰ p h in
        let (same', told') = sort-Permᴰ q told in (same ∙ same', told')
