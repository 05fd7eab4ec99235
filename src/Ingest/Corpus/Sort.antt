-- ===== src/Ingest/Corpus/Sort.antt =====
-- A sorted list holds what the list held.
use monster_paws.Prelude.{
  ◌≡◌, refl, inl, inr, Bool, List, [], ◌∷◌, length, keep_if, All, arith, Bool-cases,
}
use monster_paws.Ingest.Corpus.{insert_sorted, sort}

module _ {A : Type 0} (before : A → A → Bool) where
  All-insert_sorted :
      (P : A → Type 0) (a : A) (xs : List A) → P a → All P xs → All P (insert_sorted before a xs)
  unfolding insert_sorted
  All-insert_sorted P a [] h hs = (h, tt)
  All-insert_sorted P a (x ∷ xs) h hs = elim (Bool-cases (before a x)) [
    | inl first ↦ rw first (h, hs)
    | inr later ↦ rw later (hs.0, All-insert_sorted P a xs h hs.1)
  ]

  insert_sorted-All :
      (P : A → Type 0) (a : A) (xs : List A) → All P (insert_sorted before a xs) → P a × All P xs
  unfolding insert_sorted
  insert_sorted-All P a [] h = h
  insert_sorted-All P a (x ∷ xs) h = elim (Bool-cases (before a x)) [
    | inl first ↦ rw first at h
    | inr later ↦
        let h' : P x × All P (insert_sorted before a xs) = rw later at h in
        let (ha, hs) = insert_sorted-All P a xs h'.1 in (ha, (h'.0, hs))
  ]

  pub All-sort : (P : A → Type 0) (xs : List A) → All P xs → All P (sort before xs)
  unfolding sort
  All-sort P [] h = h
  All-sort P (x ∷ xs) h = All-insert_sorted P x (sort before xs) h.0 (All-sort P xs h.1)

  pub sort-All : (P : A → Type 0) (xs : List A) → All P (sort before xs) → All P xs
  unfolding sort
  sort-All P [] h = h
  sort-All P (x ∷ xs) h =
      let (hx, hs) = insert_sorted-All P x (sort before xs) h in (hx, sort-All P xs hs)

  length-keep_if-insert_sorted :
      (test : A → Bool) (a : A) (xs : List A)
      → length (keep_if test (insert_sorted before a xs)) ≡ length (keep_if test (a ∷ xs))
  unfolding insert_sorted keep_if
  length-keep_if-insert_sorted test a [] = refl
  length-keep_if-insert_sorted test a (x ∷ xs) =
      ground (arith, length-keep_if-insert_sorted test a xs)

  pub length-keep_if-sort :
      (test : A → Bool) (xs : List A)
      → length (keep_if test (sort before xs)) ≡ length (keep_if test xs)
  unfolding sort keep_if
  length-keep_if-sort test [] = refl
  length-keep_if-sort test (x ∷ xs) =
      ground
        (arith, length-keep_if-insert_sorted test x (sort before xs), length-keep_if-sort test xs)
