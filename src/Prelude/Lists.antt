-- ===== src/Prelude/Lists.antt =====
-- Lists measured by native numbers, and predicates on lists by recursion.
use Prim.Native.Nat.{ℕ, zero, suc, ◌+◌, ◌≤◌}
use mathlib.Core.Path.{◌≡◌, refl, ap}
use mathlib.Core.Logic.{◌⊎◌, inl, inr}
use mathlib.Core.Bool.{Bool, true}
use mathlib.Core.List.{List, [], ◌∷◌, ◌++◌}
use mathlib.Core.Option.{Option, none, some}
use native.Mathlib.Omega.{arith}
use monster_paws.Prelude.Tests.{Bool-cases, if◌then◌else◌}

module _ {ℓ} {A : Type ℓ} where
  abbrev pub length : List A → ℕ
  length [] = 0
  length (x ∷ xs) = suc (length xs)

  pub length-append : (xs ys : List A) → length (xs ++ ys) ≡ length xs + length ys
  length-append [] ys = omega arith
  length-append (x ∷ xs) ys = omega (arith, length-append xs ys)

  -- Every element satisfies `P`.
  abbrev pub All {κ} : (A → Type κ) → List A → Type κ
  All P [] = Unit
  All P (x ∷ xs) = P x × All P xs

  -- Some element satisfies `P`.
  abbrev pub Any : (A → Type 0) → List A → Type 0
  Any P [] = ⊥
  Any P (x ∷ xs) = P x ⊎ Any P xs

  pub All-append {κ} : (P : A → Type κ) (xs ys : List A) → All P xs → All P ys → All P (xs ++ ys)
  All-append P [] ys h k = k
  All-append P (x ∷ xs) ys h k = (h.0, All-append P xs ys h.1 k)

  pub All-mono {κ} :
      (P Q : A → Type κ) → ((x : A) → P x → Q x) → (xs : List A) → All P xs → All Q xs
  All-mono P Q f [] h = tt
  All-mono P Q f (x ∷ xs) h = (f x h.0, All-mono P Q f xs h.1)

  -- `Array.prototype.filter` with a test.
  unfoldable pub keep_if : (A → Bool) → List A → List A
  keep_if test [] = []
  keep_if test (x ∷ xs) = let rest = keep_if test xs in if test x then x ∷ rest else rest

  pub length-keep_if : (test : A → Bool) (xs : List A) → length (keep_if test xs) ≤ length xs
  unfolding keep_if
  length-keep_if test [] = omega arith
  length-keep_if test (x ∷ xs) = ground (arith, length-keep_if test xs)

  pub keep_if-append :
      (test : A → Bool) (xs ys : List A)
      → keep_if test (xs ++ ys) ≡ keep_if test xs ++ keep_if test ys
  unfolding keep_if
  keep_if-append test [] ys = refl
  keep_if-append test (x ∷ xs) ys = ground (arith, keep_if-append test xs ys)

  -- What passes a test in a list whose kept elements all satisfy `P` satisfies it.
  pub All-kept {κ} :
      (P : A → Type κ) (test : A → Bool) (xs : List A)
      → All P (keep_if test xs)
      → All (λ x. test x ≡ true → P x) xs
  unfolding keep_if
  All-kept P test [] h = tt
  All-kept P test (x ∷ xs) h = elim (Bool-cases (test x)) [
    | inl stays ↦
        let h' : P x × All P (keep_if test xs) = rw stays at h in
        (λ _. h'.0, All-kept P test xs h'.1)
    | inr out ↦ (λ passes. absurd (cc (passes, out)), All-kept P test xs (rw out at h))
  ]

  -- `Array.prototype.findLast`.
  unfoldable pub find_last : (A → Bool) → List A → Option A
  find_last test [] = none
  find_last test (x ∷ xs) = elim (find_last test xs) [
    | some y ↦ some y
    | none ↦ if test x then some x else none
  ]

module _ {ℓ} {A : Type ℓ} where
  -- `xs.slice(0, n)` and `xs.slice(n)`.
  unfoldable pub take : ℕ → List A → List A
  take zero xs = []
  take (suc n) [] = []
  take (suc n) (x ∷ xs) = x ∷ take n xs

  unfoldable pub drop : ℕ → List A → List A
  drop zero xs = xs
  drop (suc n) [] = []
  drop (suc n) (x ∷ xs) = drop n xs

  pub take-drop : (n : ℕ) (xs : List A) → take n xs ++ drop n xs ≡ xs
  unfolding take drop
  take-drop zero xs = refl
  take-drop (suc n) [] = refl
  take-drop (suc n) (x ∷ xs) = ap (λ l. x ∷ l) (take-drop n xs)

  pub length-drop : (n : ℕ) (xs : List A) → length (drop n xs) ≤ length xs
  unfolding drop
  length-drop zero xs = omega arith
  length-drop (suc n) [] = omega arith
  length-drop (suc n) (x ∷ xs) = omega (arith, length-drop n xs)
