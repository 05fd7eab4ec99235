-- ===== src/Sources/Slug.antt =====
-- The slug pattern of core/sources.ts against a grammar.
use mathlib.Core.List.{append-nil, append_assoc}
use monster_paws.Prelude.{
  ℕ, Text, ◌≡◌, refl, ◌⊎◌, inl, inr, ◌↔◌, ◌≢◌, Bool, true, false, [], ◌∷◌, ◌++◌, arith, Bool-cases,
  All, All-append, ◌≤◌,
}
use monster_paws.Sources.{is_slug_char, slug_run, is_valid_slug}

-- A lower-case letter or a digit.
abbrev pub IsSlugChar : ℕ → Type 0
IsSlugChar c = ((b'a' ≤ c) × (c ≤ b'z')) ⊎ ((b'0' ≤ c) × (c ≤ b'9'))

abbrev pub IsWord : Text → Type 0
IsWord w = (w ≢ []) × All IsSlugChar w

-- Words joined by single dashes.
pub data IsSlug : Text → Type 0 where
  word : (s : Text) → IsWord s → IsSlug s
  dashed : (s w r : Text) → IsWord w → IsSlug r → s ≡ w ++ b'-' ∷ r → IsSlug s

is_slug_char_iff : (c : ℕ) → (is_slug_char c ≡ true) ↔ IsSlugChar c
unfolding is_slug_char
is_slug_char_iff c = (λ h. ground arith, λ h. ground arith)

snoc-IsWord : (w : Text) (c : ℕ) → All IsSlugChar w → IsSlugChar c → IsWord (w ++ c ∷ [])
snoc-IsWord [] c h k = (λ e. cc, (k, tt))
snoc-IsWord (x ∷ w) c h k = (λ e. cc, All-append IsSlugChar (x ∷ w) (c ∷ []) h (k, tt))

slug_run-IsSlug :
    (s : Text)
    → ((w : Text) → IsWord w → slug_run true s ≡ true → IsSlug (w ++ s))
      × (slug_run false s ≡ true → IsSlug s)
unfolding slug_run
slug_run-IsSlug [] = (λ w h _. rw append-nil (word w h), λ e. cc)
slug_run-IsSlug (c ∷ s) = elim (Bool-cases (is_slug_char c)) [
  | inl char ↦ (
    λ w h e. rw (← append_assoc w (c ∷ []) s) (
        (slug_run-IsSlug s).0 (w ++ c ∷ []) (snoc-IsWord w c h.1 ((is_slug_char_iff c).0 char))
          (ground arith)),
    λ e.
        (slug_run-IsSlug s).0 (c ∷ []) (snoc-IsWord [] c tt ((is_slug_char_iff c).0 char))
          (ground arith),
  )
  | inr dash ↦ (
    λ w h e.
        let at : c ≡ b'-' = ground arith in
        rw at (dashed _ w s h ((slug_run-IsSlug s).1 (ground arith)) refl),
    λ e. absurd (ground arith),
  )
]

slug_run-word :
    (b : Bool) (c : ℕ) (w r : Text)
    → All IsSlugChar (c ∷ w)
    → slug_run b (c ∷ w ++ r) ≡ slug_run true r
unfolding slug_run
slug_run-word b c [] r h = ground (arith, is_slug_char_iff c)
slug_run-word b c (d ∷ w) r h = ground (arith, is_slug_char_iff c, slug_run-word true d w r h.1)

IsSlug-slug_run : {s : Text} → IsSlug s → slug_run false s ≡ true
unfolding slug_run is_slug_char
IsSlug-slug_run (word [] h) = absurd (h.0 refl)
IsSlug-slug_run (word (c ∷ s) h) =
    let run : slug_run false (c ∷ s ++ []) ≡ true = slug_run-word false c s [] h.1 in
    rw append-nil at run
IsSlug-slug_run (dashed s [] r h k e) = absurd (h.0 refl)
IsSlug-slug_run (dashed s (c ∷ w) r h k e) =
    rw (e, slug_run-word false c w (b'-' ∷ r) h.1) (ground (arith, IsSlug-slug_run k))

-- The slug pattern accepts a text exactly when the text is one or more non-empty groups of
-- lower-case letters and digits, joined by single dashes.
pub is_valid_slug-iff-IsSlug : (s : Text) → (is_valid_slug s ≡ true) ↔ IsSlug s
unfolding is_valid_slug
is_valid_slug-iff-IsSlug s = ((slug_run-IsSlug s).1, IsSlug-slug_run)
