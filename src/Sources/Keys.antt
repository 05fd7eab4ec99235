-- ===== src/Sources/Keys.antt =====
-- The keys `<source>:<id>` of the records of known sources are apart.
use monster_paws.Prelude.{
  Text, codes, text_eq, ◌≡◌, ◌≢◌, ◌⊎◌, refl, sym, ap, ◌∙◌, Bool, true, false, none, some, [], ◌∷◌,
  ◌++◌, arith, Bool-cases, inl, inr, text_eq_iff,
}
use monster_paws.Sources.{
  Tier, is_slug_char, slug_run, is_valid_slug, scrape_prefix, fixed_source_tier,
}
use monster_paws.Ingest.Corpus.{key}
use monster_paws.Sources.Identity.{IsKnown, fixed, scrape}

-- No colon.
abbrev pub Plain : Text → Type 0
Plain [] = Unit
Plain (c ∷ cs) = (c ≢ b':') × Plain cs

-- The text before the first colon and the text after it are determined.
cancel : (a b x y : Text) → Plain a → Plain b → a ++ b':' ∷ x ≡ b ++ b':' ∷ y → (a ≡ b) × (x ≡ y)
cancel [] [] x y pa pb e = (refl, cc)
cancel [] (d ∷ b) x y pa pb e = absurd (ground (arith, e, pb.0))
cancel (c ∷ a) [] x y pa pb e = absurd (ground (arith, e, pa.0))
cancel (c ∷ a) (d ∷ b) x y pa pb e = let (f, g) = cancel a b x y pa.1 pb.1 (cc) in (ground arith, g)

slug_run-Plain : (started : Bool) (s : Text) → slug_run started s ≡ true → Plain s
unfolding slug_run is_slug_char
slug_run-Plain started [] h = tt
slug_run-Plain started (c ∷ s) h = (ground arith, slug_run-Plain (is_slug_char c) s (ground arith))

valid-Plain : (slug : Text) → is_valid_slug slug ≡ true → Plain slug
unfolding is_valid_slug
valid-Plain slug h = slug_run-Plain false slug h

-- The fixed sources.
fixed_cases :
    (s : Text) (t : Tier)
    → fixed_source_tier s ≡ some t
    → (s ≡ codes "shelterluv")
      ⊎ ((s ≡ codes "petango") ⊎ ((s ≡ codes "rescuegroups") ⊎ (s ≡ codes "manual")))
unfolding fixed_source_tier
fixed_cases s t h = elim (Bool-cases (text_eq s (codes "shelterluv"))) [
  | inl e ↦ inl ((text_eq_iff _ _).0 e)
  | inr n₁ ↦ elim (Bool-cases (text_eq s (codes "petango"))) [
    | inl e ↦ inr (inl ((text_eq_iff _ _).0 e))
    | inr n₂ ↦ elim (Bool-cases (text_eq s (codes "rescuegroups"))) [
      | inl e ↦ inr (inr (inl ((text_eq_iff _ _).0 e)))
      | inr n₃ ↦ elim (Bool-cases (text_eq s (codes "manual"))) [
        | inl e ↦ inr (inr (inr ((text_eq_iff _ _).0 e)))
        | inr n₄ ↦ absurd (cc (sym (rw (n₁, n₂, n₃, n₄) at h)))
      ]
    ]
  ]
]

fixed-Plain : (s : Text) (t : Tier) → fixed_source_tier s ≡ some t → Plain s
fixed-Plain s t h = elim (fixed_cases s t h) [
  | inl e ↦ rw e (omega arith)
  | inr (inl e) ↦ rw e (omega arith)
  | inr (inr (inl e)) ↦ rw e (omega arith)
  | inr (inr (inr e)) ↦ rw e (omega arith)
]

abbrev before_slug : Text
before_slug = codes "scrape"

fixed-scrape : (s : Text) (t : Tier) → fixed_source_tier s ≡ some t → s ≢ before_slug
unfolding fixed_source_tier text_eq
fixed-scrape s t h e =
    let no : fixed_source_tier before_slug ≡ none = refl in
    absurd (cc (sym (ap fixed_source_tier e ∙ no) ∙ h))

mixed :
    (s x slug y : Text) (t : Tier)
    → fixed_source_tier s ≡ some t
    → key s x ≡ key (scrape_prefix ++ slug) y
    → ⊥
unfolding key
mixed s x slug y t h e =
    fixed-scrape s t h
      (cancel s before_slug x (slug ++ b':' ∷ y) (fixed-Plain s t h) (omega arith) e).0

scraped :
    (a b x y : Text)
    → is_valid_slug a ≡ true
    → is_valid_slug b ≡ true
    → key (scrape_prefix ++ a) x ≡ key (scrape_prefix ++ b) y
    → (a ≡ b) × (x ≡ y)
unfolding key
scraped a b x y va vb e =
    let rest =
      cancel before_slug before_slug (a ++ b':' ∷ x) (b ++ b':' ∷ y) (omega arith) (omega arith)
        e in
    cancel a b x y (valid-Plain a va) (valid-Plain b vb) rest.1

-- Two records of known sources that have the same key are the same record.
pub key-injective : (s u x y : Text) → IsKnown s → IsKnown u → key s x ≡ key u y → (s ≡ u) × (x ≡ y)
key-injective s u x y (fixed _ t h) (fixed _ v k) e =
    unfold key in cancel s u x y (fixed-Plain s t h) (fixed-Plain u v k) e
key-injective s u x y (fixed _ t h) (scrape _ slug valid is) e =
    absurd (mixed s x slug y t h (e ∙ ap (λ r. key r y) is))
key-injective s u x y (scrape _ slug valid is) (fixed _ t h) e =
    absurd (mixed u y slug x t h (sym e ∙ ap (λ r. key r x) is))
key-injective s u x y (scrape _ a va is) (scrape _ b vb iu) e =
    let (same, rest) =
      scraped a b x y va vb (sym (ap (λ r. key r x) is) ∙ e ∙ ap (λ r. key r y) iu) in
    (is ∙ ap (λ slug. scrape_prefix ++ slug) same ∙ sym iu, rest)
