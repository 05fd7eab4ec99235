-- ===== src/Sources/Identity.antt =====
-- Which texts core/sources.ts takes for sources, and how it reads them back.
use mathlib.Core.Option.{some-injective}
use monster_paws.Prelude.{
  ap, ◌∙◌, Text, starts_with, slice_after, append-slice_after, ◌≡◌, refl, ◌⊎◌, inl, inr, ◌↔◌, true,
  ◌++◌, arith, Bool-cases, Option-cases, some,
}
use monster_paws.Result.{ok, err, ok-injective, unknown_source}
use monster_paws.Sources.{
  Tier, shelter_api, first_party_scrape, aggregator, manual, is_valid_slug, scrape_prefix,
  scrape_source, is_scrape_source, shelter_slug_of, fixed_source_tier, tier_of, rank_of,
}

-- Building a scrape source and reading its slug back are inverse: a source is built from a slug
-- exactly if that slug is read back from it.
pub scrape_source-shelter_slug_of :
    (slug source : Text) → (scrape_source slug ≡ ok source) ↔ (shelter_slug_of source ≡ some slug)
unfolding scrape_source shelter_slug_of is_scrape_source starts_with slice_after
scrape_source-shelter_slug_of slug source = (
  λ built. elim (Bool-cases (is_valid_slug slug)) [
    | inl valid ↦
        let e : scrape_prefix ++ slug ≡ source = ok-injective (rw valid at built) in rw (← e, valid)
    | inr bad ↦ absurd (cc (rw bad at built))
  ],
  λ found. elim (Bool-cases (starts_with source scrape_prefix)) [
    | inr other ↦ absurd (cc (rw other at found))
    | inl scraped ↦ elim (Bool-cases (is_valid_slug (slice_after source scrape_prefix))) [
      | inr bad ↦ absurd (cc (rw (scraped, bad) at found))
      | inl valid ↦
          let e : slice_after source scrape_prefix ≡ slug =
            some-injective _ _ (rw (scraped, valid) at found) in
          let valid' : is_valid_slug slug ≡ true = rw e at valid in
          let whole : source ≡ scrape_prefix ++ slug =
            append-slice_after scrape_prefix source scraped ∙ ap (λ x. scrape_prefix ++ x) e in
          rw (whole, valid')
    ]
  ],
)

-- What `tier_of` accepts: the four fixed sources and the scrapes of valid slugs.
pub data IsKnown : Text → Type 0 where
  fixed : (s : Text) (t : Tier) → fixed_source_tier s ≡ some t → IsKnown s
  scrape : (s slug : Text) → is_valid_slug slug ≡ true → s ≡ scrape_prefix ++ slug → IsKnown s

pub IsKnown-tier_of : {s : Text} → IsKnown s → (t : Tier) × (tier_of s ≡ ok t)
unfolding tier_of is_scrape_source starts_with slice_after
IsKnown-tier_of (fixed s t e) = elim (Bool-cases (is_scrape_source s)) [
  | inl scraped ↦ (first_party_scrape, ground arith)
  | inr other ↦ (t, ground arith)
]
IsKnown-tier_of (scrape s slug valid e) = (first_party_scrape, rw e (ground arith))

tier_of-cases : (s : Text) → IsKnown s ⊎ (tier_of s ≡ err (unknown_source s))
unfolding tier_of is_scrape_source
tier_of-cases s = elim (Bool-cases (is_scrape_source s)) [
  | inl scraped ↦ inl (
      scrape s (slice_after s scrape_prefix) (ground arith)
        (append-slice_after scrape_prefix s (ground arith)))
  | inr other ↦ elim (Option-cases (fixed_source_tier s)) [
    | inl missing ↦ inr (ground arith)
    | inr (t, found) ↦ inl (fixed s t found)
  ]
]

-- `tierOf` answers exactly for the known sources, and throws for every other text.
pub tier_of-IsKnown :
    (s : Text)
    → (((t : Tier) × (tier_of s ≡ ok t)) ↔ IsKnown s)
      × (IsKnown s ⊎ (tier_of s ≡ err (unknown_source s)))
tier_of-IsKnown s = elim (tier_of-cases s) [
  | inl known ↦ ((λ _. known, IsKnown-tier_of), inl known)
  | inr thrown ↦ ((λ answer. absurd (cc (thrown, answer.1)), IsKnown-tier_of), inr thrown)
]

-- The rank of a tier is its place in the list of tiers, and no tier throws.
pub rank_of_lem :
    (rank_of shelter_api ≡ ok 0)
    × (rank_of first_party_scrape ≡ ok 1)
    × (rank_of aggregator ≡ ok 2)
    × (rank_of manual ≡ ok 3)
unfolding rank_of
rank_of_lem = (refl, refl, refl, refl)

pub valid-scrape_source :
    (slug : Text) → is_valid_slug slug ≡ true → scrape_source slug ≡ ok (scrape_prefix ++ slug)
unfolding scrape_source
valid-scrape_source slug valid = rw valid
