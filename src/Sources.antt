-- ===== src/Sources.antt =====
-- core/sources.ts: the trust tiers, the sources and the grammar of a shelter's slug.
pub mod Slug
pub mod Identity
pub mod Keys
mod Tests
use monster_paws.Prelude.{
  ℕ, suc, ◌+◌, Text, codes, text_eq, starts_with, slice_after, Bool, true, false, ◌&&◌, ◌||◌,
  Option, none, some, List, [], ◌∷◌, ◌++◌, leb, ◌==◌, if◌then◌else◌,
}
use monster_paws.Result.{Result, ok, err, Error, invalid_slug, unknown_source, unknown_tier}

pub data Tier : Type 0 where
  shelter_api first_party_scrape aggregator manual : Tier

-- `===` on tier names.
unfoldable pub tier_eq : Tier → Tier → Bool
tier_eq shelter_api shelter_api = true
tier_eq first_party_scrape first_party_scrape = true
tier_eq aggregator aggregator = true
tier_eq manual manual = true
tier_eq _ _ = false

-- `TIERS`, most to least trusted.
abbrev pub tiers : List Tier
tiers = shelter_api ∷ first_party_scrape ∷ aggregator ∷ manual ∷ []

-- `Array.prototype.indexOf`; `none` is -1.
index_of : Tier → List Tier → ℕ → Option ℕ
index_of t [] i = none
index_of t (u ∷ us) i = if tier_eq u t then some i else index_of t us (suc i)

-- A tier's rank is its place in `tiers`.
unfoldable pub rank_of : Tier → Result ℕ
unfolding index_of tier_eq
rank_of t = elim (index_of t tiers 0) [ none ↦ err unknown_tier | some i ↦ ok i ]

is_slug_char : ℕ → Bool
is_slug_char c = (leb b'a' c && leb c b'z') || (leb b'0' c && leb c b'9')

-- `SLUG_PATTERN`: groups of slug characters joined by single dashes. The flag says that the
-- current group has a character.
slug_run : Bool → Text → Bool
slug_run started [] = started
slug_run started (c ∷ s) = (is_slug_char c || (started && c == b'-')) && slug_run (is_slug_char c) s

unfoldable pub is_valid_slug : Text → Bool
unfolding slug_run is_slug_char
is_valid_slug = slug_run false

abbrev pub scrape_prefix : Text
scrape_prefix = codes "scrape:"

pub scrape_source : Text → Result Text
scrape_source slug =
    if is_valid_slug slug then ok (scrape_prefix ++ slug) else err (invalid_slug slug)

unfoldable pub is_scrape_source : Text → Bool
is_scrape_source source =
    starts_with source scrape_prefix && is_valid_slug (slice_after source scrape_prefix)

pub shelter_slug_of : Text → Option Text
shelter_slug_of source =
    if is_scrape_source source then some (slice_after source scrape_prefix) else none

-- `FIXED_SOURCE_TIERS`, a table with the fixed sources as its keys.
unfoldable pub fixed_source_tier : Text → Option Tier
fixed_source_tier source =
    if text_eq source (codes "shelterluv")
    then some shelter_api
    else if text_eq source (codes "petango")
    then some shelter_api
    else if text_eq source (codes "rescuegroups")
    then some aggregator
    else if text_eq source (codes "manual")
    then some manual
    else none

-- An unknown source throws. A key that the table inherits from its prototype is taken for an
-- unknown source too.
unfoldable pub tier_of : Text → Result Tier
tier_of source =
    if is_scrape_source source
    then ok first_party_scrape
    else elim (fixed_source_tier source) [ none ↦ err (unknown_source source) | some t ↦ ok t ]
