-- ===== src/Ingest/Tests.antt =====
-- The data that the runs of core/ingest below share: two observations of one cat, from an
-- aggregator and from a shelter's own interface, and a corpus that holds the first of them.
mod Merging
pub mod Runs
use mathlib.Core.List.{Permᴰ}
use mathlib.Core.List.Permᴰ
use monster_paws.Prelude.{
  leb, ◌+◌, List, Bool, ◌≢◌, sym, ap, ◌∙◌, not, arith, text_eq, ℕ, ◌*◌, ◌-◌, ◌/◌, ltb, Text, codes,
  Option, none, some, [], ◌∷◌, ◌≡◌, refl, text_key, nat_key, lookup, Map,
}
use monster_paws.Sources.{aggregator, shelter_api, fixed_source_tier}
use monster_paws.Sources.Identity.{IsKnown, fixed}
use monster_paws.Ingest.Fields.{
  Field, name, species, city, FieldValue, text, FieldClaim, AnimalClaims,
}
use monster_paws.Ingest.Gate.{Floats}
use monster_paws.Ingest.Merge.Outcome.{AllKnown}
use monster_paws.Ingest.Model.{AnimalCandidate, Observation}
use monster_paws.Ingest.Pg.Lifecycle.Shuffle.{Collates, IsRowOrder}
use monster_paws.Ingest.Corpus.{Corpus, MemoryRawRow, MemoryIdentity, key}

abbrev pub groups : Text
groups = codes "rescuegroups"

abbrev pub luv : Text
luv = codes "shelterluv"

abbrev pub said : Text → ℕ → Text → FieldClaim
said source at value = record {
  value = some (text value);
  source = source;
  fetched_at = at;
  raw_id = some 1;
}

abbrev pub first_claims : AnimalClaims
first_claims name = some (said groups 10 (codes "Tom"))
first_claims species = some (said groups 10 (codes "cat"))
first_claims _ = none

abbrev pub second_claims : AnimalClaims
second_claims name = some (said luv 20 (codes "Thomas"))
second_claims city = some (said luv 20 (codes "Reno"))
second_claims _ = none

pub groups-IsKnown : IsKnown groups
unfolding fixed_source_tier text_eq
groups-IsKnown = fixed groups aggregator refl

luv-IsKnown : IsKnown luv
unfolding fixed_source_tier text_eq
luv-IsKnown = fixed luv shelter_api refl

pub first_claims-AllKnown : AllKnown first_claims
first_claims-AllKnown name = groups-IsKnown
first_claims-AllKnown species = groups-IsKnown
first_claims-AllKnown _ = tt

pub second_claims-AllKnown : AllKnown second_claims
second_claims-AllKnown name = luv-IsKnown
second_claims-AllKnown city = luv-IsKnown
second_claims-AllKnown _ = tt

abbrev pub observed : Text → ℕ → Text → Observation ℕ
observed id at hash = record {
  source = groups;
  external_id = id;
  payload = at;
  fetched_at = at;
  content_hash = hash;
}

abbrev pub candidate : AnimalCandidate
candidate = record {
  source = groups;
  external_id = codes "77";
  raw_id = 2;
  claims = first_claims;
  display = none;
  source_updated_at = some (some 9);
}

abbrev pub identity : Text → ℕ → Option ℕ → MemoryIdentity
identity id at gone = record {
  animal_id = 1;
  source = groups;
  external_id = id;
  last_seen_at = at;
  disappeared_at = gone;
  source_updated_at = none;
}

abbrev pub row : MemoryRawRow ℕ
row = record {
  raw_id = 1;
  source = groups;
  external_id = codes "77";
  payload = 10;
  fetched_at = 10;
  content_hash = codes "a";
  last_seen = 10;
}

-- One animal under two records, of which the second has disappeared.
abbrev pub corpus : Corpus ℕ ℕ
corpus = record {
  raw_rows = row ∷ [];
  animals = (1, second_claims) ∷ [];
  identities =
      (codes "rescuegroups:77", identity (codes "77") 10 none)
      ∷ (codes "rescuegroups:78", identity (codes "78") 10 (some 15))
      ∷ [];
  display = [];
  events = [];
  runs = [];
  next_raw_id = 2;
  next_animal_id = 2;
}

-- Fixed-point numbers in thousandths, with a power that is exact for the exponent 1.
abbrev pub thousandths : Floats ℕ
thousandths = record {
  of_ℕ = λ n. n * 1_000;
  div = λ a b. a * 1_000 / b;
  sub = λ a b. a - b;
  pow = λ a b. a;
  less = ltb;
  default_rate = 50;
}

-- Two-digit ids that begin with a seven, compared by the sum of their codes; and an answer of the
-- database that begins with its second row.
abbrev pub IsPlain : Text → Type 0
IsPlain t = (c : ℕ) × (t ≡ 55 ∷ c ∷ [])

unfoldable pub weight : Text → ℕ
weight [] = 0
weight (c ∷ t) = c + weight t

unfoldable pub by_weight : Text → Text → Bool
unfolding weight
by_weight a b = leb (weight a) (weight b)

pub by_weight-Collates : Collates by_weight IsPlain
unfolding by_weight weight
by_weight-Collates = record {
  transitive = λ a b c h k. ground arith;
  apart = λ a b (x, ea) (y, eb) differ.
      let other : x ≢ y = λ e. differ (ea ∙ ap (λ c. 55 ∷ c ∷ []) e ∙ sym eb) in
      rw (ea, eb) (ground (arith, other));
}

pub flipped : List MemoryIdentity → List MemoryIdentity
flipped [] = []
flipped (x ∷ []) = x ∷ []
flipped (x ∷ y ∷ rows) = y ∷ x ∷ rows

pub flipped-IsRowOrder : IsRowOrder flipped
unfolding flipped
flipped-IsRowOrder [] = Permᴰ.nil
flipped-IsRowOrder (x ∷ []) = Permᴰ.refl (x ∷ [])
flipped-IsRowOrder (x ∷ y ∷ rows) = Permᴰ.swap refl refl
