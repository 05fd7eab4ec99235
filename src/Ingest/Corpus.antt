-- ===== src/Ingest/Corpus.antt =====
-- The state of core/ingest/memory.ts, which is the reference behaviour of the ingest: raw rows in
-- insert order, animals, identities, licensed display rows, events and runs.
pub mod Sort
pub mod Shuffle
use monster_paws.Prelude.{
  ℕ, zero, suc, ◌-◌, ◌/◌, ◌+◌, Text, decimal, ◌++◌, Option, none, some, List, [], ◌∷◌, Map, Bool,
  leb, ltb, if◌then◌else◌, length, ◌==◌,
}
use monster_paws.Ingest.Fields.{AnimalClaims}
use monster_paws.Ingest.Model.{DisplayContent, IngestEvent, animal_reappeared, event_external_id}
use monster_paws.Ingest.Report.{IngestRunRecord, kind_eq}

pub record MemoryRawRow (P : Type 0) : Type 0 where
  pub raw_id : ℕ
  pub source : Text
  pub external_id : Text
  pub payload : P
  pub fetched_at : ℕ
  pub content_hash : Text
  pub last_seen : ℕ

pub record MemoryDisplay : Type 0 where
  pub animal_id : ℕ
  pub source : Text
  pub content : DisplayContent

pub record MemoryIdentity : Type 0 where
  pub animal_id : ℕ
  pub source : Text
  pub external_id : Text
  pub last_seen_at : ℕ
  pub disappeared_at : Option ℕ
  pub source_updated_at : Option ℕ

-- `MemoryCorpus` with the two counters of `createMemoryStages`. An animal is its claims.
pub record Corpus (P Num : Type 0) : Type 0 where
  pub raw_rows : List (MemoryRawRow P)
  pub animals : Map ℕ AnimalClaims
  pub identities : Map Text MemoryIdentity
  pub display : Map Text MemoryDisplay
  pub events : List IngestEvent
  pub runs : List (IngestRunRecord Num)
  pub next_raw_id : ℕ
  pub next_animal_id : ℕ

abbrev pub colon : ℕ
colon = b':'

-- `${source}:${externalId}` and `${animalId}:${source}`.
unfoldable pub key : Text → Text → Text
key source external_id = source ++ colon ∷ external_id

unfoldable pub display_key : ℕ → Text → Text
display_key animal_id source = decimal animal_id ++ colon ∷ source

abbrev pub no_claims : AnimalClaims
no_claims f = none

module _ {P Num : Type 0} where
  unfoldable pub empty_corpus : Corpus P Num
  empty_corpus = record {
    raw_rows = [];
    animals = [];
    identities = [];
    display = [];
    events = [];
    runs = [];
    next_raw_id = 1;
    next_animal_id = 1;
  }

-- `Array.prototype.sort`, which is stable: `before a b` says that `a` may stand in front of `b`.
module _ {A : Type 0} (before : A → A → Bool) where
  unfoldable pub insert_sorted : A → List A → List A
  insert_sorted a [] = a ∷ []
  insert_sorted a (x ∷ xs) = if before a x then a ∷ x ∷ xs else x ∷ insert_sorted a xs

  unfoldable pub sort : List A → List A
  unfolding insert_sorted
  sort [] = []
  sort (x ∷ xs) = insert_sorted x (sort xs)

unfoldable pub get_elem? {ℓ} : {A : Type ℓ} → List A → ℕ → Option A
get_elem? [] i = none
get_elem? (x ∷ xs) zero = some x
get_elem? (x ∷ xs) (suc i) = get_elem? xs i

-- `medianDate`: the element at `Math.ceil(n / 2) - 1` of the sorted list.
unfoldable pub median_date : List ℕ → Option ℕ
unfolding sort get_elem?
median_date [] = none
median_date (d ∷ ds) =
    let sorted = sort leb (d ∷ ds) in get_elem? sorted ((length sorted + 1) / 2 - 1)

unfoldable pub event_rank : IngestEvent → ℕ
unfolding kind_eq
event_rank e = if kind_eq e.kind animal_reappeared then 0 else 1

-- `inLifecycleOrder`. `precedes` is `localeCompare`'s answer "before or equal".
unfoldable pub in_lifecycle_order : (Text → Text → Bool) → List IngestEvent → List IngestEvent
unfolding sort
in_lifecycle_order precedes = sort λ a b.
    if event_rank a == event_rank b
    then precedes (event_external_id a.event_data) (event_external_id b.event_data)
    else ltb (event_rank a) (event_rank b)
