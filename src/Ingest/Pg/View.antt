-- ===== src/Ingest/Pg/View.antt =====
-- The corpus in memory that the tables stand for, and the tables' operations through this view.
-- The licensed display rows are left out of it.
use mathlib.Core.Option.{some-injective}
use monster_paws.Prelude.{
  ℕ, Text, text_eq, text_eq_iff, text_key, nat_key, ◌≡◌, refl, sym, ap, ◌∙◌, subst, ◌⊎◌, inl, inr,
  ◌==◌, Bool, true, false, ◌&&◌, none, some, List, [], ◌∷◌, ◌++◌, Map, lookup, insert, All, arith,
  Bool-cases,
}
use monster_paws.Ingest.Fields.{AnimalClaims}
use monster_paws.Ingest.Corpus.{Corpus, MemoryIdentity, key}
use monster_paws.Ingest.Pg.{PgCorpus, AnimalRow, is_identity_of, update_where}
use monster_paws.Ingest.Pg.Canonical.{current_claims_of}
use monster_paws.Sources.Identity.{IsKnown}
use monster_paws.Sources.Keys.{key-injective}
use monster_paws.Shelters.{find_first}

-- Two equations, as one of pairs.
pub pair_path :
    {A B : Type 0} {a a' : A} {b b' : B} → a ≡ a' → b ≡ b' → Path (A × B) (a, b) (a', b')
pair_path p q = λ i. (p i, q i)

abbrev pub view_animals : Map ℕ AnimalRow → Map ℕ AnimalClaims
view_animals [] = []
view_animals ((n, row) ∷ rows) = (n, current_claims_of row) ∷ view_animals rows

abbrev pub view_identities : List MemoryIdentity → Map Text MemoryIdentity
view_identities [] = []
view_identities (id ∷ ids) = (key id.source id.external_id, id) ∷ view_identities ids

module _ {P Num : Type 0} where
  abbrev pub view : PgCorpus P Num → Corpus P Num
  view d = record {
    raw_rows = d.raw_payloads;
    animals = view_animals d.animals;
    identities = view_identities d.animal_identities;
    display = [];
    events = d.event_log;
    runs = d.ingest_runs;
    next_raw_id = d.next_raw_id;
    next_animal_id = d.next_animal_id;
  }

  -- A corpus in memory without its licensed display.
  abbrev pub plain : Corpus P Num → Corpus P Num
  plain c = record c { display = [] }

pub lookup-view_animals :
    (n : ℕ) (rows : Map ℕ AnimalRow)
    → ((lookup n rows ≡ none) × (lookup n (view_animals rows) ≡ none))
      ⊎ ((row : AnimalRow) × (lookup n rows ≡ some row)
          × (lookup n (view_animals rows) ≡ some (current_claims_of row)))
unfolding lookup
lookup-view_animals n [] = inl (refl, refl)
lookup-view_animals n ((m, row) ∷ rows) = elim (Bool-cases (m == n)) [
  | inl same ↦ inr (row, rw same refl, rw same refl)
  | inr other ↦ rw other (lookup-view_animals n rows)
]

pub insert-view_animals :
    (n : ℕ) (row : AnimalRow) (rows : Map ℕ AnimalRow)
    → view_animals (insert n row rows) ≡ insert n (current_claims_of row) (view_animals rows)
unfolding insert
insert-view_animals n row [] = refl
insert-view_animals n row ((m, old) ∷ rows) = elim (Bool-cases (m == n)) [
  | inl same ↦ rw same refl
  | inr other ↦ rw other (ap (λ l. (m, current_claims_of old) ∷ l) (insert-view_animals n row rows))
]

-- Writing back what is there changes nothing.
pub insert-lookup :
    {V : Type 0} (n : ℕ) (v : V) (m : Map ℕ V) → lookup n m ≡ some v → insert n v m ≡ m
unfolding lookup insert
insert-lookup n v [] h = absurd (cc)
insert-lookup n v ((k, w) ∷ m) h = elim (Bool-cases (k == n)) [
  | inl same ↦ ground arith
  | inr other ↦ rw other (ap (λ l. (k, w) ∷ l) (insert-lookup n v m (rw other at h)))
]

abbrev pub KnownRow : MemoryIdentity → Type 0
KnownRow id = IsKnown id.source

-- The unique index on the source and its key of the record.
abbrev pub Apart : MemoryIdentity → MemoryIdentity → Type 0
Apart a b = is_identity_of a.source a.external_id b ≡ false

abbrev pub UniqueRows : List MemoryIdentity → Type 0
UniqueRows [] = Unit
UniqueRows (id ∷ ids) = All (Apart id) ids × UniqueRows ids

-- A row's key is that of a record exactly if the row is the record's.
key-is_identity_of :
    (source external_id : Text) (id : MemoryIdentity)
    → IsKnown source
    → KnownRow id
    → text_eq (key id.source id.external_id) (key source external_id)
      ≡ is_identity_of source external_id id
unfolding is_identity_of
key-is_identity_of source external_id id k k' =
    elim (Bool-cases (text_eq (key id.source id.external_id) (key source external_id))) [
      | inl same ↦
          let (a, b) =
            key-injective id.source source id.external_id external_id k' k
              ((text_eq_iff _ _).0 same) in
          ground (arith, text_eq_iff id.source source, text_eq_iff id.external_id external_id)
      | inr other ↦ elim (Bool-cases (is_identity_of source external_id id)) [
        | inr no_match ↦ other ∙ sym no_match
        | inl match ↦ absurd (cc (sym other ∙ (text_eq_iff _ _).1 (together match)))
      ]
    ]
  where
    together :
        (text_eq id.source source && text_eq id.external_id external_id) ≡ true
        → key id.source id.external_id ≡ key source external_id
    together h =
        let parts : (id.source ≡ source) × (id.external_id ≡ external_id) =
          ground (arith, text_eq_iff id.source source, text_eq_iff id.external_id external_id) in
        ap (λ s. key s id.external_id) parts.0 ∙ ap (λ e. key source e) parts.1

pub find_first-none-update {ℓ} :
    {A : Type ℓ} (test : A → Bool) (f : A → A) (xs : List A)
    → find_first test xs ≡ none
    → update_where test f xs ≡ xs
unfolding find_first update_where
find_first-none-update test f [] h = refl
find_first-none-update test f (x ∷ xs) h = elim (Bool-cases (test x)) [
  | inl hit ↦ absurd (ground arith)
  | inr miss ↦ rw miss (ap (λ l. x ∷ l) (find_first-none-update test f xs (rw miss at h)))
]

pub update_where-none {ℓ} :
    {A : Type ℓ} (test : A → Bool) (f : A → A) (xs : List A)
    → All (λ x. test x ≡ false) xs
    → update_where test f xs ≡ xs
unfolding update_where
update_where-none test f [] h = refl
update_where-none test f (x ∷ xs) h = rw (h.0) (ap (λ l. x ∷ l) (update_where-none test f xs h.1))

pub is_identity_of-eq :
    (source external_id : Text) (id : MemoryIdentity)
    → is_identity_of source external_id id ≡ true
    → (id.source ≡ source) × (id.external_id ≡ external_id)
unfolding is_identity_of
is_identity_of-eq source external_id id h =
    ground (arith, text_eq_iff id.source source, text_eq_iff id.external_id external_id)

module _ (source external_id : Text) (known : IsKnown source) where
  abbrev the_key : Text
  the_key = key source external_id

  pub lookup-view_identities :
      (ids : List MemoryIdentity)
      → All KnownRow ids
      → lookup the_key (view_identities ids) ≡ find_first (is_identity_of source external_id) ids
  unfolding lookup find_first
  lookup-view_identities [] h = refl
  lookup-view_identities (id ∷ ids) h =
      let e = key-is_identity_of source external_id id known h.0 in
      elim (Bool-cases (is_identity_of source external_id id)) [
        | inl hit ↦ let e' = e ∙ hit in rw (e', hit) refl
        | inr miss ↦ let e' = e ∙ miss in rw (e', miss) (lookup-view_identities ids h.1)
      ]

  pub insert-view_identities_new :
      (row : MemoryIdentity) (ids : List MemoryIdentity)
      → row.source ≡ source
      → row.external_id ≡ external_id
      → All KnownRow ids
      → find_first (is_identity_of source external_id) ids ≡ none
      → insert the_key row (view_identities ids) ≡ view_identities (ids ++ row ∷ [])
  unfolding insert find_first
  insert-view_identities_new row [] es ee h none_there = rw (es, ee) refl
  insert-view_identities_new row (id ∷ ids) es ee h none_there =
      let e = key-is_identity_of source external_id id known h.0 in
      elim (Bool-cases (is_identity_of source external_id id)) [
        | inl hit ↦ absurd (ground arith)
        | inr miss ↦
            let e' = e ∙ miss in
            rw e' (
              ap (λ l. (key id.source id.external_id, id) ∷ l)
                (insert-view_identities_new row ids es ee h.1 (rw miss at none_there)))
      ]

  -- An update of the one row that an identity has.
  pub insert-view_identities :
      (f : MemoryIdentity → MemoryIdentity) (id : MemoryIdentity) (ids : List MemoryIdentity)
      → ((r : MemoryIdentity) → ((f r).source ≡ r.source) × ((f r).external_id ≡ r.external_id))
      → All KnownRow ids
      → UniqueRows ids
      → find_first (is_identity_of source external_id) ids ≡ some id
      → insert the_key (f id) (view_identities ids)
        ≡ view_identities (update_where (is_identity_of source external_id) f ids)
  unfolding insert find_first update_where
  insert-view_identities f id [] same h u found = absurd (cc)
  insert-view_identities f id (r ∷ ids) same h u found =
      let e = key-is_identity_of source external_id r known h.0 in
      elim (Bool-cases (is_identity_of source external_id r)) [
        | inr miss ↦
            let e' = e ∙ miss in
            rw (e', miss)
              (ap (λ l. (key r.source r.external_id, r) ∷ l)
                (insert-view_identities f id ids same h.1 u.1 (rw miss at found)))
        | inl hit ↦
            let e' = e ∙ hit in
            let one : r ≡ id = some-injective r id (rw hit at found) in
            let (es, ee) = is_identity_of-eq source external_id r hit in
            let others : All (λ x. is_identity_of source external_id x ≡ false) ids =
              subst (λ x. All (λ y. is_identity_of source x y ≡ false) ids) ee
                (subst (λ x. All (λ y. is_identity_of x r.external_id y ≡ false) ids) es u.0) in
            let rest = update_where-none (is_identity_of source external_id) f ids others in
            let at : key (f r).source (f r).external_id ≡ key r.source r.external_id =
              ap (λ x. key x (f r).external_id) (same r).0 ∙ ap (λ x. key r.source x) (same r).1 in
            rw (e', hit, rest, at)
              (ap (λ x. (key r.source r.external_id, f x) ∷ view_identities ids) (sym one))
      ]
