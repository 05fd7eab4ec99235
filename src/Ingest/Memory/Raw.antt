-- ===== src/Ingest/Memory/Raw.antt =====
-- Stage 1 in memory: the raw corpus is append-only and free of repeated payloads.
use mathlib.Core.List.{map-append}
use mathlib.Core.Option.{some-injective}
use monster_paws.Prelude.{
  ℕ, suc, ◌<◌, Text, text_eq, text_eq_iff, text_eq_refl, length, ◌≡◌, ◌≢◌, refl, sym, ap, ◌∙◌, ◌⊎◌,
  inl, inr, Bool, true, false, none, some, List, [], ◌∷◌, ◌++◌, map, All, All-append, find_last,
  arith, Option-cases, Bool-cases, if◌then◌else◌,
}
use monster_paws.Result.{ok}
use monster_paws.Ingest.Model.{Observation, StoredObservation}
use monster_paws.Ingest.Corpus.{Corpus, MemoryRawRow}
use monster_paws.Ingest.Memory.{
  any_of, update_last, existing_observation, is_row_of, new_row, insert_row, touch_row, persist,
}

module _ {A : Type 0} (test : A → Bool) where
  find_last-append_one :
      (xs : List A) (y : A) → test y ≡ true → find_last test (xs ++ y ∷ []) ≡ some y
  unfolding find_last
  find_last-append_one [] y h = rw h
  find_last-append_one (x ∷ xs) y h = rw (find_last-append_one xs y h)

  pub find_last-any_of : (xs : List A) → any_of test xs ≡ false → find_last test xs ≡ none
  unfolding find_last any_of
  find_last-any_of [] h = refl
  find_last-any_of (x ∷ xs) h = ground (arith, find_last-any_of xs)

  pub any_of-find_last :
      (xs : List A) → any_of test xs ≡ true → (y : A) × (find_last test xs ≡ some y)
  unfolding find_last any_of
  any_of-find_last [] h = cc
  any_of-find_last (x ∷ xs) h = elim (Option-cases (find_last test xs)) [
    | inr (y, e) ↦ (y, rw e)
    | inl e ↦ elim (Bool-cases (any_of test xs)) [
      | inl t ↦ absurd (cc (any_of-find_last xs t).1)
      | inr f ↦ (x, ground arith)
    ]
  ]

  -- Writing to the last match by `f`, which keeps matches, writes to what is found.
  find_last-update_last :
      (f : A → A) (xs : List A) (y : A)
      → ((x : A) → test (f x) ≡ test x)
      → find_last test xs ≡ some y
      → find_last test (update_last test f xs) ≡ some (f y)
  unfolding find_last update_last any_of
  find_last-update_last f [] y keep e = cc
  find_last-update_last f (x ∷ xs) y keep e = elim (Bool-cases (any_of test xs)) [
    | inl there ↦
        let (z, ez) = any_of-find_last xs there in
        ground (arith, find_last-update_last f xs z keep ez, keep x)
    | inr absent ↦ ground (arith, find_last-any_of xs absent, keep x)
  ]

  -- What `f` keeps, the write keeps of every element.
  All-update_last :
      (Q : A → Type 0) (f : A → A) (xs : List A)
      → ((x : A) → Q x → Q (f x))
      → All Q xs
      → All Q (update_last test f xs)
  unfolding update_last
  All-update_last Q f [] keep h = tt
  All-update_last Q f (x ∷ xs) keep h = elim (Bool-cases (any_of test xs)) [
    | inl there ↦ rw there (h.0, All-update_last Q f xs keep h.1)
    | inr absent ↦ elim (Bool-cases (test x)) [
      | inl hit ↦ rw (absent, hit) (keep x h.0, h.1)
      | inr miss ↦ rw (absent, miss) h
    ]
  ]

  length-update_last : (f : A → A) (xs : List A) → length (update_last test f xs) ≡ length xs
  unfolding update_last
  length-update_last f [] = refl
  length-update_last f (x ∷ xs) = ground (arith, length-update_last f xs)

module _ {P Num : Type 0} where
  -- The two ways of `persist`: the newest row of the record has the same hash and is touched, or
  -- a row is added.
  pub persist_cases :
      (obs : Observation P) (c : Corpus P Num)
      → let newest = find_last (is_row_of obs.source obs.external_id) c.raw_rows in
        ((old : MemoryRawRow P) × (newest ≡ some old)
          × (old.content_hash ≡ obs.content_hash)
          × (persist obs c ≡ touch_row obs old c))
        ⊎ (((old : MemoryRawRow P) → newest ≡ some old → old.content_hash ≢ obs.content_hash)
            × (persist obs c ≡ insert_row obs c))
  unfolding persist
  persist_cases obs c =
      elim (Option-cases (find_last (is_row_of obs.source obs.external_id) c.raw_rows)) [
        | inl e ↦ inr (λ old f. absurd (cc), rw (e, persist))
        | inr (old, e) ↦ elim (Bool-cases (text_eq old.content_hash obs.content_hash)) [
          | inl same ↦ inl (old, e, (text_eq_iff _ _).0 same, rw (e, persist, same))
          | inr other ↦ inr (
            λ old' f g. ground (arith, text_eq_iff old.content_hash obs.content_hash),
            rw (e, persist, other),
          )
        ]
      ]

  -- The newest row of an observation's record after it was persisted.
  pub latest-persist :
      (obs : Observation P) (c : Corpus P Num)
      → (stored : StoredObservation P) × (inserted : Bool) × (row : MemoryRawRow P) × ((persist obs
            c).0
          ≡ ok (stored, inserted))
        × (find_last (is_row_of obs.source obs.external_id) (persist obs c).1.raw_rows ≡ some row)
        × (row.content_hash ≡ obs.content_hash)
        × (row.raw_id ≡ stored.raw_id)
        × (row.last_seen ≡ obs.fetched_at)
  unfolding insert_row touch_row
  latest-persist obs c = elim (persist_cases obs c) [
    | inl (old, e, same, way) ↦ rw way (
      _,
      _,
      record old { last_seen = obs.fetched_at },
      refl,
      find_last-update_last (is_row_of obs.source obs.external_id) _ c.raw_rows old
          (unfold is_row_of in λ x. refl) e,
      same,
      refl,
      refl,
    )
    | inr (_, way) ↦ rw way (
      _,
      _,
      new_row obs c.next_raw_id,
      refl,
      find_last-append_one _ c.raw_rows _ (
          unfold is_row_of new_row in
          ground (arith, text_eq_refl obs.source, text_eq_refl obs.external_id)),
      unfold new_row in refl,
      unfold new_row in refl,
      unfold new_row in refl,
    )
  ]

  -- An unchanged payload is stored once: after an observation was persisted, another one of the
  -- same record with the same hash gets the same raw row, adds no row and takes no id.
  pub persist-again :
      (obs again : Observation P) (c : Corpus P Num)
      → again.source ≡ obs.source
      → again.external_id ≡ obs.external_id
      → again.content_hash ≡ obs.content_hash
      → (first : StoredObservation P) × (second : StoredObservation P) × (inserted : Bool)
        × ((persist obs c).0 ≡ ok (first, inserted))
        × ((persist again (persist obs c).1).0 ≡ ok (second, false))
        × (second.raw_id ≡ first.raw_id)
        × (length (persist again (persist obs c).1).1.raw_rows ≡ length (persist obs c).1.raw_rows)
        × ((persist again (persist obs c).1).1.next_raw_id ≡ (persist obs c).1.next_raw_id)
  unfolding touch_row
  persist-again obs again c es ee eh =
      let (stored, inserted, row, first, newest, hash, id, _) = latest-persist obs c in
      let newest' : find_last (is_row_of again.source again.external_id) (persist obs c).1.raw_rows
          ≡ some row =
        rw (es, ee) newest in
      elim (persist_cases again (persist obs c).1) [
        | inl (old, e, same, way) ↦
            let one : old ≡ row = some-injective old row (sym e ∙ newest') in
            (
              stored,
              existing_observation again old,
              inserted,
              first,
              rw way refl,
              ap (λ r. r.raw_id) one ∙ id,
              rw way (length-update_last _ _ (persist obs c).1.raw_rows),
              rw way refl,
            )
        | inr (differs, way) ↦ absurd (differs row newest' (hash ∙ sym eh))
      ]

-- What every row has, if the observation's row has it and a later sighting keeps it.
pub persist-All :
    {P Num : Type 0} (Q : MemoryRawRow P → Type 0) (obs : Observation P) (c : Corpus P Num)
    → ((row : MemoryRawRow P) → Q row → Q (record row { last_seen = obs.fetched_at }))
    → Q (new_row obs c.next_raw_id)
    → All Q c.raw_rows
    → All Q (persist obs c).1.raw_rows
unfolding insert_row touch_row
persist-All Q obs c keep new h = elim (persist_cases obs c) [
  | inl (old, e, same, way) ↦ rw way (
      All-update_last (is_row_of obs.source obs.external_id) Q
        (λ row. record row { last_seen = obs.fetched_at }) c.raw_rows keep h)
  | inr (_, way) ↦ rw way (All-append Q c.raw_rows _ h (new, tt))
]

-- A row without the one column that is ever written again.
abbrev pub Frozen : Type 0 → Type 0
Frozen P = ℕ × Text × Text × P × ℕ × Text

module _ {P : Type 0} where
  abbrev pub freeze : MemoryRawRow P → Frozen P
  freeze r = (r.raw_id, r.source, r.external_id, r.payload, r.fetched_at, r.content_hash)

  freeze-update_last :
      (test : MemoryRawRow P → Bool) (f : MemoryRawRow P → MemoryRawRow P)
      (rows : List (MemoryRawRow P))
      → ((r : MemoryRawRow P) → freeze (f r) ≡ freeze r)
      → map freeze (update_last test f rows) ≡ map freeze rows
  unfolding update_last
  freeze-update_last test f [] same = refl
  freeze-update_last test f (r ∷ rows) same = elim (Bool-cases (any_of test rows)) [
    | inl there ↦ rw there (ap (λ l. freeze r ∷ l) (freeze-update_last test f rows same))
    | inr absent ↦ elim (Bool-cases (test r)) [
      | inl hit ↦ rw (absent, hit) (ap (λ x. x ∷ map freeze rows) (same r))
      | inr miss ↦ rw (absent, miss)
    ]
  ]

  -- Ids rise along the rows and stay below the next one.
  abbrev pub Rising : ℕ → List (Frozen P) → Type 0
  Rising next [] = Unit
  Rising next (r ∷ rows) = (r.0 < next) × All (λ s. r.0 < s.0) rows × Rising next rows

  Rising-snoc :
      (rows : List (Frozen P)) (r : Frozen P) (n : ℕ)
      → Rising n rows
      → r.0 ≡ n
      → Rising (suc n) (rows ++ r ∷ [])
  Rising-snoc [] r n rising e = (omega arith, tt, tt)
  Rising-snoc (s ∷ rows) r n rising e = (
    omega arith,
    All-append _ rows (r ∷ []) rising.1 (omega arith, tt),
    Rising-snoc rows r n rising.2 e,
  )

-- The raw corpus is append-only, with ids that rise if they rise before: persisting keeps every
-- column of every row but the last sighting; it either adds no row, when it says that nothing was
-- inserted, or adds one row at the end, with the observation's payload, under the next id.
pub persist-append_only :
    {P Num : Type 0} (obs : Observation P) (c : Corpus P Num)
    → Rising c.next_raw_id (map freeze c.raw_rows)
    → (stored : StoredObservation P) × (inserted : Bool) × ((persist obs c).0
        ≡ ok (stored, inserted))
      × (map freeze (persist obs c).1.raw_rows ≡ (
          if inserted
          then map freeze c.raw_rows
            ++ (
              c.next_raw_id, obs.source, obs.external_id, obs.payload, obs.fetched_at,
              obs.content_hash,
            )
              ∷ []
          else map freeze c.raw_rows))
      × Rising (persist obs c).1.next_raw_id (map freeze (persist obs c).1.raw_rows)
unfolding insert_row touch_row new_row
persist-append_only obs c rising = elim (persist_cases obs c) [
  | inl (old, e, same, way) ↦
      let kept =
        freeze-update_last (is_row_of obs.source obs.external_id)
          (λ row. record row { last_seen = obs.fetched_at }) c.raw_rows (λ r. refl) in
      rw way (existing_observation obs old, false, refl, kept, rw kept rising)
  | inr (_, way) ↦
      let added = map-append freeze c.raw_rows (new_row obs c.next_raw_id ∷ []) in
      rw way (
        record { observation = obs; raw_id = c.next_raw_id },
        true,
        refl,
        added,
        rw added (Rising-snoc (map freeze c.raw_rows) _ c.next_raw_id rising refl),
      )
]
