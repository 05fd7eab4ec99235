-- ===== src/Ingest/Pg/Store/Refines.antt =====
-- The raw store over Postgres does what the one in memory does.
use mathlib.Core.Option.{some-injective}
use monster_paws.Prelude.{
  ℕ, ◌<◌, text_eq, text_eq_iff, ◌≡◌, ◌≢◌, refl, sym, ap, ◌∙◌, subst, inl, inr, ◌==◌, Bool, true,
  false, some, List, [], ◌∷◌, map, keep_if, find_last, All, All-mono, arith, Bool-cases,
  Option-cases,
}
use monster_paws.Result.{Result, ok}
use monster_paws.Ingest.Model.{Observation, StoredObservation}
use monster_paws.Ingest.Corpus.{MemoryRawRow}
use monster_paws.Ingest.Memory
use monster_paws.Ingest.Memory.{
  is_row_of, update_last, any_of, existing_observation, insert_row, touch_row,
}
use monster_paws.Ingest.Memory.Raw.{
  Rising, freeze, persist_cases, find_last-any_of, any_of-find_last,
}
use monster_paws.Ingest.Pg.{PgCorpus, update_where}
use monster_paws.Ingest.Pg.Store.{latest_of, persist, insert_raw, touch_raw, stored_again}
use monster_paws.Ingest.Pg.View.{view, plain, update_where-none}

module _ {P : Type 0} where
  -- Ids rise along the rows.
  abbrev pub IdsRise : List (MemoryRawRow P) → Type 0
  IdsRise [] = Unit
  IdsRise (r ∷ rows) = All (λ s. r.raw_id < s.raw_id) rows × IdsRise rows

  All-unfreeze :
      (n : ℕ) (rows : List (MemoryRawRow P))
      → All (λ s. n < s.0) (map freeze rows)
      → All (λ s. n < s.raw_id) rows
  All-unfreeze n [] h = tt
  All-unfreeze n (r ∷ rows) h = (h.0, All-unfreeze n rows h.1)

  pub Rising-IdsRise :
      (n : ℕ) (rows : List (MemoryRawRow P)) → Rising n (map freeze rows) → IdsRise rows
  Rising-IdsRise n [] h = tt
  Rising-IdsRise n (r ∷ rows) h = (All-unfreeze r.raw_id rows h.1, Rising-IdsRise n rows h.2)

  pub find_last-All :
      (Q : MemoryRawRow P → Type 0) (test : MemoryRawRow P → Bool) (rows : List (MemoryRawRow P))
      (y : MemoryRawRow P)
      → All Q rows
      → find_last test rows ≡ some y
      → Q y
  unfolding find_last
  find_last-All Q test [] y h e = absurd (cc)
  find_last-All Q test (r ∷ rows) y h e = elim (Option-cases (find_last test rows)) [
    | inr (z, ez) ↦
        let same : z ≡ y = some-injective z y (rw ez at e) in
        subst Q same (find_last-All Q test rows z h.1 ez)
    | inl absent ↦ elim (Bool-cases (test r)) [
      | inl hit ↦ subst Q (some-injective r y (rw (absent, hit) at e)) h.0
      | inr miss ↦ absurd (cc (sym (rw (absent, miss) at e)))
    ]
  ]

  -- The row with the highest id is the last one.
  latest_of-find_last :
      (test : MemoryRawRow P → Bool) (rows : List (MemoryRawRow P))
      → IdsRise rows
      → latest_of (keep_if test rows) ≡ find_last test rows
  unfolding latest_of keep_if find_last
  latest_of-find_last test [] h = refl
  latest_of-find_last test (r ∷ rows) h =
      let e = latest_of-find_last test rows h.1 in
      elim (Option-cases (find_last test rows)) [
        | inl absent ↦
            let e' = e ∙ absent in
            elim (Bool-cases (test r)) [
              | inl hit ↦ ground (arith, e')
              | inr miss ↦ ground (arith, e')
            ]
        | inr (y, found) ↦
            let e' = e ∙ found in
            let above = find_last-All (λ s. r.raw_id < s.raw_id) test rows y h.0 found in
            elim (Bool-cases (test r)) [
              | inl hit ↦ ground (arith, e', above)
              | inr miss ↦ rw (miss, found) e'
            ]
      ]

  -- Writing to the row with the id of the last match writes to the last match.
  update_where-update_last :
      (test : MemoryRawRow P → Bool) (f : MemoryRawRow P → MemoryRawRow P)
      (rows : List (MemoryRawRow P)) (y : MemoryRawRow P)
      → IdsRise rows
      → find_last test rows ≡ some y
      → update_where (λ row. row.raw_id == y.raw_id) f rows ≡ update_last test f rows
  unfolding update_where update_last find_last
  update_where-update_last test f [] y h e = refl
  update_where-update_last test f (r ∷ rows) y h e = elim (Bool-cases (any_of test rows)) [
    | inl there ↦
        let (z, ez) = any_of-find_last test rows there in
        let same : z ≡ y = some-injective z y (rw ez at e) in
        let ey : find_last test rows ≡ some y = ez ∙ ap some same in
        let above = find_last-All (λ s. r.raw_id < s.raw_id) test rows y h.0 ey in
        let not_here : (r.raw_id == y.raw_id) ≡ false = ground arith in
        rw (there, not_here) (ap (λ l. r ∷ l) (update_where-update_last test f rows y h.1 ey))
    | inr absent ↦
        let gone = find_last-any_of test rows absent in
        elim (Bool-cases (test r)) [
          | inr miss ↦ absurd (cc (sym (rw (gone, miss) at e)))
          | inl hit ↦
              let same : r ≡ y = some-injective r y (rw (gone, hit) at e) in
              let here : (r.raw_id == y.raw_id) ≡ true = rw same (ground arith) in
              let others : All (λ s. (s.raw_id == y.raw_id) ≡ false) rows =
                All-mono _ (λ s. (s.raw_id == y.raw_id) ≡ false)
                  (λ s p.
                    let q : y.raw_id < s.raw_id = subst (λ x. x.raw_id < s.raw_id) same p in
                    ground arith)
                  rows h.0 in
              rw (absent, hit, here) (ap (λ l. f r ∷ l) (update_where-none _ f rows others))
        ]
  ]

-- What the two stores answer: the same raw row with the same instant, newly inserted or not; a
-- payload that was stored before is this poll's from Postgres, and the stored one from memory.
abbrev pub SameStored :
    {P : Type 0}
    → Observation P
    → Result (StoredObservation P × Bool)
    → Result (StoredObservation P × Bool)
    → Type 0
SameStored {P = Payload} obs pg memory =
    (a : StoredObservation Payload) × (b : StoredObservation Payload) × (inserted : Bool) × (pg
      ≡ ok (a, inserted))
    × (memory ≡ ok (b, inserted))
    × (record a { observation = record a.observation { payload = b.payload } } ≡ b)
    × (a.payload ≡ obs.payload)
    × (inserted ≡ true → a ≡ b)

module _ {P Num : Type 0} where
  touch-view :
      (obs : Observation P) (row : MemoryRawRow P) (d : PgCorpus P Num)
      → IdsRise d.raw_payloads
      → find_last (is_row_of obs.source obs.external_id) d.raw_payloads ≡ some row
      → view (touch_raw obs row d).1 ≡ plain (Memory.touch_row obs row (view d)).1
  unfolding touch_raw touch_row
  touch-view obs row d rise found =
      ap (λ rows. record (view d) { raw_rows = rows })
        (update_where-update_last (is_row_of obs.source obs.external_id)
          (λ r. record r { last_seen = obs.fetched_at }) d.raw_payloads row rise found)

  pub persist-touch :
      (obs : Observation P) (row : MemoryRawRow P) (d : PgCorpus P Num)
      → IdsRise d.raw_payloads
      → find_last (is_row_of obs.source obs.external_id) d.raw_payloads ≡ some row
      → row.content_hash ≡ obs.content_hash
      → persist obs d ≡ touch_raw obs row d
  unfolding persist
  persist-touch obs row d rise found same =
      let e =
        latest_of-find_last (is_row_of obs.source obs.external_id) d.raw_payloads rise ∙ found in
      rw (e, persist, (text_eq_iff row.content_hash obs.content_hash).1 same)

  pub persist-insert :
      (obs : Observation P) (d : PgCorpus P Num)
      → IdsRise d.raw_payloads
      → ((old : MemoryRawRow P)
          → find_last (is_row_of obs.source obs.external_id) d.raw_payloads ≡ some old
          → old.content_hash ≢ obs.content_hash)
      → persist obs d ≡ insert_raw obs d
  unfolding persist
  persist-insert obs d rise differs =
      let newest = latest_of-find_last (is_row_of obs.source obs.external_id) d.raw_payloads rise in
      elim (Option-cases (find_last (is_row_of obs.source obs.external_id) d.raw_payloads)) [
        | inl absent ↦ let e = newest ∙ absent in rw (e, persist)
        | inr (row, found) ↦
            let e = newest ∙ found in
            elim (Bool-cases (text_eq row.content_hash obs.content_hash)) [
              | inl same ↦ absurd (differs row found ((text_eq_iff _ _).0 same))
              | inr other ↦ rw (e, persist, other)
            ]
      ]

  -- Persisting in Postgres is persisting in memory, when the ids of the raw table rise and are
  -- below the next one: the tables then stand for the corpus which memory has after the same
  -- observation, and both stores answer with the same raw row, of the same instant, as newly
  -- inserted or not. The payload of a row that was there is this poll's in the answer over
  -- Postgres, and the stored one in memory.
  pub persist-view :
      (obs : Observation P) (d : PgCorpus P Num)
      → Rising d.next_raw_id (map freeze d.raw_payloads)
      → (view (persist obs d).1 ≡ plain (Memory.persist obs (view d)).1)
        × SameStored obs (persist obs d).0 (Memory.persist obs (view d)).0
  unfolding insert_raw touch_raw stored_again Memory.insert_row Memory.touch_row
      existing_observation
  persist-view obs d rising =
      let rise = Rising-IdsRise d.next_raw_id d.raw_payloads rising in
      elim (persist_cases obs (view d)) [
        | inl (row, found, same, way) ↦
            rw (persist-touch obs row d rise found same, way)
              (
                touch-view obs row d rise found,
                (
                  stored_again obs row,
                  existing_observation obs row,
                  false,
                  refl,
                  refl,
                  refl,
                  refl,
                  λ no. absurd (cc),
                ),
              )
        | inr (differs, way) ↦
            rw (persist-insert obs d rise differs, way)
              (refl, (_, _, true, refl, refl, refl, refl, λ _. refl))
      ]
