-- ===== src/Ingest/Pg/Lifecycle/Refines.antt =====
-- The reconciliation over Postgres is the one in memory.
use mathlib.Core.List.{append-nil, append_assoc}
use monster_paws.Prelude.{
  take-drop, length-drop, take, drop, ℕ, zero, suc, ◌≤◌, Text, text_eq_iff, true, ◌≡◌, refl, sym,
  ap, ◌∙◌, Bool, ◌&&◌, none, some, List, [], ◌∷◌, ◌++◌, map, keep_if, keep_if-append, length, inl,
  inr, arith, Bool-cases, Option-cases, if◌then◌else◌,
}
use monster_paws.Ingest.Gate.{DisappearanceTally, DisappearanceVerdict, ReconcileAt}
use monster_paws.Ingest.Model.{IngestEvent}
use monster_paws.Ingest.Report.{Reconciled, is_absent, kind_eq}
use monster_paws.Ingest.Corpus.{Corpus, MemoryIdentity, key, event_rank, in_lifecycle_order}
use monster_paws.Ingest.Reconcile
use monster_paws.Ingest.Reconcile.{
  own_of, newest_sighting, tally_of, event_of, visit, visit_all, met, missed,
}
use monster_paws.Ingest.Pg.{PgCorpus, update_where}
use monster_paws.Ingest.Pg.View.{pair_path, view, plain, view_identities}
use monster_paws.Ingest.Pg.Lifecycle.{
  insert_chunks, logged, by_source, in_seen, was_gone, is_gone, reappeared, disappeared, see_rows,
  miss_rows, gone_at, settle, reconcile,
}
use monster_paws.Ingest.Pg.Rows.{IdentityRows, update_where-IdentityRows}
use monster_paws.Ingest.Pg.Lifecycle.Shuffle.{Collates, IsRowOrder, in_lifecycle_order-returned}
use monster_paws.Ingest.Pg.Lifecycle.Order.{is_early, is_late, in_lifecycle_order-split}

-- However long a wave of events is, the loop of chunks ends within as many rounds, and logs each
-- event once and in order, for chunks of any size but zero.
pub insert_chunks-total :
    (fuel chunk : ℕ) (es log : List IngestEvent)
    → length es ≤ fuel
    → insert_chunks fuel (suc chunk) es log ≡ some (log ++ es)
unfolding insert_chunks
insert_chunks-total zero chunk [] log h = rw append-nil refl
insert_chunks-total (suc fuel) chunk [] log h = rw append-nil refl
insert_chunks-total zero chunk (e ∷ es) log h = absurd (omega arith)
insert_chunks-total (suc fuel) chunk (e ∷ es) log h =
    let rest = drop (suc chunk) (e ∷ es) in
    let first = take (suc chunk) (e ∷ es) in
    let short : length rest ≤ fuel = unfold drop in omega (arith, length-drop chunk es) in
    insert_chunks-total fuel chunk rest (log ++ first) short
    ∙ ap some (append_assoc log first rest ∙ ap (λ l. log ++ l) (take-drop (suc chunk) (e ∷ es)))

logged-append : (es log : List IngestEvent) → logged es log ≡ log ++ es
unfolding logged
logged-append es log = rw (insert_chunks-total (length es) 999 es log (omega arith), logged) refl

module _ (source : Text) (seen : List Text) (at : ℕ) where
  -- One row under the two updates.
  abbrev see_row : MemoryIdentity → MemoryIdentity
  see_row id =
      if by_source source id && in_seen seen id
      then record id { disappeared_at = none; last_seen_at = at }
      else id

  abbrev miss_row : MemoryIdentity → MemoryIdentity
  miss_row id = if is_gone source seen id then record id { disappeared_at = some at } else id

  row-visit : (id : MemoryIdentity) → miss_row (see_row id) ≡ (visit source seen at id).0
  unfolding visit met missed by_source in_seen is_gone is_absent
  row-visit id = elim (Option-cases id.disappeared_at) [
    | inl present ↦ ground arith
    | inr (gone, e) ↦ ground arith
  ]

  row-key :
      (id : MemoryIdentity)
      → ((miss_row (see_row id)).source ≡ id.source)
        × ((miss_row (see_row id)).external_id ≡ id.external_id)
  unfolding by_source in_seen is_gone is_absent
  row-key id = ground arith

  early_of :
      (id : MemoryIdentity)
      → keep_if is_early (visit source seen at id).1
        ≡ (if was_gone source seen id then reappeared source at id ∷ [] else [])
  unfolding visit met missed was_gone reappeared gone_at is_absent by_source in_seen keep_if
      is_early event_rank event_of kind_eq
  early_of id = elim (Option-cases id.disappeared_at) [
    | inl present ↦ ground arith
    | inr (gone, e) ↦ ground arith
  ]

  late_of :
      (id : MemoryIdentity)
      → keep_if is_late (visit source seen at id).1
        ≡ (if is_gone source seen (see_row id) then disappeared source at (see_row id) ∷ [] else [])
  unfolding visit met missed is_gone disappeared is_absent by_source in_seen keep_if is_early
      is_late event_rank event_of kind_eq
  late_of id = elim (Option-cases id.disappeared_at) [
    | inl present ↦ ground arith
    | inr (gone, e) ↦ ground arith
  ]

  rows-visit_all :
      (ids : List MemoryIdentity)
      → view_identities (miss_rows source seen at (see_rows source seen at ids))
        ≡ (visit_all source seen at (view_identities ids)).0
  unfolding miss_rows see_rows update_where visit_all
  rows-visit_all [] = refl
  rows-visit_all (id ∷ ids) =
      let (es, ee) = row-key id in
      let k : key (miss_row (see_row id)).source (miss_row (see_row id)).external_id
          ≡ key id.source id.external_id =
        ap (λ s. key s (miss_row (see_row id)).external_id) es ∙ ap (λ e. key id.source e) ee in
      let step : (key id.source id.external_id, miss_row (see_row id))
            ∷ view_identities (miss_rows source seen at (see_rows source seen at ids))
          ≡ (key id.source id.external_id, (visit source seen at id).0)
            ∷ (visit_all source seen at (view_identities ids)).0 =
        ap
          (λ x.
            (key id.source id.external_id, x)
            ∷ view_identities (miss_rows source seen at (see_rows source seen at ids)))
          (row-visit id)
        ∙ ap (λ l. (key id.source id.external_id, (visit source seen at id).0) ∷ l)
            (rows-visit_all ids) in
      ap
        (λ x.
          (x, miss_row (see_row id))
          ∷ view_identities (miss_rows source seen at (see_rows source seen at ids)))
        k
      ∙ step

  early-visit_all :
      (ids : List MemoryIdentity)
      → keep_if is_early (visit_all source seen at (view_identities ids)).1
        ≡ map (reappeared source at) (keep_if (was_gone source seen) ids)
  unfolding visit_all keep_if
  early-visit_all [] = refl
  early-visit_all (id ∷ ids) =
      keep_if-append is_early (visit source seen at id).1
        (visit_all source seen at (view_identities ids)).1
      ∙ ap (λ l. l ++ keep_if is_early (visit_all source seen at (view_identities ids)).1)
          (early_of id)
      ∙ elim (Bool-cases (was_gone source seen id)) [
        | inl was ↦ rw was (ap (λ l. reappeared source at id ∷ l) (early-visit_all ids))
        | inr not_so ↦ rw not_so (early-visit_all ids)
      ]

  late-visit_all :
      (ids : List MemoryIdentity)
      → keep_if is_late (visit_all source seen at (view_identities ids)).1
        ≡ map (disappeared source at) (keep_if (is_gone source seen) (see_rows source seen at ids))
  unfolding visit_all keep_if see_rows update_where
  late-visit_all [] = refl
  late-visit_all (id ∷ ids) =
      keep_if-append is_late (visit source seen at id).1
        (visit_all source seen at (view_identities ids)).1
      ∙ ap (λ l. l ++ keep_if is_late (visit_all source seen at (view_identities ids)).1)
          (late_of id)
      ∙ elim (Bool-cases (is_gone source seen (see_row id))) [
        | inl gone ↦ rw gone (ap (λ l. disappeared source at (see_row id) ∷ l) (late-visit_all ids))
        | inr not_so ↦ rw not_so (late-visit_all ids)
      ]

  early_map :
      (xs ys : List MemoryIdentity)
      → (keep_if is_early (map (reappeared source at) xs ++ map (disappeared source at) ys)
          ≡ map (reappeared source at) xs)
        × (keep_if is_late (map (reappeared source at) xs ++ map (disappeared source at) ys)
            ≡ map (disappeared source at) ys)
  unfolding keep_if is_early is_late event_rank event_of kind_eq reappeared disappeared
  early_map [] [] = (refl, refl)
  early_map [] (y ∷ ys) =
      let (a, b) = early_map [] ys in (a, ap (λ l. disappeared source at y ∷ l) b)
  early_map (x ∷ xs) ys =
      let (a, b) = early_map xs ys in (ap (λ l. reappeared source at x ∷ l) a, b)

  -- The events of the statements, once in order, are those of the loop.
  ordered-visit_all :
      (precedes : Text → Text → Bool) (ids : List MemoryIdentity)
      → in_lifecycle_order precedes (
          map (reappeared source at) (keep_if (was_gone source seen) ids)
          ++ map
              (disappeared source at)
              (keep_if (is_gone source seen) (see_rows source seen at ids)))
        ≡ in_lifecycle_order precedes (visit_all source seen at (view_identities ids)).1
  ordered-visit_all precedes ids =
      let xs = keep_if (was_gone source seen) ids in
      let ys = keep_if (is_gone source seen) (see_rows source seen at ids) in
      let (a, b) = early_map xs ys in
      in_lifecycle_order-split precedes
        (map (reappeared source at) xs ++ map (disappeared source at) ys)
      ∙ ap
          (λ l.
            in_lifecycle_order precedes l
            ++ in_lifecycle_order precedes
                (keep_if is_late (map (reappeared source at) xs ++ map (disappeared source at) ys)))
          (a ∙ sym (early-visit_all ids))
      ∙ ap
          (λ l.
            in_lifecycle_order precedes
              (keep_if is_early (visit_all source seen at (view_identities ids)).1)
            ++ in_lifecycle_order precedes l)
          (b ∙ sym (late-visit_all ids))
      ∙ sym (in_lifecycle_order-split precedes (visit_all source seen at (view_identities ids)).1)

was_gone-source :
    (source : Text) (seen : List Text) (id : MemoryIdentity)
    → was_gone source seen id ≡ true
    → id.source ≡ source
unfolding was_gone by_source
was_gone-source source seen id h = ground (arith, text_eq_iff id.source source)

is_gone-source :
    (source : Text) (seen : List Text) (id : MemoryIdentity)
    → is_gone source seen id ≡ true
    → id.source ≡ source
unfolding is_gone by_source
is_gone-source source seen id h = ground (arith, text_eq_iff id.source source)

own_of-view :
    (source : Text) (ids : List MemoryIdentity)
    → own_of source (view_identities ids) ≡ keep_if (by_source source) ids
unfolding own_of keep_if by_source
own_of-view source [] = refl
own_of-view source (id ∷ ids) = ground (arith, own_of-view source ids)

module _ {P Num : Type 0} (precedes : Text → Text → Bool) (IsPlain : Text → Type 0)
    (collates : Collates precedes IsPlain)
    (gone_order missed_order : List MemoryIdentity → List MemoryIdentity)
    (gone_orders : IsRowOrder gone_order) (missed_orders : IsRowOrder missed_order) where
  abbrev SameReconciled : Reconciled Num × PgCorpus P Num → Reconciled Num × Corpus P Num → Type 0
  SameReconciled pg memory = (view pg.1 ≡ plain memory.1) × (pg.0 ≡ memory.0)

  settle-view :
      (source : Text) (seen : List Text) (resolved : ReconcileAt)
      (verdict : DisappearanceVerdict Num) (d : PgCorpus P Num)
      → IdentityRows IsPlain d.animal_identities
      → SameReconciled
          (settle precedes gone_order missed_order source seen resolved verdict d)
          (Reconcile.settle precedes source seen resolved verdict (view d))
  unfolding settle Reconcile.settle
  settle-view source seen resolved verdict d owned = elim (Option-cases verdict.refusal) [
    | inr (refusal, e) ↦ rw (e, settle, Reconcile.settle) (refl, refl)
    | inl e ↦
        let rows = rows-visit_all source seen resolved.at d.animal_identities in
        let present : IdentityRows IsPlain (see_rows source seen resolved.at d.animal_identities) =
          unfold see_rows in
          update_where-IdentityRows IsPlain _
            (λ id. record id { disappeared_at = none; last_seen_at = resolved.at })
            (λ r. (refl, refl)) d.animal_identities owned in
        let ordered =
          in_lifecycle_order-returned precedes IsPlain collates source resolved.at
            (was_gone source seen) (is_gone source seen) d.animal_identities
            (see_rows source seen resolved.at d.animal_identities) gone_order missed_order
            gone_orders missed_orders (was_gone-source source seen) (is_gone-source source seen)
            owned.unique owned.plain present.unique present.plain
          ∙ ordered-visit_all source seen resolved.at precedes d.animal_identities in
        rw (e, settle, Reconcile.settle)
          (
            ap (λ a. record (view d) { identities = a.0; events = a.1 })
                (pair_path rows (logged-append _ d.event_log ∙ ap (λ l. d.event_log ++ l) ordered)),
            ap
                (λ evs. record {
                  events = evs;
                  clock_stepped_back_ms = some resolved.clock_stepped_back_ms;
                  refused = none;
                  judged = some verdict;
                })
                ordered,
          )
  ]

  -- The reconciliation over Postgres, by statements on whole sets and an insert of its events in
  -- chunks, gives what the loop in memory gives on the corpus that the tables stand for, its
  -- events in the same order, and leaves tables that stand for the corpus which that loop leaves;
  -- in whatever order the database returns the rows, if there is one row for each record and the
  -- comparison is transitive and tells any two of the rows' external ids apart.
  pub reconcile-view :
      (source : Text) (seen : List Text) (requested_at : ℕ)
      (gate : DisappearanceTally → DisappearanceVerdict Num) (d : PgCorpus P Num)
      → IdentityRows IsPlain d.animal_identities
      → (view (reconcile precedes gone_order missed_order source seen requested_at gate d).1
          ≡ plain (Reconcile.reconcile precedes source seen requested_at gate (view d)).1)
        × ((reconcile precedes gone_order missed_order source seen requested_at gate d).0
            ≡ (Reconcile.reconcile precedes source seen requested_at gate (view d)).0)
  unfolding reconcile Reconcile.reconcile
  reconcile-view source seen requested_at gate d owned =
      rw (own_of-view source d.animal_identities) (settle-view source seen _ _ d owned)
