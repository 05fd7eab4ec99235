-- ===== src/Ingest/Pg/Lifecycle/Order.antt =====
-- The lifecycle order puts every reappearance before every disappearance.
use monster_paws.Prelude.{
  ◌≤◌, Text, ◌≡◌, refl, ap, ◌∙◌, Bool, true, false, not, List, [], ◌∷◌, ◌++◌, keep_if, All, inl,
  inr, ◌==◌, arith, Bool-cases, if◌then◌else◌, ltb,
}
use monster_paws.Ingest.Model.{IngestEvent, event_external_id}
use monster_paws.Ingest.Corpus.{event_rank, insert_sorted, sort, in_lifecycle_order}

unfoldable pub is_early : IngestEvent → Bool
is_early e = event_rank e == 0

unfoldable pub is_late : IngestEvent → Bool
unfolding is_early
is_late e = not (is_early e)

rank_bound : (e : IngestEvent) → event_rank e ≤ 1
unfolding event_rank
rank_bound e = ground arith

module _ (precedes : Text → Text → Bool) where
  abbrev pub before : IngestEvent → IngestEvent → Bool
  before a b =
      if event_rank a == event_rank b
      then precedes (event_external_id a.event_data) (event_external_id b.event_data)
      else ltb (event_rank a) (event_rank b)

  insert_early :
      (e : IngestEvent) (rs ds : List IngestEvent)
      → is_early e ≡ true
      → All (λ d. is_early d ≡ false) ds
      → insert_sorted before e (rs ++ ds) ≡ insert_sorted before e rs ++ ds
  unfolding insert_sorted is_early
  insert_early e [] [] he hd = refl
  insert_early e [] (d ∷ ds) he hd =
      let first : before e d ≡ true = ground (arith, rank_bound d, hd.0) in rw first refl
  insert_early e (r ∷ rs) ds he hd = elim (Bool-cases (before e r)) [
    | inl first ↦ rw first refl
    | inr later ↦ rw later (ap (λ l. r ∷ l) (insert_early e rs ds he hd))
  ]

  insert_late :
      (e : IngestEvent) (rs ds : List IngestEvent)
      → is_early e ≡ false
      → All (λ r. is_early r ≡ true) rs
      → insert_sorted before e (rs ++ ds) ≡ rs ++ insert_sorted before e ds
  unfolding insert_sorted is_early
  insert_late e [] ds he hr = refl
  insert_late e (r ∷ rs) ds he hr =
      let later : before e r ≡ false = ground (arith, hr.0) in
      rw later (ap (λ l. r ∷ l) (insert_late e rs ds he hr.1))

  All-insert :
      (P : IngestEvent → Type 0) (e : IngestEvent) (es : List IngestEvent)
      → P e
      → All P es
      → All P (insert_sorted before e es)
  unfolding insert_sorted
  All-insert P e [] h hs = (h, tt)
  All-insert P e (x ∷ xs) h hs = elim (Bool-cases (before e x)) [
    | inl first ↦ rw first (h, hs)
    | inr later ↦ rw later (hs.0, All-insert P e xs h hs.1)
  ]

  All-sorted_kept :
      (b : Bool) (test : IngestEvent → Bool) (es : List IngestEvent)
      → ((e : IngestEvent) → test e ≡ true → is_early e ≡ b)
      → All (λ e. is_early e ≡ b) (sort before (keep_if test es))
  unfolding sort keep_if
  All-sorted_kept b test [] h = tt
  All-sorted_kept b test (e ∷ es) h = elim (Bool-cases (test e)) [
    | inl stays ↦
        rw stays (All-insert (λ x. is_early x ≡ b) e _ (h e stays) (All-sorted_kept b test es h))
    | inr out ↦ rw out (All-sorted_kept b test es h)
  ]

  -- The order of a mixture is that of its reappearances, and then that of the rest.
  pub in_lifecycle_order-split :
      (es : List IngestEvent)
      → in_lifecycle_order precedes es
        ≡ in_lifecycle_order precedes (keep_if is_early es)
          ++ in_lifecycle_order precedes (keep_if is_late es)
  unfolding in_lifecycle_order sort keep_if is_late
  in_lifecycle_order-split [] = refl
  in_lifecycle_order-split (e ∷ es) =
      let ih = in_lifecycle_order-split es in
      let rs = sort before (keep_if is_early es) in
      let ds = sort before (keep_if is_late es) in
      elim (Bool-cases (is_early e)) [
        | inl early ↦ rw early (
            ap (insert_sorted before e) ih
            ∙ insert_early e rs ds early
                (All-sorted_kept false is_late es (λ x h. unfold is_late in ground arith)))
        | inr late ↦ rw late (
            ap (insert_sorted before e) ih
            ∙ insert_late e rs ds late (All-sorted_kept true is_early es (λ x h. h)))
      ]
