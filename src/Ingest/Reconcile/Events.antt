-- ===== src/Ingest/Reconcile/Events.antt =====
-- The events of a reconciliation.
use monster_paws.Prelude.{
  ℕ, ◌+◌, Text, ◌≡◌, refl, ap, ◌∙◌, inl, inr, Bool, not, none, List, [], ◌∷◌, ◌++◌, Map, length,
  keep_if, keep_if-append, length-append, arith, Bool-cases, if◌then◌else◌,
}
use monster_paws.Ingest.Gate.{DisappearanceTally, DisappearanceVerdict}
use monster_paws.Ingest.Model.{
  IngestEvent, EventKind, animal_seen, animal_updated, animal_disappeared, animal_reappeared,
}
use monster_paws.Ingest.Report.{count_kind, kind_eq, is_absent}
use monster_paws.Ingest.Pipeline.{has_text}
use monster_paws.Ingest.Corpus.{Corpus, MemoryIdentity, in_lifecycle_order, sort, insert_sorted}
use monster_paws.Ingest.Reconcile.{
  own_of, met, missed, visit, visit_all, tally_of, reconcile, event_of,
}
use monster_paws.Ingest.Reconcile.Presence.{
  resolved_at, reconcile_cases, Becomes, others, present, still_gone, gone, visit-Becomes,
}

count_kind-append :
    (k : EventKind) (es fs : List IngestEvent)
    → count_kind k (es ++ fs) ≡ count_kind k es + count_kind k fs
unfolding count_kind
count_kind-append k [] fs = omega arith
count_kind-append k (e ∷ es) fs = ground (arith, count_kind-append k es fs)

abbrev bit : EventKind → IngestEvent → ℕ
bit k e = if kind_eq e.kind k then 1 else 0

count_kind-cons :
    (k : EventKind) (e : IngestEvent) (es : List IngestEvent)
    → count_kind k (e ∷ es) ≡ bit k e + count_kind k es
unfolding count_kind
count_kind-cons k e es = ground arith

module _ (before : IngestEvent → IngestEvent → Bool) (k : EventKind) where
  count_kind-insert_sorted :
      (e : IngestEvent) (es : List IngestEvent)
      → count_kind k (insert_sorted before e es) ≡ bit k e + count_kind k es
  unfolding insert_sorted
  count_kind-insert_sorted e [] = count_kind-cons k e []
  count_kind-insert_sorted e (f ∷ es) = elim (Bool-cases (before e f)) [
    | inl b ↦ rw b (count_kind-cons k e (f ∷ es))
    | inr b ↦ rw b (
        omega (
          arith,
          count_kind-cons k f (insert_sorted before e es),
          count_kind-cons k f es,
          count_kind-insert_sorted e es,
        ))
  ]

  -- Sorting keeps every count.
  count_kind-sort : (es : List IngestEvent) → count_kind k (sort before es) ≡ count_kind k es
  unfolding sort
  count_kind-sort [] = refl
  count_kind-sort (e ∷ es) = omega (
    arith,
    count_kind-insert_sorted e (sort before es),
    count_kind-cons k e es,
    count_kind-sort es,
  )

-- What one identity adds to the counts of events.
visit_counts :
    (source : Text) (seen : List Text) (at : ℕ) (id : MemoryIdentity)
    → let events = (visit source seen at id).1 in
      (count_kind animal_disappeared events
        ≡ length (
            keep_if
              (λ x. not (has_text x.external_id seen))
              (keep_if (λ x. is_absent x.disappeared_at) (own_of source (([], id) ∷ [])))))
      × (count_kind animal_reappeared events
          ≡ length (
              keep_if
                (λ x. has_text x.external_id seen)
                (keep_if (λ x. not (is_absent x.disappeared_at)) (own_of source (([], id) ∷ [])))))
      × (count_kind animal_seen events ≡ 0)
      × (count_kind animal_updated events ≡ 0)
unfolding visit met missed event_of own_of keep_if count_kind is_absent
visit_counts source seen at id = ground arith

abbrev missing_in : List Text → List MemoryIdentity → List MemoryIdentity
missing_in seen own =
    keep_if (λ x. not (has_text x.external_id seen)) (keep_if (λ x. is_absent x.disappeared_at) own)

abbrev back_in : List Text → List MemoryIdentity → List MemoryIdentity
back_in seen own =
    keep_if (λ x. has_text x.external_id seen) (keep_if (λ x. not (is_absent x.disappeared_at)) own)

own_of-cons :
    (source k : Text) (id : MemoryIdentity) (rest : Map Text MemoryIdentity)
    → own_of source ((k, id) ∷ rest) ≡ own_of source (([], id) ∷ []) ++ own_of source rest
unfolding own_of
own_of-cons source k id rest = ground arith

length-filtered :
    (p q : MemoryIdentity → Bool) (xs ys : List MemoryIdentity)
    → length (keep_if p (keep_if q (xs ++ ys)))
      ≡ length (keep_if p (keep_if q xs)) + length (keep_if p (keep_if q ys))
length-filtered p q xs ys =
    rw (keep_if-append q xs ys, keep_if-append p (keep_if q xs) (keep_if q ys))
      (length-append (keep_if p (keep_if q xs)) (keep_if p (keep_if q ys)))

-- The events of the whole loop.
visit_all-counts :
    (source : Text) (seen : List Text) (at : ℕ) (ids : Map Text MemoryIdentity)
    → let events = (visit_all source seen at ids).1 in
      (count_kind animal_disappeared events ≡ length (missing_in seen (own_of source ids)))
      × (count_kind animal_reappeared events ≡ length (back_in seen (own_of source ids)))
      × (count_kind animal_seen events ≡ 0)
      × (count_kind animal_updated events ≡ 0)
unfolding visit_all
visit_all-counts source seen at [] = unfold own_of keep_if count_kind in (refl, refl, refl, refl)
visit_all-counts source seen at ((k, id) ∷ rest) =
    let one = visit_counts source seen at id in
    let more = visit_all-counts source seen at rest in
    let here = own_of source (([], id) ∷ []) in
    let others = own_of source rest in
    let sum = λ (kind : EventKind).
      count_kind-append kind (visit source seen at id).1 (visit_all source seen at rest).1 in
    rw (own_of-cons source k id rest) (
      omega (
        arith,
        sum animal_disappeared,
        one.0,
        more.0,
        length-filtered (λ x. not (has_text x.external_id seen)) (λ x. is_absent x.disappeared_at)
            here others,
      ),
      omega (
        arith,
        sum animal_reappeared,
        one.1,
        more.1,
        length-filtered (λ x. has_text x.external_id seen) (λ x. not (is_absent x.disappeared_at))
            here others,
      ),
      omega (arith, sum animal_seen, one.2, more.2),
      omega (arith, sum animal_updated, one.3, more.3),
    )

-- When the gate lets a reconciliation through, the events that it reports are as many
-- disappearances as the gate was told of beforehand, one return for each identity of the source
-- that was gone and was seen, and nothing else.
pub reconcile-counts :
    {P Num : Type 0} (precedes : Text → Text → Bool) (source : Text) (seen : List Text)
    (requested : ℕ) (gate : DisappearanceTally → DisappearanceVerdict Num) (c : Corpus P Num)
    → (reconcile precedes source seen requested gate c).0.refused ≡ none
    → let events = (reconcile precedes source seen requested gate c).0.events in
      let own = own_of source c.identities in
      (count_kind animal_disappeared events
        ≡ (tally_of seen (resolved_at source requested c.identities).at own).disappearing)
      × (count_kind animal_reappeared events
          ≡ length (
              keep_if
                (λ x. has_text x.external_id seen)
                (keep_if (λ x. not (is_absent x.disappeared_at)) own)))
      × (count_kind animal_seen events ≡ 0)
      × (count_kind animal_updated events ≡ 0)
unfolding tally_of in_lifecycle_order
reconcile-counts precedes source seen requested gate c open_gate =
    elim (reconcile_cases precedes source seen requested gate c) [
      | inl (r, _, refused, _, _) ↦ absurd (cc)
      | inr (_, _, _, events, _) ↦
          let counts =
            visit_all-counts source seen (resolved_at source requested c.identities).at
              c.identities in
          rw (events, in_lifecycle_order)
            (
              count_kind-sort _ animal_disappeared _ ∙ counts.0,
              count_kind-sort _ animal_reappeared _ ∙ counts.1,
              count_kind-sort _ animal_seen _ ∙ counts.2,
              count_kind-sort _ animal_updated _ ∙ counts.3,
            )
    ]

Becomes-quiet :
    {source : Text} {seen : List Text} {at : ℕ} {id id' : MemoryIdentity} (later : ℕ)
    → Becomes source seen at id id'
    → (visit source seen later id').1 ≡ []
unfolding visit met missed
Becomes-quiet later (others other e) = ground arith
Becomes-quiet later (present own here e) = ground arith
Becomes-quiet later (still_gone own missing g f e) = ground arith
Becomes-quiet later (gone own missing f e) = ground arith

visit_all-quiet :
    (source : Text) (seen : List Text) (at later : ℕ) (ids : Map Text MemoryIdentity)
    → (visit_all source seen later (visit_all source seen at ids).0).1 ≡ []
unfolding visit_all
visit_all-quiet source seen at later [] = refl
visit_all-quiet source seen at later ((k, id) ∷ rest) = rw (
  Becomes-quiet later (visit-Becomes source seen at id),
  visit_all-quiet source seen at later rest,
)

-- Reconciling the same feed a second time, at whatever instant, reports no event.
pub reconcile-quiet :
    {P Num : Type 0} (precedes : Text → Text → Bool) (source : Text) (seen : List Text)
    (requested later : ℕ) (gate again : DisappearanceTally → DisappearanceVerdict Num)
    (c : Corpus P Num)
    → (reconcile precedes source seen requested gate c).0.refused ≡ none
    → (reconcile precedes source seen later again
        (reconcile precedes source seen requested gate c).1).0.events
      ≡ []
unfolding in_lifecycle_order sort
reconcile-quiet precedes source seen requested later gate again c open_gate =
    elim (reconcile_cases precedes source seen requested gate c) [
      | inl (r, _, refused, _, _) ↦ absurd (cc)
      | inr (_, _, ids, _, _) ↦
          elim (reconcile_cases precedes source seen later again
            (reconcile precedes source seen requested gate c).1) [
              | inl (_, _, _, events, _) ↦ events
              | inr (_, _, _, events, _) ↦
                  events
                  ∙ ap (in_lifecycle_order precedes) (
                      ap (λ x. (visit_all source seen (second_at x) x).1) ids
                      ∙ visit_all-quiet source seen _ _ c.identities)
            ]
    ]
  where
    second_at : Map Text MemoryIdentity → ℕ
    second_at ids = (resolved_at source later ids).at
