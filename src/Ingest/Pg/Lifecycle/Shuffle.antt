-- ===== src/Ingest/Pg/Lifecycle/Shuffle.antt =====
-- The lifecycle order of a reconciliation's events, in whatever order the database returns rows.
use mathlib.Core.List.{Permᴰ}
use mathlib.Core.List.Permᴰ
use monster_paws.Prelude.{
  Text, text_eq_iff, ◌≡◌, ◌≢◌, refl, sym, ◌∙◌, inl, inr, Bool, true, not, List, [], ◌∷◌, ◌++◌, map,
  keep_if, All, ℕ, ◌==◌, arith, Bool-cases,
}
use monster_paws.Ingest.Model.{IngestEvent, event_external_id}
use monster_paws.Ingest.Report.{kind_eq}
use monster_paws.Ingest.Corpus.{MemoryIdentity, event_rank, in_lifecycle_order}
use monster_paws.Ingest.Corpus.Shuffle.{
  ToldApart, AllToldApart, append-AllToldApart, sort-Permᴰ, map-Permᴰ,
}
use monster_paws.Ingest.Reconcile.{event_of}
use monster_paws.Ingest.Pg.{is_identity_of}
use monster_paws.Ingest.Pg.View.{Apart, UniqueRows}
use monster_paws.Ingest.Pg.Lifecycle.{reappeared, disappeared}
use monster_paws.Ingest.Pg.Lifecycle.Order.{before}

-- What the code relies on of `localeCompare`: an order, which tells any two ids of the class apart.
pub record Collates (precedes : Text → Text → Bool) (IsPlain : Text → Type 0) : Type 0 where
  pub transitive : (a b c : Text) → precedes a b ≡ true → precedes b c ≡ true → precedes a c ≡ true
  pub apart : (a b : Text) → IsPlain a → IsPlain b → a ≢ b → precedes a b ≡ not (precedes b a)

abbrev pub PlainRow : (Text → Type 0) → MemoryIdentity → Type 0
PlainRow IsPlain id = IsPlain id.external_id

-- A query returns its rows in an order of its own.
abbrev pub IsRowOrder : (List MemoryIdentity → List MemoryIdentity) → Type 0
IsRowOrder returned = (rows : List MemoryIdentity) → Permᴰ rows (returned rows)

module _ (precedes : Text → Text → Bool) (IsPlain : Text → Type 0)
    (collates : Collates precedes IsPlain) where
  before_trans :
      (a b c : IngestEvent)
      → before precedes a b ≡ true
      → before precedes b c ≡ true
      → before precedes a c ≡ true
  before_trans a b c h k = ground (
    arith,
    collates.transitive (event_external_id a.event_data) (event_external_id b.event_data)
        (event_external_id c.event_data),
  )

  -- Two records of one source have other external ids.
  distinct_ids :
      (a b : MemoryIdentity) → a.source ≡ b.source → Apart a b → a.external_id ≢ b.external_id
  unfolding is_identity_of
  distinct_ids a b e apart same =
      ground (arith, text_eq_iff b.source a.source, text_eq_iff b.external_id a.external_id)

  module _ (source : Text) (event : MemoryIdentity → IngestEvent)
      (keyed : (id : MemoryIdentity) → event_external_id (event id).event_data ≡ id.external_id)
      (ranked : (a b : MemoryIdentity) → event_rank (event a) ≡ event_rank (event b))
      (test : MemoryIdentity → Bool)
      (own : (id : MemoryIdentity) → test id ≡ true → id.source ≡ source) where
    event-ToldApart :
        (a b : MemoryIdentity)
        → a.external_id ≢ b.external_id
        → IsPlain a.external_id
        → IsPlain b.external_id
        → ToldApart (before precedes) (event a) (event b)
    event-ToldApart a b differ pa pb =
        let e = ranked a b in
        let here : (event_rank (event a) == event_rank (event b)) ≡ true = ground (arith, e) in
        let there : (event_rank (event b) == event_rank (event a)) ≡ true = ground (arith, e) in
        rw (here, there, keyed a, keyed b) (collates.apart a.external_id b.external_id pa pb differ)

    kept-ToldApart :
        (a : MemoryIdentity) (ids : List MemoryIdentity)
        → a.source ≡ source
        → PlainRow IsPlain a
        → All (Apart a) ids
        → All (PlainRow IsPlain) ids
        → All (ToldApart (before precedes) (event a)) (map event (keep_if test ids))
    unfolding keep_if
    kept-ToldApart a [] e pa h p = tt
    kept-ToldApart a (b ∷ ids) e pa h p = elim (Bool-cases (test b)) [
      | inr out ↦ rw out (kept-ToldApart a ids e pa h.1 p.1)
      | inl stays ↦ rw stays (
        event-ToldApart a b (distinct_ids a b (e ∙ sym (own b stays)) h.0) pa p.0,
        kept-ToldApart a ids e pa h.1 p.1,
      )
    ]

    pub kept-AllToldApart :
        (ids : List MemoryIdentity)
        → UniqueRows ids
        → All (PlainRow IsPlain) ids
        → AllToldApart (before precedes) (map event (keep_if test ids))
    unfolding keep_if
    kept-AllToldApart [] u p = tt
    kept-AllToldApart (a ∷ ids) u p = elim (Bool-cases (test a)) [
      | inr out ↦ rw out (kept-AllToldApart ids u.1 p.1)
      | inl stays ↦
          rw stays (kept-ToldApart a ids (own a stays) p.0 u.0 p.1, kept-AllToldApart ids u.1 p.1)
    ]

  -- A return and a disappearance are told apart by their ranks.
  rank-ToldApart :
      (source : Text) (at : ℕ) (x : MemoryIdentity) (ys : List MemoryIdentity)
      → All (ToldApart (before precedes) (reappeared source at x)) (map (disappeared source at) ys)
  unfolding reappeared disappeared event_of event_rank kind_eq
  rank-ToldApart source at x [] = tt
  rank-ToldApart source at x (y ∷ ys) = (refl, rank-ToldApart source at x ys)

  ranks-ToldApart :
      (source : Text) (at : ℕ) (xs ys : List MemoryIdentity)
      → All
          (λ e. All (ToldApart (before precedes) e) (map (disappeared source at) ys))
          (map (reappeared source at) xs)
  ranks-ToldApart source at [] ys = tt
  ranks-ToldApart source at (x ∷ xs) ys =
      (rank-ToldApart source at x ys, ranks-ToldApart source at xs ys)

  -- In whatever orders the rows come, the events are put in one order.
  pub in_lifecycle_order-returned :
      (source : Text) (at : ℕ) (was gone : MemoryIdentity → Bool)
      (before_rows after_rows : List MemoryIdentity)
      (gone_order missed_order : List MemoryIdentity → List MemoryIdentity)
      → IsRowOrder gone_order
      → IsRowOrder missed_order
      → ((id : MemoryIdentity) → was id ≡ true → id.source ≡ source)
      → ((id : MemoryIdentity) → gone id ≡ true → id.source ≡ source)
      → UniqueRows before_rows
      → All (PlainRow IsPlain) before_rows
      → UniqueRows after_rows
      → All (PlainRow IsPlain) after_rows
      → in_lifecycle_order precedes (
          map (reappeared source at) (gone_order (keep_if was before_rows))
          ++ map (disappeared source at) (missed_order (keep_if gone after_rows)))
        ≡ in_lifecycle_order precedes (
            map (reappeared source at) (keep_if was before_rows)
            ++ map (disappeared source at) (keep_if gone after_rows))
  unfolding in_lifecycle_order reappeared disappeared event_of event_rank kind_eq event_external_id
  in_lifecycle_order-returned source at was gone before_rows after_rows gone_order missed_order g m
        was_own gone_own ub pb ua pa =
      let xs = keep_if was before_rows in
      let ys = keep_if gone after_rows in
      let told =
        append-AllToldApart (before precedes) (map (reappeared source at) xs)
          (map (disappeared source at) ys)
          (kept-AllToldApart source (reappeared source at) (λ id. refl) (λ a b. refl) was was_own
            before_rows ub pb)
          (kept-AllToldApart source (disappeared source at) (λ id. refl) (λ a b. refl) gone gone_own
            after_rows ua pa)
          (ranks-ToldApart source at xs ys) in
      let shuffled =
        Permᴰ.trans
          (Permᴰ.append_right (map (disappeared source at) ys)
            (map-Permᴰ (reappeared source at) (g xs)))
          (Permᴰ.append_left (map (reappeared source at) (gone_order xs))
            (map-Permᴰ (disappeared source at) (m ys))) in
      sym (sort-Permᴰ (before precedes) before_trans shuffled told).0
