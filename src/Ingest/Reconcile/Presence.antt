-- ===== src/Ingest/Reconcile/Presence.antt =====
-- What a reconciliation does to the presence of every identity.
use monster_paws.Prelude.{
  ℕ, Text, text_eq, text_key, ◌≡◌, sym, ◌∙◌, ◌⊎◌, inl, inr, Bool, true, false, none, some, List, [],
  ◌∷◌, ◌++◌, subst, Map, lookup, arith, Option-cases, Bool-cases,
}
use monster_paws.Ingest.Gate.{
  DisappearanceTally, DisappearanceVerdict, Refusal, ReconcileAt, resolve_reconcile_at,
}
use monster_paws.Ingest.Pipeline.{has_text}
use monster_paws.Ingest.Corpus.{Corpus, MemoryIdentity, in_lifecycle_order}
use monster_paws.Ingest.Reconcile.{
  own_of, newest_sighting, met, missed, visit, visit_all, tally_of, settle, reconcile,
}

-- The instant of a reconciliation of one source.
unfoldable pub resolved_at : Text → ℕ → Map Text MemoryIdentity → ReconcileAt
resolved_at source requested ids =
    resolve_reconcile_at requested (newest_sighting (own_of source ids))

-- What a reconciliation of `source` at `at` makes of an identity.
pub data Becomes (source : Text) (seen : List Text) (at : ℕ) (id id' : MemoryIdentity)
    : Type 0 where
  -- another source's: untouched
  others : text_eq id.source source ≡ false → id' ≡ id → Becomes source seen at id id'
  -- seen: present from now on
  present :
      text_eq id.source source ≡ true
      → has_text id.external_id seen ≡ true
      → id' ≡ record id { last_seen_at = at; disappeared_at = none }
      → Becomes source seen at id id'
  -- not seen, and gone before: untouched
  still_gone :
      text_eq id.source source ≡ true
      → has_text id.external_id seen ≡ false
      → (gone_at : ℕ) → id.disappeared_at ≡ some gone_at
      → id' ≡ id
      → Becomes source seen at id id'
  -- not seen for the first time: gone as of now
  gone :
      text_eq id.source source ≡ true
      → has_text id.external_id seen ≡ false
      → id.disappeared_at ≡ none
      → id' ≡ record id { disappeared_at = some at }
      → Becomes source seen at id id'

pub visit-Becomes :
    (source : Text) (seen : List Text) (at : ℕ) (id : MemoryIdentity)
    → Becomes source seen at id (visit source seen at id).0
unfolding visit met missed
visit-Becomes source seen at id = elim (Bool-cases (text_eq id.source source)) [
  | inr other ↦ others other (ground arith)
  | inl own ↦ elim (Bool-cases (has_text id.external_id seen)) [
    | inl here ↦ present own here (ground arith)
    | inr missing ↦ elim (Option-cases id.disappeared_at) [
      | inl e ↦ gone own missing e (ground arith)
      | inr (d, e) ↦ still_gone own missing d e (ground arith)
    ]
  ]
]

visit_all-Becomes :
    (source : Text) (seen : List Text) (at : ℕ) (ids : Map Text MemoryIdentity) (k : Text)
    {id : MemoryIdentity}
    → lookup k ids ≡ some id
    → (id' : MemoryIdentity) × (lookup k (visit_all source seen at ids).0 ≡ some id')
      × Becomes source seen at id id'
unfolding visit_all lookup
visit_all-Becomes source seen at [] k e = cc
visit_all-Becomes source seen at ((j, first) ∷ rest) k {id} e = elim (Bool-cases (text_eq j k)) [
  | inl same ↦
      let this : first ≡ id = ground arith in
      (
        (visit source seen at first).0,
        rw same,
        subst (λ x. Becomes source seen at x (visit source seen at first).0) this
            (visit-Becomes source seen at first),
      )
  | inr apart ↦
      let (id', found, becomes) =
        visit_all-Becomes source seen at rest k {id = id} (rw apart at e) in
      (id', rw apart found, becomes)
]

module _ {P Num : Type 0} (precedes : Text → Text → Bool) where
  -- The two ways out of stage 5.
  pub reconcile_cases :
      (source : Text) (seen : List Text) (requested : ℕ)
      (gate : DisappearanceTally → DisappearanceVerdict Num) (c : Corpus P Num)
      → let at = resolved_at source requested c.identities in
        let v = gate (tally_of seen at.at (own_of source c.identities)) in
        let (done, c') = reconcile precedes source seen requested gate c in
        ((r : Refusal Num) × (v.refusal ≡ some r)
          × (done.refused ≡ some r)
          × (done.events ≡ [])
          × (c' ≡ c))
        ⊎ ((v.refusal ≡ none)
            × (done.refused ≡ none)
            × (c'.identities ≡ (visit_all source seen at.at c.identities).0)
            × (done.events
                ≡ in_lifecycle_order precedes (visit_all source seen at.at c.identities).1)
            × (c'.events ≡ c.events ++ done.events))
  unfolding reconcile settle resolved_at
  reconcile_cases source seen requested gate c =
      elim (Option-cases
        (gate (
          tally_of seen (resolved_at source requested c.identities).at
            (own_of source c.identities))).refusal) [
              | inr (r, e) ↦ inl (r, e, rw (e, settle), rw (e, settle), rw (e, settle))
              | inl e ↦ inr (e, rw (e, settle), rw (e, settle), rw (e, settle), rw (e, settle))
            ]

  -- A reconciliation that is not refused touches no identity of another source; an identity of the
  -- source is present afterwards, as of the resolved instant, exactly if the run saw it; one that
  -- was gone and is not seen stays as it is; and one that is missed for the first time is gone as
  -- of that instant.
  pub reconcile-Becomes :
      (source : Text) (seen : List Text) (requested : ℕ)
      (gate : DisappearanceTally → DisappearanceVerdict Num) (c : Corpus P Num) (k : Text)
      (id : MemoryIdentity)
      → (reconcile precedes source seen requested gate c).0.refused ≡ none
      → lookup k c.identities ≡ some id
      → (id' : MemoryIdentity) × (lookup k
            (reconcile precedes source seen requested gate c).1.identities
          ≡ some id')
        × Becomes source seen (resolved_at source requested c.identities).at id id'
  reconcile-Becomes source seen requested gate c k id open_gate found =
      elim (reconcile_cases source seen requested gate c) [
        | inl (r, _, refused, _, _) ↦ absurd (cc)
        | inr (_, _, ids, _, _) ↦ rw ids (visit_all-Becomes source seen _ c.identities k found)
      ]

  -- A refused reconciliation writes nothing and reports no event.
  pub reconcile-refused :
      (source : Text) (seen : List Text) (requested : ℕ)
      (gate : DisappearanceTally → DisappearanceVerdict Num) (c : Corpus P Num) (r : Refusal Num)
      → (gate (
          tally_of seen
            (resolved_at source requested c.identities).at
            (own_of source c.identities))).refusal
        ≡ some r
      → let (done, c') = reconcile precedes source seen requested gate c in
        (done.refused ≡ some r) × (done.events ≡ []) × (c' ≡ c)
  reconcile-refused source seen requested gate c r e =
      elim (reconcile_cases source seen requested gate c) [
        | inl (r', e', refused, events, same) ↦ (refused ∙ sym e' ∙ e, events, same)
        | inr (e', _, _, _, _) ↦ absurd (cc)
      ]
