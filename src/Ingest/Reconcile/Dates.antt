-- ===== src/Ingest/Reconcile/Dates.antt =====
-- The dates of presence: a disappearance is never dated before a sighting.
use monster_paws.Prelude.{
  ℕ, ◌≤◌, Text, text_eq, ◌≡◌, refl, inl, inr, Bool, true, some, List, [], ◌∷◌, Map, All, arith,
  Bool-cases, All-mono, ltb,
}
use monster_paws.Ingest.Gate.{
  DisappearanceTally, DisappearanceVerdict, resolve_reconcile_at, resolve_reconcile_at_lem,
}
use monster_paws.Ingest.Corpus.{Corpus, MemoryIdentity}
use monster_paws.Ingest.Reconcile.{own_of, newest_from, newest_sighting, visit_all, reconcile}
use monster_paws.Ingest.Reconcile.Presence.{
  resolved_at, reconcile_cases, Becomes, others, present, still_gone, gone, visit-Becomes,
}

-- A recorded disappearance is not before the last sighting.
abbrev pub IsDated : MemoryIdentity → Type 0
IsDated id = (d : ℕ) → id.disappeared_at ≡ some d → id.last_seen_at ≤ d

abbrev pub AllDated : Map Text MemoryIdentity → Type 0
AllDated = All (λ (e : Text × MemoryIdentity). IsDated e.1)

-- No identity was seen after `at`.
abbrev SeenBy : ℕ → List MemoryIdentity → Type 0
SeenBy at = All (λ id. id.last_seen_at ≤ at)

newest_from-ge :
    (m : ℕ) (ids : List MemoryIdentity)
    → (n : ℕ) × (newest_from (some m) ids ≡ some n) × (m ≤ n) × SeenBy n ids
unfolding newest_from
newest_from-ge m [] = (m, refl, omega arith, tt)
newest_from-ge m (id ∷ rest) = elim (Bool-cases (ltb m id.last_seen_at)) [
  | inl later ↦
      let (n, e, le, all) = newest_from-ge id.last_seen_at rest in
      (n, rw later e, ground arith, (le, all))
  | inr earlier ↦
      let (n, e, le, all) = newest_from-ge m rest in (n, rw earlier e, le, (ground arith, all))
]

newest-SeenBy :
    (requested : ℕ) (own : List MemoryIdentity)
    → SeenBy (resolve_reconcile_at requested (newest_sighting own)).at own
unfolding newest_sighting newest_from
newest-SeenBy requested [] = tt
newest-SeenBy requested (id ∷ rest) =
    let (n, e, le, all) = newest_from-ge id.last_seen_at rest in
    let (later, _) = resolve_reconcile_at_lem requested n in
    let bound : n ≤ (resolve_reconcile_at requested (newest_sighting (id ∷ rest))).at =
      rw (e, later) (omega arith) in
    (
      omega arith,
      All-mono (λ (x : MemoryIdentity). x.last_seen_at ≤ n) _ (λ x h. omega arith) rest all,
    )

Becomes-IsDated :
    {source : Text} {seen : List Text} {at : ℕ} {id id' : MemoryIdentity}
    → Becomes source seen at id id'
    → (text_eq id.source source ≡ true → id.last_seen_at ≤ at)
    → IsDated id
    → IsDated id'
Becomes-IsDated (others other e) by dated d ended = ground (arith, dated d)
Becomes-IsDated (present own here e) by dated d ended = ground arith
Becomes-IsDated (still_gone own missing g f e) by dated d ended = ground (arith, dated d)
Becomes-IsDated (gone own missing f e) by dated d left = ground (arith, by own)

visit_all-AllDated :
    (source : Text) (seen : List Text) (at : ℕ) (ids : Map Text MemoryIdentity)
    → SeenBy at (own_of source ids)
    → AllDated ids
    → AllDated (visit_all source seen at ids).0
unfolding visit_all own_of
visit_all-AllDated source seen at [] by dated = tt
visit_all-AllDated source seen at ((k, id) ∷ rest) by dated =
    elim (Bool-cases (text_eq id.source source)) [
      | inl own ↦
          let by' : (id.last_seen_at ≤ at) × SeenBy at (own_of source rest) = rw own at by in
          (
            Becomes-IsDated (visit-Becomes source seen at id) (λ _. by'.0) dated.0,
            visit_all-AllDated source seen at rest by'.1 dated.1,
          )
      | inr other ↦
          let by' : SeenBy at (own_of source rest) = rw other at by in
          (
            Becomes-IsDated (visit-Becomes source seen at id) (λ own. absurd (cc)) dated.0,
            visit_all-AllDated source seen at rest by' dated.1,
          )
    ]

-- Whatever the wall clock says, if every recorded disappearance is at or after the identity's last
-- sighting, it is so after a reconciliation.
pub reconcile-AllDated :
    {P Num : Type 0} (precedes : Text → Text → Bool) (source : Text) (seen : List Text)
    (requested : ℕ) (gate : DisappearanceTally → DisappearanceVerdict Num) (c : Corpus P Num)
    → AllDated c.identities
    → AllDated (reconcile precedes source seen requested gate c).1.identities
reconcile-AllDated precedes source seen requested gate c dated =
    elim (reconcile_cases precedes source seen requested gate c) [
      | inl (_, _, _, _, same) ↦ rw same dated
      | inr (_, _, ids, _, _) ↦ rw ids (
          visit_all-AllDated source seen _ c.identities
            (unfold resolved_at in newest-SeenBy requested (own_of source c.identities)) dated)
    ]
