-- ===== src/Ingest/Reconcile/Keeps.antt =====
-- A reconciliation keeps the corpus well-formed.
use monster_paws.Prelude.{
  ℕ, Text, text_key, nat_key, text_eq, ◌≡◌, refl, sym, ap, ◌∙◌, inl, inr, Bool, some, List, [], ◌∷◌,
  Map, lookup, arith, Option-cases, Bool-cases,
}
use monster_paws.Ingest.Gate.{DisappearanceTally, DisappearanceVerdict}
use monster_paws.Ingest.Report.{IngestRunRecord}
use monster_paws.Ingest.Corpus.{Corpus, MemoryIdentity}
use monster_paws.Ingest.Memory.WellFormed.{WellFormed}
use monster_paws.Ingest.Memory.Kept.{Kept}
use monster_paws.Ingest.Reconcile.{
  visit, visit_all, record_run, reconcile, settle, tally_of, own_of,
}
use monster_paws.Ingest.Reconcile.Presence.{
  Becomes, others, present, still_gone, gone, visit-Becomes, resolved_at,
}

-- What the loop of stage 5 makes of a lookup.
visit_all-lookup :
    (source : Text) (seen : List Text) (at : ℕ) (ids : Map Text MemoryIdentity) (k : Text)
    {id' : MemoryIdentity}
    → lookup k (visit_all source seen at ids).0 ≡ some id'
    → (id : MemoryIdentity) × (lookup k ids ≡ some id) × (id' ≡ (visit source seen at id).0)
unfolding visit_all lookup
visit_all-lookup source seen at [] k e = cc
visit_all-lookup source seen at ((j, first) ∷ rest) k e = elim (Bool-cases (text_eq j k)) [
  | inl same ↦ (first, rw same, ground arith)
  | inr apart ↦
      let (id, found, is) = visit_all-lookup source seen at rest k (rw apart at e) in
      (id, rw apart found, is)
]

-- A visit keeps whose identity it is.
Becomes-same :
    {source : Text} {seen : List Text} {at : ℕ} {id id' : MemoryIdentity}
    → Becomes source seen at id id'
    → (id'.animal_id ≡ id.animal_id) × (id'.source ≡ id.source) × (id'.external_id ≡ id.external_id)
Becomes-same (others _ e) = rw e (refl, refl, refl)
Becomes-same (present _ _ e) = rw e (refl, refl, refl)
Becomes-same (still_gone _ _ g _ e) = rw e (refl, refl, refl)
Becomes-same (gone _ _ _ e) = rw e (refl, refl, refl)

module _ {P Num : Type 0} (precedes : Text → Text → Bool) where
  pub record_run-WellFormed :
      (r : IngestRunRecord Num) (c : Corpus P Num) → WellFormed c → WellFormed (record_run r c)
  unfolding record_run
  record_run-WellFormed r c wf = record {
    keyed = wf.keyed;
    linked = wf.linked;
    below = wf.below;
    known = wf.known;
  }

  visited-WellFormed :
      (source : Text) (seen : List Text) (at : ℕ) (c c' : Corpus P Num)
      → c'.identities ≡ (visit_all source seen at c.identities).0
      → c'.animals ≡ c.animals
      → c'.next_animal_id ≡ c.next_animal_id
      → WellFormed c
      → WellFormed c'
  visited-WellFormed source seen at c c' ei ea en wf =
      let from : (k : Text) (id' : MemoryIdentity)
          → lookup k c'.identities ≡ some id'
          → (id : MemoryIdentity) × (lookup k c.identities ≡ some id)
            × (id' ≡ (visit source seen at id).0) =
        λ k id' e. visit_all-lookup source seen at c.identities k (sym (ap (lookup k) ei) ∙ e) in
      record {
        keyed = λ k id' e.
            let (id, there, is) = from k id' e in
            let (_, es, ee) = Becomes-same (visit-Becomes source seen at id) in
            rw (is, es, ee) (wf.keyed k id there);
        linked = λ k id' e.
            let (id, there, is) = from k id' e in
            let (same, _, _) = Becomes-same (visit-Becomes source seen at id) in
            rw (ea, is, same) (wf.linked k id there);
        below = λ n held e. rw en (wf.below n held (rw ea at e));
        known = λ n held e. wf.known n held (rw ea at e);
      }

  pub reconcile-WellFormed :
      (source : Text) (seen : List Text) (requested : ℕ)
      (gate : DisappearanceTally → DisappearanceVerdict Num) (c : Corpus P Num)
      → WellFormed c
      → WellFormed (reconcile precedes source seen requested gate c).1
  unfolding reconcile settle resolved_at
  reconcile-WellFormed source seen requested gate c wf =
      elim (Option-cases
        (gate (
          tally_of seen (resolved_at source requested c.identities).at
            (own_of source c.identities))).refusal) [
              | inr (r, e) ↦ rw (e, settle) wf
              | inl e ↦
                  rw (e, settle)
                    (visited-WellFormed source seen (resolved_at source requested c.identities).at c
                      _ refl refl refl wf)
            ]

pub record_run-Kept :
    {P Num : Type 0} (k : Text) (was : MemoryIdentity) (r : IngestRunRecord Num) (c : Corpus P Num)
    → Kept k was c
    → Kept k was (record_run r c)
unfolding record_run
record_run-Kept k was r c h = record {
  now = h.now;
  there = h.there;
  disappeared_at = h.disappeared_at;
  last_seen_at = h.last_seen_at;
  animal_id = h.animal_id;
}
