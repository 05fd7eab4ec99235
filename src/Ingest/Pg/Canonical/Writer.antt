-- ===== src/Ingest/Pg/Canonical/Writer.antt =====
-- The canonical writer over Postgres does what the one in memory does.
use mathlib.Core.Path.{fun_ext}
use mathlib.Core.Option.{some-injective}
use monster_paws.Prelude.{
  ℕ, text_key, nat_key, ◌≡◌, ◌≢◌, refl, sym, ap, ◌∙◌, inl, inr, true, Option, none, some, List, [],
  ◌∷◌, arith, Bool-cases, if◌then◌else◌,
}
use monster_paws.Result.{ok}
use monster_paws.Ingest.Fields.{Field, FieldClaim, AnimalClaims, field_eq, field_eq_iff}
use monster_paws.Ingest.Merge.{MergeOutcome, merge_claims, same_claim}
use monster_paws.Ingest.Merge.Slot.{Settles, same_claim_iff}
use monster_paws.Ingest.Merge.Pointwise.{mem_field}
use monster_paws.Ingest.Merge.Outcome.{AllKnown, FieldOutcome, merge_claims-FieldOutcome}
use monster_paws.Ingest.Model.{AnimalCandidate}
use monster_paws.Ingest.Pg.{AnimalRow}
use monster_paws.Ingest.Pg.Canonical.{
  claim_of, current_claims_of, write_field, write_touched, merge_row,
}

current_claims_of-write_field :
    (g f : Field) (w : FieldClaim) (row : AnimalRow)
    → current_claims_of (write_field g w row) f
      ≡ (if field_eq g f then some w else current_claims_of row f)
unfolding current_claims_of write_field claim_of
current_claims_of-write_field g f w row = elim (Bool-cases (field_eq g f)) [
  | inl same ↦ rw same refl
  | inr other ↦ rw other refl
]

-- Writing the winners of some fields: the row then holds them, and in other fields what it held.
write_touched_lem :
    (fs : List Field) (claims : AnimalClaims) (row : AnimalRow)
    → ((g : Field) → mem_field g fs ≡ true → (w : FieldClaim) × (claims g ≡ some w))
    → (row' : AnimalRow) × (write_touched fs claims row ≡ ok row')
      × ((f : Field)
          → current_claims_of row' f
            ≡ (if mem_field f fs then claims f else current_claims_of row f))
unfolding write_touched mem_field
write_touched_lem [] claims row there = (row, refl, λ f. refl)
write_touched_lem (g ∷ gs) claims row there =
    let (w, e) = there g (unfold mem_field in ground (arith, field_eq_iff g g)) in
    let (row', wrote, holds) =
      write_touched_lem gs claims (write_field g w row) (λ f m. there f (ground arith)) in
    (
      row',
      rw (e, write_touched) wrote,
      λ f. elim (Bool-cases (field_eq g f)) [
        | inl same ↦
            let at : claims f ≡ some w = sym (ap claims ((field_eq_iff g f).0 same)) ∙ e in
            ground (arith, holds f, current_claims_of-write_field g f w row, at)
        | inr other ↦ ground (arith, holds f, current_claims_of-write_field g f w row)
      ],
    )

-- Claims that cannot differ are equal.
stable : (a b : Option FieldClaim) → ¬ (a ≢ b) → a ≡ b
stable none none h = refl
stable none (some b) h = absurd (h (λ e. cc))
stable (some a) none h = absurd (h (λ e. cc))
stable (some a) (some b) h = elim (Bool-cases (same_claim a b)) [
  | inl same ↦ ap some ((same_claim_iff a b).0 same)
  | inr other ↦ absurd (h (λ e. cc (sym ((same_claim_iff a b).1 (some-injective a b e)) ∙ other)))
]

touched-some :
    (held candidate result : Option FieldClaim)
    → Settles held candidate result
    → held ≢ result
    → (w : FieldClaim) × (result ≡ some w)
touched-some held none result s differs = absurd (differs (sym s))
touched-some none (some c) result s differs = (c, s)
touched-some (some h) (some c) result s differs = elim s [
  | inl (_, e) ↦ (h, e)
  | inr (_, e) ↦ (c, e)
]

-- The row that a merge writes holds the merged claims.
write_touched-merged :
    (row : AnimalRow) (incoming : AnimalClaims) (raw_id : ℕ) (o : MergeOutcome)
    → ((f : Field) → FieldOutcome (current_claims_of row) incoming raw_id o f)
    → (row' : AnimalRow) × (write_touched o.touched o.claims row ≡ ok row')
      × (current_claims_of row' ≡ o.claims)
write_touched-merged row incoming raw_id o outcome =
    let (row', wrote, holds) = write_touched_lem o.touched o.claims row (λ g m.
      touched-some (current_claims_of row g) _ (o.claims g) (outcome g).settles
        ((outcome g).touched.0 m)) in
    (
      row',
      wrote,
      fun_ext λ f. elim (Bool-cases (mem_field f o.touched)) [
        | inl hit ↦ ground (arith, holds f)
        | inr miss ↦
            let same : current_claims_of row f ≡ o.claims f =
              stable (current_claims_of row f) (o.claims f)
                (λ differs. cc (sym ((outcome f).touched.1 differs) ∙ miss)) in
            ground (arith, holds f, same)
      ],
    )

-- The merge of a row's claims, as the transaction makes it and as the memory's writer does.
pub merge_row_lem :
    (candidate : AnimalCandidate) (row : AnimalRow)
    → AllKnown (current_claims_of row)
    → AllKnown candidate.claims
    → (o : MergeOutcome) × (row' : AnimalRow) × (merge_claims
          (current_claims_of row)
          candidate.claims
          candidate.raw_id
        ≡ ok o)
      × (merge_row candidate row ≡ ok (o, row'))
      × (current_claims_of row' ≡ o.claims)
      × (write_touched o.touched o.claims row ≡ ok row')
      × ((f : Field) → FieldOutcome (current_claims_of row) candidate.claims candidate.raw_id o f)
unfolding merge_row
merge_row_lem candidate row k ki =
    let (o, merged, outcome) =
      merge_claims-FieldOutcome (current_claims_of row) candidate.claims candidate.raw_id k ki in
    let (row', wrote, holds) =
      write_touched-merged row candidate.claims candidate.raw_id o outcome in
    (o, row', merged, rw (merged, merge_row, wrote), holds, wrote, outcome)
