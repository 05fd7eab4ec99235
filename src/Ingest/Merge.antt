-- ===== src/Ingest/Merge.antt =====
-- core/ingest/merge.ts: one source's claims are merged into the claims that an animal holds.
pub mod Slot
pub mod Pointwise
pub mod Outcome
pub mod Laws
pub mod Convergence
use monster_paws.Prelude.{
  ℕ, text_eq, Bool, true, false, not, ◌&&◌, Option, none, some, List, [], ◌∷◌, ◌++◌, ◌==◌, ltb,
  if◌then◌else◌,
}
use monster_paws.Result.{Result, ok, ◌>>=◌}
use monster_paws.Trust.{Claim, resolve_claim, cross_tier}
use monster_paws.Ingest.Fields.{
  Field, name, species, merged_fields, FieldClaim, AnimalClaims, field_eq, same_value,
}

pub record MergeOutcome : Type 0 where
  pub claims : AnimalClaims
  pub changed : List Field
  pub touched : List Field
  pub conflicted : List Field
  pub occurred_at : Option ℕ

-- `===` on row ids, of which either may be `undefined`.
row_eq : Option ℕ → Option ℕ → Bool
row_eq none none = true
row_eq none (some y) = false
row_eq (some x) none = false
row_eq (some x) (some y) = x == y

pub same_claim : FieldClaim → FieldClaim → Bool
unfolding row_eq
same_claim a b =
    same_value a.value b.value
    && (text_eq a.source b.source && (a.fetched_at == b.fetched_at && row_eq a.raw_id b.raw_id))

-- A claim that is absent or `null` does not compete; one that does gets the raw row's id.
unfoldable pub competing : ℕ → Option FieldClaim → Option FieldClaim
competing raw_id none = none
competing raw_id (some raw) = elim raw.value [
  | none ↦ none
  | some v ↦ some (record raw { raw_id = some raw_id })
]

-- What the loop's body finds out about one field.
pub record Verdict : Type 0 where
  pub winner : FieldClaim
  pub is_changed : Bool
  pub is_touched : Bool
  pub is_conflicted : Bool

unfoldable pub verdict_on : FieldClaim → FieldClaim → FieldClaim → Bool → Verdict
verdict_on candidate held winner crossed = record {
  winner = winner;
  is_changed = not (same_value held.value winner.value);
  is_touched = not (same_claim held winner);
  is_conflicted = crossed && not (same_value held.value candidate.value);
}

unfoldable pub judge : FieldClaim → Option FieldClaim → Result Verdict
judge candidate none =
    ok (record { winner = candidate; is_changed = true; is_touched = true; is_conflicted = false })
judge candidate (some held) = do
  winner ← resolve_claim candidate held
  crossed ← cross_tier candidate held
  ok (verdict_on candidate held winner crossed)

pub set_claim : Field → FieldClaim → AnimalClaims → AnimalClaims
set_claim f c claims g = if field_eq f g then some c else claims g

pub push_if : Bool → Field → List Field → List Field
push_if true f fs = fs ++ f ∷ []
push_if false f fs = fs

pub newer : Option ℕ → ℕ → Option ℕ
newer none at = some at
newer (some seen) at = if ltb seen at then some at else some seen

unfoldable pub enter : Field → FieldClaim → Verdict → MergeOutcome → MergeOutcome
unfolding set_claim push_if newer
enter f candidate v out = record {
  claims = set_claim f v.winner out.claims;
  changed = push_if v.is_changed f out.changed;
  touched = push_if v.is_touched f out.touched;
  conflicted = push_if v.is_conflicted f out.conflicted;
  occurred_at = newer out.occurred_at candidate.fetched_at;
}

unfoldable pub merge_field :
    Option FieldClaim → Option FieldClaim → Field → MergeOutcome → Result MergeOutcome
merge_field none held f out = ok out
merge_field (some candidate) held f out = do v ← judge candidate held; ok (enter f candidate v out)

unfoldable pub merge_fields :
    AnimalClaims → AnimalClaims → ℕ → List Field → MergeOutcome → Result MergeOutcome
merge_fields current incoming raw_id [] out = ok out
merge_fields current incoming raw_id (f ∷ fs) out = do
  next ← merge_field (competing raw_id (incoming f)) (current f) f out
  merge_fields current incoming raw_id fs next

-- The outcome before the loop.
abbrev pub unmerged : AnimalClaims → MergeOutcome
unmerged current = record {
  claims = current;
  changed = [];
  touched = [];
  conflicted = [];
  occurred_at = none;
}

unfoldable pub merge_claims : AnimalClaims → AnimalClaims → ℕ → Result MergeOutcome
merge_claims current incoming raw_id =
    merge_fields current incoming raw_id merged_fields (unmerged current)

unfoldable pub is_claimed : Option FieldClaim → Bool
is_claimed none = false
is_claimed (some c) = true

unfoldable pub viable_first_observation : AnimalClaims → Bool
unfolding is_claimed
viable_first_observation claims = is_claimed (claims name) && is_claimed (claims species)
