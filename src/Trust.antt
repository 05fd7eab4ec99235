-- ===== src/Trust.antt =====
-- core/trust.ts: claims and which of two of them wins. Instants are milliseconds since the epoch.
pub mod Order
pub mod Fold
mod Tests
use monster_paws.Prelude.{
  ℕ, Text, Bool, not, Option, none, some, List, [], ◌∷◌, ltb, ◌==◌, if◌then◌else◌,
}
use monster_paws.Result.{Result, ok, ◌>>=◌}
use monster_paws.Sources.{tier_of, rank_of, tier_eq}

pub record Claim (V : Type 0) : Type 0 where
  pub value : V
  pub source : Text
  pub fetched_at : ℕ
  pub raw_id : Option ℕ

module _ {V : Type 0} where
  -- On an exact tie of instants: the later raw row, if both rows are known and differ.
  later_row : Claim V → Claim V → Claim V
  later_row a b = elim a.raw_id [
    | none ↦ a
    | some x ↦ elim b.raw_id [ none ↦ a | some y ↦ if x == y then a else if ltb x y then b else a ]
  ]

  later_fetch : Claim V → Claim V → Claim V
  unfolding later_row
  later_fetch a b =
      if not (b.fetched_at == a.fetched_at)
      then (if ltb a.fetched_at b.fetched_at then b else a)
      else later_row a b

  lower_rank : ℕ → ℕ → Claim V → Claim V → Claim V
  unfolding later_fetch
  lower_rank ra rb a b = if not (ra == rb) then (if ltb ra rb then a else b) else later_fetch a b

  unfoldable pub resolve_claim : Claim V → Claim V → Result (Claim V)
  unfolding lower_rank
  resolve_claim a b = do
    ta ← tier_of a.source
    ra ← rank_of ta
    tb ← tier_of b.source
    rb ← rank_of tb
    ok (lower_rank ra rb a b)

  resolve_from : Claim V → List (Claim V) → Result (Claim V)
  resolve_from winner [] = ok winner
  resolve_from winner (next ∷ rest) = do
    better ← resolve_claim winner next
    resolve_from better rest

  pub resolve_claims : List (Claim V) → Result (Option (Claim V))
  unfolding resolve_from
  resolve_claims [] = ok none
  resolve_claims (first ∷ rest) = do w ← resolve_from first rest; ok (some w)

  unfoldable pub cross_tier : Claim V → Claim V → Result Bool
  cross_tier a b = do ta ← tier_of a.source; tb ← tier_of b.source; ok (not (tier_eq ta tb))
