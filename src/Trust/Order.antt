-- ===== src/Trust/Order.antt =====
-- The order behind `resolve_claim`.
use monster_paws.Prelude.{
  ℕ, Text, ◌≡◌, ◌≢◌, ◌∙◌, ap, ◌⊎◌, inl, inr, ◌<◌, Option, none, some, arith, Option-cases,
}
use monster_paws.Result.{ok, err, ◌>>=◌}
use monster_paws.Sources.{
  Tier, shelter_api, first_party_scrape, aggregator, manual, tier_of, rank_of,
}
use monster_paws.Sources.Identity.{IsKnown, IsKnown-tier_of, rank_of_lem}
use monster_paws.Trust.{Claim, resolve_claim, lower_rank}

-- The rank of a source, 0 the most trusted.
pub trust_rank : Text → ℕ
trust_rank s = elim (tier_of s >>= rank_of) [ ok r ↦ r | err _ ↦ 0 ]

tier-rank : (t : Tier) → (r : ℕ) × (rank_of t ≡ ok r)
tier-rank shelter_api = (0, rank_of_lem.0)
tier-rank first_party_scrape = (1, rank_of_lem.1)
tier-rank aggregator = (2, rank_of_lem.2)
tier-rank manual = (3, rank_of_lem.3)

IsKnown-trust_rank :
    {s : Text} → IsKnown s → (t : Tier) × (tier_of s ≡ ok t) × (rank_of t ≡ ok (trust_rank s))
unfolding trust_rank
IsKnown-trust_rank {s} k =
    let (t, e) = IsKnown-tier_of k in let (r, f) = tier-rank t in (t, e, ground arith)

-- Both raw rows are known, and the first is the later one.
abbrev pub IsLaterRow : Option ℕ → Option ℕ → Type 0
IsLaterRow none y = ⊥
IsLaterRow (some x) none = ⊥
IsLaterRow (some x) (some y) = y < x

IsLaterRow-trans : (x y z : Option ℕ) → IsLaterRow x y → IsLaterRow y z → IsLaterRow x z
IsLaterRow-trans (some x) (some y) (some z) h k = omega arith
IsLaterRow-trans (some x) (some y) none h k = absurd k
IsLaterRow-trans (some x) none z h k = absurd h
IsLaterRow-trans none y z h k = absurd h

IsLaterRow-irrefl : (x : Option ℕ) → ¬ IsLaterRow x x
IsLaterRow-irrefl none h = h
IsLaterRow-irrefl (some x) h = omega arith

module _ {V : Type 0} where
  -- `a` beats `b`: a more trusted source; or as trusted and fetched later; or as trusted, fetched
  -- at the same instant, and from a later raw row.
  abbrev pub Stronger : Claim V → Claim V → Type 0
  Stronger a b =
      (trust_rank a.source < trust_rank b.source)
      ⊎ ((trust_rank a.source ≡ trust_rank b.source)
          × ((b.fetched_at < a.fetched_at)
              ⊎ ((a.fetched_at ≡ b.fetched_at) × IsLaterRow a.raw_id b.raw_id)))

  resolve_claim-ranks :
      (a b : Claim V)
      → IsKnown a.source
      → IsKnown b.source
      → resolve_claim a b ≡ ok (lower_rank (trust_rank a.source) (trust_rank b.source) a b)
  unfolding resolve_claim
  resolve_claim-ranks a b ka kb = ground (arith, IsKnown-trust_rank ka, IsKnown-trust_rank kb)

  lower_rank-Stronger :
      (a b : Claim V)
      → let winner = lower_rank (trust_rank a.source) (trust_rank b.source) a b in
        (Stronger b a × (winner ≡ b)) ⊎ (¬ Stronger b a × (winner ≡ a))
  unfolding lower_rank
  lower_rank-Stronger a b = elim (Option-cases a.raw_id) [
    | inl ea ↦ ground arith
    | inr (x, ea) ↦ elim (Option-cases b.raw_id) [
      | inl eb ↦ ground arith
      | inr (y, eb) ↦ ground arith
    ]
  ]

  -- Between two claims of known sources the second wins exactly if it is the stronger one, and
  -- the first wins otherwise.
  pub resolve_claim-Stronger :
      (a b : Claim V)
      → IsKnown a.source
      → IsKnown b.source
      → (Stronger b a × (resolve_claim a b ≡ ok b)) ⊎ (¬ Stronger b a × (resolve_claim a b ≡ ok a))
  resolve_claim-Stronger a b ka kb = elim (lower_rank-Stronger a b) [
    | inl (s, e) ↦ inl (s, resolve_claim-ranks a b ka kb ∙ ap ok e)
    | inr (s, e) ↦ inr (s, resolve_claim-ranks a b ka kb ∙ ap ok e)
  ]

  -- Strength is a strict order.
  pub Stronger-trans : (a b c : Claim V) → Stronger a b → Stronger b c → Stronger a c
  Stronger-trans a b c h k = ground (arith, IsLaterRow-trans a.raw_id b.raw_id c.raw_id)

  pub Stronger-irrefl : (a : Claim V) → ¬ Stronger a a
  Stronger-irrefl a h = ground (arith, IsLaterRow-irrefl a.raw_id)

  -- Of two claims from different raw rows one is the stronger.
  pub Stronger-total :
      (a b : Claim V) (x y : ℕ)
      → a.raw_id ≡ some x
      → b.raw_id ≡ some y
      → x ≢ y
      → Stronger a b ⊎ Stronger b a
  Stronger-total a b x y ea eb n = grind arith

  -- Among claims with raw rows, one that beats `a` beats `b`, or `b` beats `a`.
  pub Stronger-split :
      (h a b : Claim V) (x y z : ℕ)
      → h.raw_id ≡ some x
      → a.raw_id ≡ some y
      → b.raw_id ≡ some z
      → Stronger h a
      → Stronger h b ⊎ Stronger b a
  Stronger-split h a b x y z eh ea eb s = grind arith
