-- ===== src/Ingest/Merge/Slot.antt =====
-- One field of a merge.
use monster_paws.Prelude.{
  ℕ, text_eq_iff, ◌≡◌, ◌≢◌, refl, sym, ap, ◌⊎◌, inl, inr, ◌↔◌, Bool, true, not, Option, none, some,
  arith, Bool-cases, Option-cases,
}
use monster_paws.Result.{ok}
use monster_paws.Sources.{Tier, tier_of, tier_eq}
use monster_paws.Sources.Identity.{IsKnown, IsKnown-tier_of}
use monster_paws.Trust.{Claim, cross_tier}
use monster_paws.Trust.Order.{Stronger, resolve_claim-Stronger}
use monster_paws.Ingest.Fields.{FieldClaim, FieldValue, same_value, same_value_iff}
use monster_paws.Ingest.Merge.{Verdict, judge, verdict_on, competing, same_claim, row_eq}

-- The claims that are there are of known sources.
abbrev pub KnownClaim : Option FieldClaim → Type 0
KnownClaim none = Unit
KnownClaim (some c) = IsKnown c.source

-- What a field holds after a merge: what it held, unless a competing claim is there that the held
-- one does not beat.
abbrev pub Settles : Option FieldClaim → Option FieldClaim → Option FieldClaim → Type 0
Settles held none result = result ≡ held
Settles none (some c) result = result ≡ some c
Settles (some h) (some c) result =
    (Stronger h c × (result ≡ some h)) ⊎ (¬ Stronger h c × (result ≡ some c))

row_eq_iff : (x y : Option ℕ) → (row_eq x y ≡ true) ↔ (x ≡ y)
unfolding row_eq
row_eq_iff none none = (λ _. refl, λ _. refl)
row_eq_iff none (some y) = ground arith
row_eq_iff (some x) none = ground arith
row_eq_iff (some x) (some y) = ground arith

pub same_claim_iff : (a b : FieldClaim) → (same_claim a b ≡ true) ↔ (a ≡ b)
unfolding same_claim
same_claim_iff a b = ground (
  arith,
  same_value_iff a.value b.value,
  text_eq_iff a.source b.source,
  row_eq_iff a.raw_id b.raw_id,
)

tier_eq_iff : (s t : Tier) → (tier_eq s t ≡ true) ↔ (s ≡ t)
unfolding tier_eq
tier_eq_iff Tier.shelter_api Tier.shelter_api = ground arith
tier_eq_iff Tier.first_party_scrape Tier.first_party_scrape = ground arith
tier_eq_iff Tier.aggregator Tier.aggregator = ground arith
tier_eq_iff Tier.manual Tier.manual = ground arith
tier_eq_iff _ _ = ground arith

-- Claims of different tiers with different values.
abbrev pub Conflicts : Option FieldClaim → FieldClaim → Type 0
Conflicts none c = ⊥
Conflicts (some h) c = (tier_of c.source ≢ tier_of h.source) × (h.value ≢ c.value)

abbrev pub value_of : Option FieldClaim → Option FieldValue
value_of none = none
value_of (some c) = c.value

-- What a verdict means: its winner settles the field, and its three flags say exactly whether
-- the value changes, whether the claim changes, and whether the candidate conflicts.
pub record Judged (candidate : FieldClaim) (held : Option FieldClaim) (v : Verdict) : Type 0 where
  pub settles : Settles held (some candidate) (some v.winner)
  pub changed : (v.is_changed ≡ true) ↔ (value_of held ≢ v.winner.value)
  pub touched : (v.is_touched ≡ true) ↔ (held ≢ some v.winner)
  pub conflicted : (v.is_conflicted ≡ true) ↔ Conflicts held candidate

not-same_value : (a b : Option FieldValue) → (not (same_value a b) ≡ true) ↔ (a ≢ b)
not-same_value a b = ground (arith, same_value_iff a b)

not-same_claim : (a b : FieldClaim) → (not (same_claim a b) ≡ true) ↔ (a ≢ b)
not-same_claim a b = elim (Bool-cases (same_claim a b)) [
  | inl e ↦ (λ n. absurd (cc), λ n. absurd (n ((same_claim_iff a b).0 e)))
  | inr e ↦ (λ n f. cc ((same_claim_iff a b).1 f), λ n. rw e)
]

cross_tier_iff :
    {V : Type 0} (a b : Claim V)
    → IsKnown a.source
    → IsKnown b.source
    → (x : Bool) × (cross_tier a b ≡ ok x) × ((x ≡ true) ↔ (tier_of a.source ≢ tier_of b.source))
unfolding cross_tier
cross_tier_iff a b ka kb =
    let (ta, ea) = IsKnown-tier_of ka in
    let (tb, eb) = IsKnown-tier_of kb in
    (not (tier_eq ta tb), ground arith, ground (arith, tier_eq_iff ta tb))

some-ne : (a b : FieldClaim) → (a ≢ b) ↔ (◌≢◌ {A = Option FieldClaim} (some a) (some b))
some-ne a b = (λ n e. n (cc), λ n e. n (ap some e))

verdict_on-Judged :
    (c h w : FieldClaim) (x : Bool)
    → Settles (some h) (some c) (some w)
    → ((x ≡ true) ↔ (tier_of c.source ≢ tier_of h.source))
    → Judged c (some h) (verdict_on c h w x)
unfolding verdict_on
verdict_on-Judged c h w x s crossed = record {
  settles = s;
  changed = not-same_value h.value w.value;
  touched =
      let (there, back) = not-same_claim h w in
      let (up, down) = some-ne h w in (λ e. up (there e), λ n. back (down n));
  conflicted = ground (arith, not-same_value h.value c.value);
}

-- A competing claim of a known source gets a verdict, and that verdict means what it says.
pub judge-Judged :
    (candidate : FieldClaim) (held : Option FieldClaim)
    → IsKnown candidate.source
    → KnownClaim held
    → candidate.value ≢ none
    → (v : Verdict) × (judge candidate held ≡ ok v) × Judged candidate held v
unfolding judge
judge-Judged c none k k' real = (
  _,
  refl,
  record {
    settles = refl;
    changed = (λ _ e. real (sym e), λ _. refl);
    touched = (λ _ e. cc, λ _. refl);
    conflicted = (λ e. cc, λ e. absurd e);
  },
)
judge-Judged c (some h) k k' real =
    let (x, crossed, means) = cross_tier_iff c h k k' in
    elim (resolve_claim-Stronger c h k k') [
      | inl (s, e) ↦
          (verdict_on c h h x, rw (e, crossed), verdict_on-Judged c h h x (inl (s, refl)) means)
      | inr (s, e) ↦
          (verdict_on c h c x, rw (e, crossed), verdict_on-Judged c h c x (inr (s, refl)) means)
    ]

-- A claim that competes is the asserted one under the id of its raw row, and is not `null`.
pub competing_lem :
    (raw_id : ℕ) (o : Option FieldClaim) (c : FieldClaim)
    → competing raw_id o ≡ some c
    → (r : FieldClaim) × (o ≡ some r) × (c ≡ record r { raw_id = some raw_id }) × (c.value ≢ none)
unfolding competing
competing_lem raw_id none c e = cc
competing_lem raw_id (some r) c e = elim (Option-cases r.value) [
  | inl missing ↦ absurd (ground arith)
  | inr (v, there) ↦ (r, refl, ground arith, λ f. ground arith)
]

pub KnownClaim-competing :
    (raw_id : ℕ) (o : Option FieldClaim) → KnownClaim o → KnownClaim (competing raw_id o)
unfolding competing
KnownClaim-competing raw_id none k = tt
KnownClaim-competing raw_id (some r) k = elim (Option-cases r.value) [
  | inl e ↦ rw (e, competing) tt
  | inr (v, e) ↦ rw (e, competing) k
]
