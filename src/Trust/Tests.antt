-- ===== src/Trust/Tests.antt =====
-- Runs of core/trust.ts on concrete claims.
use monster_paws.Prelude.{text_eq, ℕ, codes, Text, ◌≡◌, refl, ◌⊎◌, some}
use monster_paws.Result.{ok}
use monster_paws.Sources.{aggregator, fixed_source_tier}
use monster_paws.Sources.Identity.{IsKnown, fixed}
use monster_paws.Trust.{Claim, resolve_claim}
use monster_paws.Trust.Order.{Stronger, resolve_claim-Stronger}

abbrev claim : ℕ → Text → ℕ → Claim ℕ
claim value source at = record {
  value = value;
  source = source;
  fetched_at = at;
  raw_id = some value;
}

abbrev old : Claim ℕ
old = claim 1 (codes "rescuegroups") 5

abbrev newer : Claim ℕ
newer = claim 2 (codes "rescuegroups") 9

rescuegroups-IsKnown : IsKnown (codes "rescuegroups")
unfolding fixed_source_tier text_eq
rescuegroups-IsKnown = fixed (codes "rescuegroups") aggregator refl

resolve_claim_example :
    (Stronger newer old × (resolve_claim old newer ≡ ok newer))
    ⊎ (¬ Stronger newer old × (resolve_claim old newer ≡ ok old))
resolve_claim_example = resolve_claim-Stronger old newer rescuegroups-IsKnown rescuegroups-IsKnown
