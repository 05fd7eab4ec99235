-- ===== src/Donate/Gate/Tests.antt =====
-- Gifts to two shelters, one of which has said yes.
use monster_paws.Prelude.{ℕ, Text, codes, ◌≡◌, ◌↔◌, Option, none, some, List, [], ◌∷◌, Any}
use monster_paws.Sources.{aggregator}
use monster_paws.Shelters.{ShelterEntry, Grant, digify}
use monster_paws.Donate.Gate.{
  ShelterNonprofit, ClaimedNonprofit, SponsorGate, production, claimed, unknown, sponsor_nonprofit,
  sponsorable_shelter_ids, sponsor_nonprofit-listed,
}

abbrev first_digit : Text → Option ℕ
first_digit [] = none
first_digit (c ∷ cs) = some c

abbrev painting_grant : Grant
painting_grant = record {
  window = record { granted_at = codes "3"; revoked_at = none };
  permission = digify;
  granter = codes "the director";
  basis = codes "yes";
  evidence = codes "<a@b>";
}

abbrev spencer : ShelterEntry
spencer = record {
  slug = codes "spencer";
  name = codes "Spencer";
  site_url = codes "https://spencer.example";
  listings_url = codes "https://spencer.example/pets";
  tier = aggregator;
  golden_fixture = none;
  shelter_external_ids = codes "rescuegroups:org:1" ∷ [];
  grants = painting_grant ∷ [];
}

abbrev rows : List ShelterNonprofit
rows =
    record {
      shelter_external_id = codes "rescuegroups:org:2";
      everyorg_slug = codes "happy";
      ein = codes "12";
      source = codes "by name";
      fetched_at = 1;
      everyorg_claim = unknown;
      claim_checked_at = none;
    }
    ∷ record {
      shelter_external_id = codes "rescuegroups:org:1";
      everyorg_slug = codes "spencer";
      ein = codes "34";
      source = codes "by name";
      fetched_at = 1;
      everyorg_claim = claimed;
      claim_checked_at = none;
    }
    ∷ []

abbrev gate : SponsorGate
gate = record { everyorg_env = production; as_of = b'5'; exclusions = []; registry = spencer ∷ [] }

gate_example :
    ((n : ClaimedNonprofit) × (sponsor_nonprofit first_digit rows (codes "rescuegroups:org:1") gate
        ≡ some n))
    ↔ Any (λ x. x ≡ codes "rescuegroups:org:1") (sponsorable_shelter_ids first_digit rows gate)
gate_example = sponsor_nonprofit-listed first_digit rows (codes "rescuegroups:org:1") gate
