-- ===== src/Shelters/Tests.antt =====
-- A registry of two shelters, of which one took its consent back.
use monster_paws.Prelude.{
  ℕ, Text, text_eq, codes, ◌≡◌, refl, ◌↔◌, ◌⊎◌, inl, inr, Bool, true, false, Option, none, some,
  List, [], ◌∷◌, ◌++◌, Any,
}
use monster_paws.Result.{ok}
use monster_paws.Sources.{aggregator, scrape_prefix, is_valid_slug}
use monster_paws.Donate.Shapes.{every, split_on}
use monster_paws.Shelters.{
  digify, ConsentWindow, Grant, ShelterEntry, has_grant, is_active, includes, shelter_by_slug,
  shelter_by_external_id, source_of, registry_problems, problems_from, key_problems,
  all_grant_problems, grant_problems, revoked_problem, push_when, is_blank, is_shelter_key,
  key_parts, is_segment, after_org, is_rest, is_space,
}
use monster_paws.Shelters.Windows.{Within, has_grant-Within}
use monster_paws.Shelters.Registry.{registry_problems-none}

-- A date that is a single digit.
abbrev digit_date : Text → Option ℕ
digit_date (c ∷ []) = some c
digit_date _ = none

abbrev window : ConsentWindow
window = record { granted_at = codes "2"; revoked_at = some (codes "5") }

abbrev grant : Grant
grant = record {
  window = window;
  permission = digify;
  granter = codes "Kristen";
  basis = codes "asked";
  evidence = codes "<a@b> sha256:00";
}

abbrev entry : Text → Text → ShelterEntry
entry slug id = record {
  slug = slug;
  name = slug;
  site_url = slug;
  listings_url = slug;
  tier = aggregator;
  golden_fixture = none;
  shelter_external_ids = id ∷ [];
  grants = grant ∷ [];
}

abbrev spencer : ShelterEntry
spencer = entry (codes "spencer") (codes "rescuegroups:org:1")

abbrev registry : List ShelterEntry
registry = entry (codes "happy-paws") (codes "rescuegroups:org:2") ∷ spencer ∷ []

grant_example :
    (has_grant digit_date (some spencer) digify b'3' ≡ true)
    ↔ Any (λ g. (g.permission ≡ digify) × Within digit_date g.window b'3') spencer.grants
grant_example = has_grant-Within digit_date spencer digify b'3'

abbrev any_date : Text → Bool
any_date s = true

no_problem : registry_problems any_date registry ≡ []
unfolding registry_problems problems_from key_problems all_grant_problems grant_problems
    revoked_problem push_when is_blank is_space every includes is_shelter_key key_parts is_segment
    after_org is_rest split_on is_valid_slug text_eq
no_problem = refl

registry_example :
    (shelter_by_slug (codes "spencer") registry ≡ some spencer)
    × ((k : Text)
        → (includes k spencer.shelter_external_ids ≡ false)
          ⊎ (shelter_by_external_id k registry ≡ some spencer))
    × (source_of spencer ≡ ok (scrape_prefix ++ codes "spencer"))
registry_example = registry_problems-none any_date registry spencer no_problem (inr (inl refl))

abbrev revoked_window : ConsentWindow
revoked_window = record { granted_at = codes "3"; revoked_at = some (codes "5") }

open_then : is_active digit_date revoked_window b'3' ≡ true
unfolding is_active
open_then = refl

over_later : is_active digit_date revoked_window b'5' ≡ false
unfolding is_active
over_later = refl
