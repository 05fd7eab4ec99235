-- ===== src/Shelters.antt =====
-- core/shelters.ts: the registry of shelters, what they allow, and the checks on the registry.
pub mod Windows
pub mod Registry
mod Tests
use monster_paws.Prelude.{
  ℕ, Text, text_eq, codes, length, leb, ltb, ◌==◌, Bool, true, false, not, ◌&&◌, ◌||◌, Option, none,
  some, List, [], ◌∷◌, ◌++◌, keep_if, if◌then◌else◌,
}
use monster_paws.Result.{Result}
use monster_paws.Sources.{Tier, is_valid_slug, scrape_source}
use monster_paws.Donate.Shapes.{is_digit, is_lower, every, split_on}

pub data Permission : Type 0 where
  scrape display digify : Permission

pub record ConsentWindow : Type 0 where
  pub granted_at : Text
  pub revoked_at : Option Text

pub record Grant : Type 0 where
  pub window : ConsentWindow
  pub permission : Permission
  pub granter : Text
  pub basis : Text
  pub evidence : Text

-- An absent list of ids is an empty one.
pub record ShelterEntry : Type 0 where
  pub slug : Text
  pub name : Text
  pub site_url : Text
  pub listings_url : Text
  pub tier : Tier
  pub golden_fixture : Option Text
  pub shelter_external_ids : List Text
  pub grants : List Grant

-- A shelter that asked for its listings to be taken down.
pub record ShelterExclusion : Type 0 where
  pub shelter_external_id : Text
  pub name : Text
  pub asked_by : Text
  pub asked_at : Text
  pub evidence : Text

unfoldable pub permission_eq : Permission → Permission → Bool
permission_eq scrape scrape = true
permission_eq display display = true
permission_eq digify digify = true
permission_eq _ _ = false

unfoldable pub includes : Text → List Text → Bool
includes k [] = false
includes k (x ∷ xs) = text_eq x k || includes k xs

-- `Array.prototype.find`.
unfoldable pub find_first {ℓ} : {A : Type ℓ} → (A → Bool) → List A → Option A
find_first test [] = none
find_first test (x ∷ xs) = if test x then some x else find_first test xs

unfoldable pub shelter_by_slug : Text → List ShelterEntry → Option ShelterEntry
shelter_by_slug slug registry = find_first (λ s. text_eq s.slug slug) registry

unfoldable pub shelter_by_external_id : Text → List ShelterEntry → Option ShelterEntry
shelter_by_external_id id registry = find_first (λ s. includes id s.shelter_external_ids) registry

pub source_of : ShelterEntry → Result Text
source_of shelter = scrape_source shelter.slug

unfoldable pub some_of {ℓ} : {A : Type ℓ} → (A → Bool) → List A → Bool
some_of test [] = false
some_of test (x ∷ xs) = test x || some_of test xs

-- `Date.parse`, which is `none` where it is not a number, is an argument.
module _ (parse_date : Text → Option ℕ) where
  not_revoked : Option Text → ℕ → Bool
  not_revoked none as_of = true
  not_revoked (some revoked_at) as_of = elim (parse_date revoked_at) [
    | none ↦ false
    | some revoked ↦ ltb as_of revoked
  ]

  pub is_active : ConsentWindow → ℕ → Bool
  unfolding not_revoked
  is_active window as_of = elim (parse_date window.granted_at) [
    | none ↦ false
    | some granted ↦ if ltb as_of granted then false else not_revoked window.revoked_at as_of
  ]

  unfoldable pub has_grant : Option ShelterEntry → Permission → ℕ → Bool
  unfolding is_active
  has_grant none permission as_of = false
  has_grant (some shelter) permission as_of =
      some_of (λ g. permission_eq g.permission permission && is_active g.window as_of)
        shelter.grants

  pub is_partner_shelter : Option Text → ℕ → List ShelterEntry → Bool
  unfolding has_grant
  is_partner_shelter none as_of registry = false
  is_partner_shelter (some id) as_of registry =
      has_grant (shelter_by_external_id id registry) digify as_of

  pub shelters_with_grant : Permission → ℕ → List ShelterEntry → List ShelterEntry
  unfolding has_grant
  shelters_with_grant permission as_of registry =
      keep_if (λ s. has_grant (some s) permission as_of) registry

-- `\s`, which is also what `trim` strips.
unfoldable pub is_space : ℕ → Bool
is_space c =
    (leb 9 c && leb c 13)
    || (c == 32
        || (c == 160
            || (c == 0x1680
                || ((leb 0x2000 c && leb c 0x200a)
                    || (c == 0x2028
                        || (c == 0x2029
                            || (c == 0x202f || (c == 0x205f || (c == 0x3000 || c == 0xfeff)))))))))

-- `!s.trim()`.
is_blank : Text → Bool
is_blank s = every is_space s

is_segment : Text → Bool
is_segment s = not (text_eq s []) && every (λ c. is_lower c || (is_digit c || c == b'-')) s

-- `[^\s]+` over what is left after the parts.
is_rest : List Text → Bool
is_rest [] = false
is_rest (s ∷ []) = not (text_eq s []) && every (λ c. not (is_space c)) s
is_rest (s ∷ t ∷ ts) = every (λ c. not (is_space c)) s && every_rest (t ∷ ts)
  where
    every_rest : List Text → Bool
    every_rest [] = true
    every_rest (u ∷ us) = every (λ c. not (is_space c)) u && every_rest us

after_org : List Text → Bool
unfolding is_rest
after_org [] = false
after_org (org ∷ rest) = text_eq org (codes "org") && is_rest rest

key_parts : List Text → Bool
unfolding is_segment after_org
key_parts [] = false
key_parts (p ∷ []) = false
key_parts (p ∷ q ∷ rest) =
    is_segment p && (after_org (q ∷ rest) || (is_segment q && after_org rest))

-- `SHELTER_KEY`, by the parts between the colons.
pub is_shelter_key : Text → Bool
unfolding key_parts
is_shelter_key s = key_parts (split_on b':' s)

-- The messages of `registryProblems`.
pub data Problem : Type 0 where
  bad_slug duplicate_slug : Text → Problem
  bad_key shared_key : Text → Text → Problem
  bad_granted_at bad_revoked_at no_evidence no_granter : Text → Permission → Problem

push_when : Bool → Problem → List Problem
push_when true p = p ∷ []
push_when false p = []

module _ (is_iso_date : Text → Bool) where
  revoked_problem : Text → Permission → Option Text → List Problem
  unfolding push_when
  revoked_problem slug permission none = []
  revoked_problem slug permission (some at) =
      push_when (not (is_iso_date at)) (bad_revoked_at slug permission)

  grant_problems : Text → Grant → List Problem
  unfolding push_when revoked_problem is_blank
  grant_problems slug g =
      push_when (not (is_iso_date g.window.granted_at)) (bad_granted_at slug g.permission)
      ++ (revoked_problem slug g.permission g.window.revoked_at
          ++ (push_when (is_blank g.evidence) (no_evidence slug g.permission)
              ++ push_when (is_blank g.granter) (no_granter slug g.permission)))

  all_grant_problems : Text → List Grant → List Problem
  unfolding grant_problems
  all_grant_problems slug [] = []
  all_grant_problems slug (g ∷ gs) = grant_problems slug g ++ all_grant_problems slug gs

  -- The keys of one shelter, after those that were seen.
  key_problems : Text → List Text → List Text → List Problem
  unfolding push_when
  key_problems slug seen [] = []
  key_problems slug seen (k ∷ ks) =
      push_when (not (is_shelter_key k)) (bad_key slug k)
      ++ (push_when (includes k seen) (shared_key slug k) ++ key_problems slug (k ∷ seen) ks)

  pub problems_from : List Text → List Text → List ShelterEntry → List Problem
  unfolding push_when key_problems all_grant_problems
  problems_from slugs keys [] = []
  problems_from slugs keys (s ∷ rest) =
      push_when (not (is_valid_slug s.slug)) (bad_slug s.slug)
      ++ (push_when (includes s.slug slugs) (duplicate_slug s.slug)
          ++ (key_problems s.slug keys s.shelter_external_ids
              ++ (all_grant_problems s.slug s.grants
                  ++ problems_from (s.slug ∷ slugs) (s.shelter_external_ids ++ keys) rest)))

  -- `registryProblems`.
  pub registry_problems : List ShelterEntry → List Problem
  unfolding problems_from
  registry_problems registry = problems_from [] [] registry
