-- ===== src/Health/Tests.antt =====
-- The health of a deployment with a fresh and a stale source.
use monster_paws.Prelude.{ℕ, ◌≡◌, false, refl, List, [], ◌∷◌}
use monster_paws.Health.{up, assess_health}

abbrev newest_runs : List ℕ
newest_runs = 97_200_000 ∷ 5 ∷ []

one_is_stale : (assess_health up newest_runs 97_200_006).ok ≡ false
unfolding assess_health
one_is_stale = refl
