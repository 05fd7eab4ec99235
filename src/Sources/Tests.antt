-- ===== src/Sources/Tests.antt =====
-- Runs of core/sources.ts on concrete texts.
use monster_paws.Prelude.{Text, codes, ◌≡◌, refl, true, false}
use monster_paws.Sources.{is_valid_slug}

abbrev happy : Text
happy = codes "happy-paws-2"

happy_runs : is_valid_slug happy ≡ true
unfolding is_valid_slug
happy_runs = refl

trailing_dash_runs : is_valid_slug (codes "happy-") ≡ false
unfolding is_valid_slug
trailing_dash_runs = refl
