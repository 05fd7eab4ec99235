-- ===== src/Ingest/Gate.antt =====
-- The disappearance gate and the reconcile clock of core/ingest/pipeline.ts. The code computes the
-- rate in floating point; `Floats` is the arithmetic that it uses, as an argument.
use monster_paws.Prelude.{
  ℕ, ◌+◌, ◌-◌, ◌<◌, max, Bool, false, ◌&&◌, ◌||◌, Option, none, some, leb, ◌==◌, ◌≡◌, ◌⊎◌, ◌↔◌,
  arith, if◌then◌else◌,
}

pub record Floats (Num : Type 0) : Type 0 where
  pub of_ℕ : ℕ → Num
  pub div : Num → Num → Num
  pub sub : Num → Num → Num
  pub pow : Num → Num → Num
  pub less : Num → Num → Bool
  -- 0.05
  pub default_rate : Num

pub record DisappearanceTally : Type 0 where
  pub present : ℕ
  pub disappearing : ℕ
  pub disappearing_median_last_seen : Option ℕ
  pub at : ℕ

-- The numbers that a refusal's message prints.
pub record Refusal (Num : Type 0) : Type 0 where
  pub disappearing : ℕ
  pub present : ℕ
  pub days : Num
  pub rate_per_day : Num
  pub max_daily_rate : Num

pub record DisappearanceVerdict (Num : Type 0) : Type 0 where
  pub rate_per_day : Num
  pub days : Num
  pub refusal : Option (Refusal Num)

abbrev pub disappearance_gate_floor : ℕ
disappearance_gate_floor = 100

abbrev pub day_ms : ℕ
day_ms = 86_400_000

-- A `Date | null` with a fallback: `a ?? b`.
abbrev pub or_else : Option ℕ → Option ℕ → Option ℕ
or_else none b = b
or_else (some a) b = some a

module _ {Num : Type 0} (floats : Floats Num) where
  open floats use {of_ℕ, div, sub, pow, less}

  -- `Math.min` and `Math.max` of two numbers.
  min_of : Num → Num → Num
  min_of a b = if less b a then b else a

  max_of : Num → Num → Num
  max_of a b = if less a b then b else a

  pub daily_disappearance_rate : ℕ → ℕ → Num → Num
  unfolding min_of max_of
  daily_disappearance_rate present disappearing days =
      if present == 0 || disappearing == 0
      then of_ℕ 0
      else (let share = min_of (of_ℕ 1) (div (of_ℕ disappearing) (of_ℕ present)) in
          sub (of_ℕ 1) (pow (sub (of_ℕ 1) share) (div (of_ℕ 1) (max_of (of_ℕ 1) days))))

  -- `Math.max(0, at - since)`, and one day if nothing is known of the last run.
  days_since : ℕ → Option ℕ → Num
  days_since at none = of_ℕ 1
  days_since at (some since) = div (of_ℕ (at - since)) (of_ℕ day_ms)

  unfoldable pub judge_disappearances :
      DisappearanceTally → Option ℕ → Num → DisappearanceVerdict Num
  unfolding days_since max_of
  judge_disappearances tally last_complete_at max_daily_rate =
      let days =
        days_since tally.at (or_else last_complete_at tally.disappearing_median_last_seen) in
      let rate = daily_disappearance_rate tally.present tally.disappearing days in
      record {
        rate_per_day = rate;
        days = days;
        refusal =
            if leb disappearance_gate_floor tally.disappearing && less max_daily_rate rate
            then some (record {
              disappearing = tally.disappearing;
              present = tally.present;
              days = max_of (of_ℕ 1) days;
              rate_per_day = rate;
              max_daily_rate = max_daily_rate;
            })
            else none;
      }

  -- The gate refuses exactly if at least a hundred animals of the source would disappear and the
  -- measured daily rate is above the limit, and it never refuses when none of them is present.
  pub judge_disappearances-refusal :
      (tally : DisappearanceTally) (last : Option ℕ) (limit : Num)
      → less limit (of_ℕ 0) ≡ false
      → let v = judge_disappearances tally last limit in
        ((v.refusal ≡ none) ↔ ((tally.disappearing < 100) ⊎ (less limit v.rate_per_day ≡ false)))
        × ((0 < tally.present) ⊎ (v.refusal ≡ none))
  unfolding judge_disappearances daily_disappearance_rate
  judge_disappearances-refusal tally last limit h = ground arith

-- The reconcile clock: the instant and how far the clock stepped back.
pub record ReconcileAt : Type 0 where
  pub at : ℕ
  pub clock_stepped_back_ms : ℕ

unfoldable pub resolve_reconcile_at : ℕ → Option ℕ → ReconcileAt
resolve_reconcile_at at none = record { at = at; clock_stepped_back_ms = 0 }
resolve_reconcile_at at (some newest) =
    if leb newest at
    then record { at = at; clock_stepped_back_ms = 0 }
    else record { at = newest; clock_stepped_back_ms = newest - at }

-- The resolved instant is the later of the requested one and the newest sighting, and the step
-- back is the distance between the requested and the resolved one.
pub resolve_reconcile_at_lem :
    (at newest : ℕ)
    → let r = resolve_reconcile_at at (some newest) in
      (r.at ≡ max at newest) × (at + r.clock_stepped_back_ms ≡ r.at)
unfolding resolve_reconcile_at
resolve_reconcile_at_lem at newest = ground arith
