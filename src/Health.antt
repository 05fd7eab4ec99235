-- ===== src/Health.antt =====
-- core/health.ts: when the deployment is well.
mod Tests
use monster_paws.Prelude.{
  ℕ, ◌+◌, ◌*◌, ◌≤◌, ◌<◌, ◌-◌, ◌≡◌, ◌≢◌, refl, ◌⊎◌, inl, inr, ◌↔◌, Bool, true, false, not, ◌&&◌,
  ◌||◌, Option, none, some, List, [], ◌∷◌, ltb, All, arith, if◌then◌else◌, Bool-cases, Option-cases,
}

pub data DbState : Type 0 where
  up down unconfigured : DbState

pub record Health : Type 0 where
  pub ok : Bool
  pub db : DbState
  pub last_complete_poll_at : Option ℕ
  pub poll_stale : Bool

abbrev pub ingest_poll_interval_hours : ℕ
ingest_poll_interval_hours = 24

abbrev pub poll_stale_after_hours : ℕ
poll_stale_after_hours = ingest_poll_interval_hours + 3

-- The oldest of the sources' newest runs: `!m || d < m`.
oldest_from : Option ℕ → List ℕ → Option ℕ
oldest_from m [] = m
oldest_from none (d ∷ ds) = oldest_from (some d) ds
oldest_from (some m) (d ∷ ds) = oldest_from (if ltb d m then some d else some m) ds

is_stale : Option ℕ → ℕ → Bool
is_stale none now = true
is_stale (some oldest) now = ltb (oldest + poll_stale_after_hours * 3_600_000) now

is_up : DbState → Bool
is_up up = true
is_up down = false
is_up unconfigured = false

pub assess_health : DbState → List ℕ → ℕ → Health
unfolding oldest_from is_stale is_up
assess_health db newest now =
    let oldest = oldest_from none newest in
    record {
      ok = is_up db && not (is_stale oldest now);
      db = db;
      last_complete_poll_at = oldest;
      poll_stale = is_stale oldest now;
    }

abbrev pub stale_ms : ℕ
stale_ms = 97_200_000

oldest_from-some :
    (m : ℕ) (ds : List ℕ) (now : ℕ)
    → (o : ℕ) × (oldest_from (some m) ds ≡ some o)
      × ((now ≤ o + stale_ms) ↔ ((now ≤ m + stale_ms) × All (λ d. now ≤ d + stale_ms) ds))
unfolding oldest_from
oldest_from-some m [] now = (m, refl, (λ h. (h, tt), λ h. h.0))
oldest_from-some m (d ∷ ds) now = elim (Bool-cases (ltb d m)) [
  | inl older ↦
      let (o, e, (there, back)) = oldest_from-some d ds now in
      (
        o,
        rw older e,
        (λ h. let (a, b) = there h in (ground arith, (a, b)), λ (h, (a, b)). back (a, b)),
      )
  | inr newer ↦
      let (o, e, (there, back)) = oldest_from-some m ds now in
      (
        o,
        rw newer e,
        (λ h. let (a, b) = there h in (a, (ground arith, b)), λ (h, (a, b)). back (h, b)),
      )
]

is_stale_iff : (o now : ℕ) → (not (is_stale (some o) now) ≡ true) ↔ (now ≤ o + stale_ms)
unfolding is_stale
is_stale_iff o now = (λ e. ground arith, λ h. ground arith)

-- The deployment is well exactly if its database is up, some source has had a complete run, and
-- no source's newest complete run is longer ago than 27 hours: one stale source is enough.
pub assess_health-ok :
    (db : DbState) (newest : List ℕ) (now : ℕ)
    → ((assess_health db newest now).ok ≡ true)
      ↔ ((db ≡ up) × (newest ≢ []) × All (λ d. now ≤ d + stale_ms) newest)
unfolding assess_health oldest_from is_stale is_up
assess_health-ok db [] now = (λ e. absurd (not_up db e), λ (_, n, _). absurd (n refl))
  where
    not_up : (db : DbState) → (is_up db && false) ≡ true → ⊥
    not_up up e = cc
    not_up down e = cc
    not_up unconfigured e = cc
assess_health-ok up (d ∷ ds) now =
    let (o, e, (there, back)) = oldest_from-some d ds now in
    let (fresh, old) = is_stale_iff o now in
    rw e (λ w. (refl, λ empty. cc, there (fresh w)), λ (_, _, h). old (back h))
assess_health-ok down (d ∷ ds) now = (λ e. cc, λ (e, _, _). cc)
assess_health-ok unconfigured (d ∷ ds) now = (λ e. cc, λ (e, _, _). cc)
