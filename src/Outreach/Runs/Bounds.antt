-- ===== src/Outreach/Runs/Bounds.antt =====
-- How many letters a lawful record can hold.
use mathlib.Core.List.{append-nil, append_assoc}
use monster_paws.Prelude.{
  ℕ, ◌+◌, ◌≤◌, ◌<◌, ◌≡◌, subst, Text, Bool, true, ◌&&◌, List, [], ◌∷◌, ◌++◌, length, keep_if,
  text_eq_iff, leb, ltb, arith, Bool-cases, inl, inr, if◌then◌else◌,
}
use monster_paws.Shelters.{ShelterExclusion}
use monster_paws.Outreach.Record.{OutreachEvent, Office, is_sent, is_of}
use monster_paws.Outreach.Guard.{in_last_day, daily_cap, day_ms}
use monster_paws.Outreach.Guard.Facts.{sends_to}
use monster_paws.Outreach.Lawful.{IsAllowed, length-keep_if_mono}
use monster_paws.Outreach.Runs.{LawfulFrom, IsLawful, Reach, Reach-IsLawful}

-- A letter of the day that ends with the instant `t`.
abbrev pub in_day_to : ℕ → OutreachEvent → Bool
in_day_to t e = is_sent e && (leb e.occurred_at t && ltb t (e.occurred_at + day_ms))

length-keep_if-snoc :
    (test : OutreachEvent → Bool) (es : List OutreachEvent) (e : OutreachEvent)
    → length (keep_if test (es ++ e ∷ [])) ≡ length (keep_if test es) + (if test e then 1 else 0)
unfolding keep_if
length-keep_if-snoc test [] e = ground arith
length-keep_if-snoc test (x ∷ es) e = ground (arith, length-keep_if-snoc test es e)

-- A day that a new letter falls into had room for it.
day_snoc :
    (t : ℕ) (es : List OutreachEvent) (e : OutreachEvent)
    → (is_sent e ≡ true → IsAllowed es e.shelter_external_id e.wave e.occurred_at)
    → length (keep_if (in_day_to t) es) ≤ daily_cap
    → length (keep_if (in_day_to t) (es ++ e ∷ [])) ≤ daily_cap
day_snoc t es e allowed h = elim (Bool-cases (in_day_to t e)) [
  | inr outside ↦ let n = length-keep_if-snoc (in_day_to t) es e in ground arith
  | inl inside ↦
      let n = length-keep_if-snoc (in_day_to t) es e in
      let letter : is_sent e ≡ true = ground arith in
      let room = (allowed letter).cap in
      let fewer =
        length-keep_if_mono (in_day_to t) (in_last_day e.occurred_at)
          (λ x p. unfold in_last_day in ground arith) es in
      let one : length (keep_if (in_day_to t) (es ++ e ∷ []))
          ≡ length (keep_if (in_day_to t) es) + 1 =
        rw inside at n in
      omega arith
]

day_from :
    (t : ℕ) (before es : List OutreachEvent)
    → LawfulFrom before es
    → length (keep_if (in_day_to t) before) ≤ daily_cap
    → length (keep_if (in_day_to t) (before ++ es)) ≤ daily_cap
day_from t before [] h le = rw append-nil le
day_from t before (e ∷ es) h le =
    rw (← append_assoc before (e ∷ []) es)
      (day_from t (before ++ e ∷ []) es h.1 (day_snoc t before e h.0 le))

length-sends_to-snoc :
    (shelter : Text) (es : List OutreachEvent) (e : OutreachEvent)
    → length (sends_to shelter (es ++ e ∷ []))
      ≡ length (sends_to shelter es) + (if is_of shelter e && is_sent e then 1 else 0)
unfolding sends_to keep_if
length-sends_to-snoc shelter [] e = ground arith
length-sends_to-snoc shelter (x ∷ es) e = ground (arith, length-sends_to-snoc shelter es e)

shelter_snoc :
    (shelter : Text) (es : List OutreachEvent) (e : OutreachEvent)
    → (is_sent e ≡ true → IsAllowed es e.shelter_external_id e.wave e.occurred_at)
    → length (sends_to shelter es) ≤ 2
    → length (sends_to shelter (es ++ e ∷ [])) ≤ 2
shelter_snoc shelter es e allowed h = elim (Bool-cases (is_of shelter e && is_sent e)) [
  | inr other ↦ let n = length-sends_to-snoc shelter es e in ground arith
  | inl to_it ↦
      let n = length-sends_to-snoc shelter es e in
      let letter : is_sent e ≡ true = ground arith in
      let at : is_of shelter e ≡ true = ground arith in
      let same : e.shelter_external_id ≡ shelter = unfold is_of in (text_eq_iff _ shelter).0 at in
      let room = subst (λ s. length (sends_to s es) < 2) same (allowed letter).budget in
      ground arith
]

shelter_from :
    (shelter : Text) (before es : List OutreachEvent)
    → LawfulFrom before es
    → length (sends_to shelter before) ≤ 2
    → length (sends_to shelter (before ++ es)) ≤ 2
shelter_from shelter before [] h le = rw append-nil le
shelter_from shelter before (e ∷ es) h le =
    rw (← append_assoc before (e ∷ []) es)
      (shelter_from shelter (before ++ e ∷ []) es h.1 (shelter_snoc shelter before e h.0 le))

module _ (precedes : Text → Text → Bool) (exclusions : List ShelterExclusion) where
  -- From a lawful record, however many runners there are, if no clock goes back within an attempt
  -- and no one notes a letter by hand, the record holds no more than forty letters of any 24 hours,
  -- of a calendar day or others. A letter whose row was refused after it was delivered is not on
  -- the record.
  pub Reach-daily_cap :
      {start office : Office} (t : ℕ)
      → IsLawful start.events
      → Reach precedes exclusions start office
      → length (keep_if (in_day_to t) office.events) ≤ 40
  unfolding keep_if
  Reach-daily_cap {office} t h r =
      day_from t [] office.events (Reach-IsLawful precedes exclusions h r) (omega arith)

  -- From a lawful record, if no clock goes back within an attempt and no one notes a letter by
  -- hand, the record holds no more than two letters to any shelter, of whichever waves. A letter
  -- whose row was refused after it was delivered is not on the record.
  pub Reach-max_sends :
      {start office : Office} (shelter : Text)
      → IsLawful start.events
      → Reach precedes exclusions start office
      → length (sends_to shelter office.events) ≤ 2
  unfolding sends_to keep_if
  Reach-max_sends {office} shelter h r =
      shelter_from shelter [] office.events (Reach-IsLawful precedes exclusions h r) (omega arith)
