-- ===== src/Outreach/Guard/Verdict.antt =====
-- What the facts must say for the guard to let a letter go.
use monster_paws.Prelude.{
  ℕ, ◌≤◌, ◌<◌, ◌+◌, ◌≡◌, refl, sym, ap, ◌∙◌, ◌⊎◌, ◌↔◌, inl, inr, Text, true, false, Option, none,
  some, List, [], ◌∷◌, length, leb, All, arith, Bool-cases,
}
use monster_paws.Outreach.Record.{OutreachEventKind, bounced, opted_out}
use monster_paws.Outreach.Guard.{
  SendFacts, send, judge_send, addressed, answered_or, followed, reminded, capped, spaced, has_kind,
  answers_of, daily_cap, min_spacing_ms, follow_up_after_ms, is_wave_name,
}

pub record MaySend (facts : SendFacts) (to : Text) (now : ℕ) : Type 0 where
  pub named : is_wave_name facts.wave ≡ true
  pub listed : facts.excluded ≡ false
  pub opted : has_kind opted_out facts.answered ≡ false
  pub this_wave : facts.sent_in_this_wave ≡ false
  pub address : facts.confirmed_to ≡ some to
  pub real : (c : ℕ) × (cs : Text) × (to ≡ c ∷ cs)
  pub unanswered : answers_of facts.answered ≡ []
  pub few : length facts.sent_to_shelter_at < 2
  pub week : All (λ at. at + follow_up_after_ms ≤ now) facts.sent_to_shelter_at
  pub bounce : (facts.sent_to_shelter_at ≡ []) ⊎ (has_kind bounced facts.answered ≡ false)
  pub day : facts.sent_in_last_day < daily_cap
  pub minute :
      (facts.last_sent_at ≡ none)
      ⊎ ((last : ℕ) × (facts.last_sent_at ≡ some last) × (last + min_spacing_ms ≤ now))

spaced-send :
    (to to' : Text) (last : Option ℕ) (now : ℕ)
    → spaced to last now ≡ send to'
    → (to ≡ to') × ((last ≡ none) ⊎ ((at : ℕ) × (last ≡ some at) × (at + min_spacing_ms ≤ now)))
unfolding spaced
spaced-send to to' none now h = (cc, inl refl)
spaced-send to to' (some at) now h = (ground arith, inr (at, refl, ground arith))

capped-send :
    (to to' : Text) (facts : SendFacts) (now : ℕ)
    → capped to facts now ≡ send to'
    → (facts.sent_in_last_day < daily_cap) × (spaced to facts.last_sent_at now ≡ send to')
unfolding capped
capped-send to to' facts now h = elim (Bool-cases (leb daily_cap facts.sent_in_last_day)) [
  | inl full ↦ absurd (cc (sym (rw full at h)))
  | inr room ↦ (ground arith, rw room at h)
]

followed-send :
    (to to' : Text) (facts : SendFacts) (ats : List ℕ) (now : ℕ)
    → followed to facts ats now ≡ send to'
    → (length ats < 2)
      × All (λ at. at + follow_up_after_ms ≤ now) ats
      × ((ats ≡ []) ⊎ (has_kind bounced facts.answered ≡ false))
      × (capped to facts now ≡ send to')
unfolding followed reminded
followed-send to to' facts [] now h = (omega arith, tt, inl refl, ground arith)
followed-send to to' facts (first ∷ []) now h =
    (omega arith, (ground arith, tt), inr (ground arith), ground arith)
followed-send to to' facts (first ∷ second ∷ more) now h = absurd (ground arith)

answered-send :
    (to to' : Text) (facts : SendFacts) (ks : List OutreachEventKind) (now : ℕ)
    → answered_or to facts ks now ≡ send to'
    → (ks ≡ []) × (followed to facts facts.sent_to_shelter_at now ≡ send to')
unfolding answered_or
answered-send to to' facts [] now h = (refl, h)
answered-send to to' facts (k ∷ ks) now h = absurd (cc)

addressed-send :
    (to' : Text) (o : Option Text) (facts : SendFacts) (now : ℕ)
    → addressed o facts now ≡ send to'
    → (to : Text) × ((c : ℕ) × (cs : Text) × (to ≡ c ∷ cs))
      × (o ≡ some to)
      × (answered_or to facts (answers_of facts.answered) now ≡ send to')
unfolding addressed
addressed-send to' none facts now h = absurd (cc)
addressed-send to' (some []) facts now h = absurd (cc)
addressed-send to' (some (c ∷ cs)) facts now h = (c ∷ cs, (c, cs, refl), refl, h)

-- A letter goes only if every rule allows it.
pub judge_send-MaySend :
    (facts : SendFacts) (now : ℕ) (to : Text)
    → judge_send facts now ≡ send to
    → MaySend facts to now
unfolding judge_send
judge_send-MaySend facts now to h =
    let gates : (is_wave_name facts.wave ≡ true)
        × (facts.excluded ≡ false)
        × (has_kind opted_out facts.answered ≡ false)
        × (facts.sent_in_this_wave ≡ false)
        × (addressed facts.confirmed_to facts now ≡ send to) =
      ground arith in
    let (named, listed, opted, this_wave, h₁) = gates in
    let (to₀, (c, cs, real), address, h₂) = addressed-send to facts.confirmed_to facts now h₁ in
    let (unanswered, h₃) = answered-send to₀ to facts (answers_of facts.answered) now h₂ in
    let (few, week, bounce, h₄) = followed-send to₀ to facts facts.sent_to_shelter_at now h₃ in
    let (day, h₅) = capped-send to₀ to facts now h₄ in
    let (same, minute) = spaced-send to₀ to facts.last_sent_at now h₅ in
    record {
      named = named;
      listed = listed;
      opted = opted;
      this_wave = this_wave;
      address = address ∙ ap some same;
      real = (c, cs, sym same ∙ real);
      unanswered = unanswered;
      few = few;
      week = week;
      bounce = bounce;
      day = day;
      minute = minute;
    }

capped-lets :
    (to : Text) (facts : SendFacts) (now : ℕ)
    → facts.sent_in_last_day < daily_cap
    → (facts.last_sent_at ≡ none)
      ⊎ ((last : ℕ) × (facts.last_sent_at ≡ some last) × (last + min_spacing_ms ≤ now))
    → capped to facts now ≡ send to
unfolding capped spaced
capped-lets to facts now day (inl never) = ground arith
capped-lets to facts now day (inr (last, e, gap)) = ground arith

followed-lets :
    (to : Text) (facts : SendFacts) (ats : List ℕ) (now : ℕ)
    → length ats < 2
    → All (λ at. at + follow_up_after_ms ≤ now) ats
    → (ats ≡ []) ⊎ (has_kind bounced facts.answered ≡ false)
    → capped to facts now ≡ send to
    → followed to facts ats now ≡ send to
unfolding followed reminded
followed-lets to facts [] now few week bounce h = ground arith
followed-lets to facts (first ∷ []) now few week (inl none_at_all) h = absurd (cc)
followed-lets to facts (first ∷ []) now few week (inr clean) h = ground arith
followed-lets to facts (first ∷ second ∷ more) now few week bounce h = absurd (omega arith)

addressed-lets :
    (to : Text) (facts : SendFacts) (now : ℕ)
    → MaySend facts to now
    → addressed (some to) facts now ≡ send to
unfolding addressed answered_or
addressed-lets [] facts now may = absurd (cc (may.real.2))
addressed-lets (c ∷ cs) facts now may = rw (may.unanswered) (
    followed-lets (c ∷ cs) facts facts.sent_to_shelter_at now may.few may.week may.bounce
      (capped-lets (c ∷ cs) facts now may.day may.minute))

-- The guard lets a letter go exactly if every rule allows it, and then to the confirmed address.
pub judge_send-send :
    (facts : SendFacts) (now : ℕ) (to : Text)
    → (judge_send facts now ≡ send to) ↔ MaySend facts to now
unfolding judge_send
judge_send-send facts now to = (
  judge_send-MaySend facts now to,
  λ may.
      let last = addressed-lets to facts now may in
      let at : addressed facts.confirmed_to facts now ≡ send to =
        ap (λ o. addressed o facts now) may.address ∙ last in
      ground (arith, at, may.named, may.listed, may.opted, may.this_wave),
)
