-- ===== src/Outreach/Lawful.antt =====
-- Which letters the rules allow, by the record before them, and that a letter which an attempt
-- records is one of them.
use monster_paws.Prelude.{
  ℕ, ◌≤◌, ◌<◌, ◌+◌, ◌≡◌, refl, sym, ap, ◌∙◌, ◌⊎◌, inl, inr, Text, text_eq, Bool, true, false, ◌||◌,
  none, some, List, [], ◌∷◌, length, keep_if, All, All-mono, All-kept, arith, Bool-cases,
}
use monster_paws.Shelters.{ShelterExclusion}
use monster_paws.Outreach.Record.{
  OutreachEventKind, sent, bounced, replied, opted_out, granted, kind_is, OutreachEvent, is_sent,
  is_of, Office,
}
use monster_paws.Outreach.Guard.{
  newest_of, kinds_from, history_of, in_last_day, load_send_facts, daily_cap, min_spacing_ms,
  follow_up_after_ms,
}
use monster_paws.Outreach.Guard.Verdict.{MaySend}
use monster_paws.Outreach.Guard.Facts.{
  newest_of-none, newest_of-All, kinds_from-All, answers_of-none, some_event-All, history_of-All,
  sends_to, length-history_of, sends-All,
}

-- The shelter has asked for no more letters, or has answered.
unfoldable pub ends_thread : OutreachEvent → Bool
ends_thread e = kind_is e.kind opted_out || (kind_is e.kind replied || kind_is e.kind granted)

-- A letter of the shelter `shelter` in the wave `wave` at the instant `at`, by the rows before it.
pub record IsAllowed (es : List OutreachEvent) (shelter wave : Text) (at : ℕ) : Type 0 where
  pub spacing : All (λ e. is_sent e ≡ true → e.occurred_at + min_spacing_ms ≤ at) es
  pub cap : length (keep_if (in_last_day at) es) < daily_cap
  pub budget : length (sends_to shelter es) < 2
  pub follow_up :
      All
        (λ e. is_of shelter e ≡ true → is_sent e ≡ true → e.occurred_at + follow_up_after_ms ≤ at)
        es
  pub open_thread : All (λ e. is_of shelter e ≡ true → ends_thread e ≡ false) es
  pub fresh_wave :
      All (λ e. is_of shelter e ≡ true → is_sent e ≡ true → text_eq e.wave wave ≡ false) es
  pub no_bounce :
      (sends_to shelter es ≡ [])
      ⊎ All (λ e. is_of shelter e ≡ true → kind_is e.kind bounced ≡ false) es

pub length-keep_if_mono :
    (test wider : OutreachEvent → Bool)
    → ((e : OutreachEvent) → test e ≡ true → wider e ≡ true)
    → (es : List OutreachEvent) → length (keep_if test es) ≤ length (keep_if wider es)
unfolding keep_if
length-keep_if_mono test wider f [] = omega arith
length-keep_if_mono test wider f (e ∷ es) = ground (arith, f e, length-keep_if_mono test wider f es)

none_kept :
    (test : OutreachEvent → Bool) (es : List OutreachEvent) (P : OutreachEvent → Type 0)
    → keep_if test es ≡ []
    → All (λ e. test e ≡ true → P e) es
unfolding keep_if
none_kept test [] P h = tt
none_kept test (e ∷ es) P h = elim (Bool-cases (test e)) [
  | inl stays ↦ absurd (cc (sym (rw stays at h)))
  | inr out ↦ (λ passes. absurd (cc (passes, out)), none_kept test es P (rw out at h))
]

-- Two facts about the rows, side by side.
All-both :
    (P Q R : OutreachEvent → Type 0) (es : List OutreachEvent)
    → ((e : OutreachEvent) → P e → Q e → R e)
    → All P es
    → All Q es
    → All R es
All-both P Q R [] f p q = tt
All-both P Q R (e ∷ es) f p q = (f e p.0 q.0, All-both P Q R es f p.1 q.1)

-- No row but a letter is of the kind `k`.
abbrev Lacks : OutreachEventKind → OutreachEvent → Type 0
Lacks k e = is_sent e ≡ false → kind_is e.kind k ≡ false

-- A letter is of no other kind.
other_kind :
    (k j : OutreachEventKind)
    → kind_is sent k ≡ false
    → (kind_is j sent ≡ false → kind_is j k ≡ false)
    → kind_is j k ≡ false
unfolding kind_is
other_kind k sent apart h = apart
other_kind k bounced apart h = h refl
other_kind k replied apart h = h refl
other_kind k opted_out apart h = h refl
other_kind k granted apart h = h refl

module _ (precedes : Text → Text → Bool) (exclusions : List ShelterExclusion) (shelter wave : Text)
    (office : Office) where
  minute-spacing :
      (now at : ℕ)
      → now ≤ at
      → ((newest_of (keep_if is_sent office.events) ≡ none)
          ⊎ ((last : ℕ) × (newest_of (keep_if is_sent office.events) ≡ some last)
              × (last + min_spacing_ms ≤ now)))
      → All (λ e. is_sent e ≡ true → e.occurred_at + min_spacing_ms ≤ at) office.events
  minute-spacing now at le (inl never) =
      none_kept is_sent office.events _ (newest_of-none (keep_if is_sent office.events) never)
  minute-spacing now at le (inr (last, newest, gap)) =
      All-kept (λ e. e.occurred_at + min_spacing_ms ≤ at) is_sent office.events
        (All-mono _ (λ e. e.occurred_at + min_spacing_ms ≤ at) (λ e p. omega arith)
          (keep_if is_sent office.events)
          (newest_of-All (keep_if is_sent office.events) last last newest (omega arith)))

  ended :
      (e : OutreachEvent)
      → (is_sent e ≡ false → kind_is e.kind opted_out ≡ false)
      → (is_sent e ≡ false → kind_is e.kind replied ≡ false)
      → (is_sent e ≡ false → kind_is e.kind granted ≡ false)
      → ends_thread e ≡ false
  unfolding ends_thread is_sent
  ended e p q r =
      let a = other_kind opted_out e.kind (unfold kind_is in refl) p in
      let b = other_kind replied e.kind (unfold kind_is in refl) q in
      let c = other_kind granted e.kind (unfold kind_is in refl) r in rw (a, b, c)

  not_bounced :
      (e : OutreachEvent)
      → (is_sent e ≡ false → kind_is e.kind bounced ≡ false)
      → kind_is e.kind bounced ≡ false
  unfolding is_sent
  not_bounced e p = other_kind bounced e.kind (unfold kind_is in refl) p

  length-none : (es : List OutreachEvent) → length es ≡ 0 → es ≡ []
  length-none [] h = refl
  length-none (e ∷ es) h = absurd (omega arith)

  -- A letter that the guard lets go is one that the rules allow, also a little later.
  pub MaySend-IsAllowed :
      (read_at judged_at at : ℕ) (to : Text)
      → read_at ≤ at
      → judged_at ≤ at
      → MaySend (load_send_facts precedes exclusions shelter wave read_at office) to judged_at
      → IsAllowed office.events shelter wave at
  unfolding load_send_facts
  MaySend-IsAllowed read_at judged_at at to le le' may =
      let (_, quiet) = kinds_from-All opted_out [] (history_of shelter office.events) may.opted in
      let ends =
        answers_of-none (kinds_from [] (history_of shelter office.events)) may.unanswered in
      let (_, unreplied) = kinds_from-All replied [] (history_of shelter office.events) ends.0 in
      let (_, ungranted) = kinds_from-All granted [] (history_of shelter office.events) ends.1 in
      let count = length-history_of shelter office.events in
      record {
        spacing = minute-spacing judged_at at le' may.minute;
        cap = omega (
          arith,
          may.day,
          length-keep_if_mono (in_last_day at) (in_last_day read_at)
              (λ e p. unfold in_last_day in ground arith) office.events,
        );
        budget = omega (arith, count, may.few);
        follow_up =
            sends-All (λ sent_at. sent_at + follow_up_after_ms ≤ at) shelter office.events
              (All-mono (λ sent_at. sent_at + follow_up_after_ms ≤ judged_at)
                (λ sent_at. sent_at + follow_up_after_ms ≤ at) (λ sent_at p. omega arith) _
                may.week);
        open_thread =
            history_of-All (λ e. ends_thread e ≡ false) shelter office.events
              (All-both (Lacks opted_out) (λ e. Lacks replied e × Lacks granted e)
                (λ e. ends_thread e ≡ false) _ (λ e p q. ended e p q.0 q.1) quiet
                (All-both (Lacks replied) (Lacks granted) (λ e. Lacks replied e × Lacks granted e) _
                  (λ e p q. (p, q)) unreplied ungranted));
        fresh_wave =
            history_of-All (λ e. is_sent e ≡ true → text_eq e.wave wave ≡ false) shelter
              office.events
              (All-kept (λ e. text_eq e.wave wave ≡ false) is_sent
                (history_of shelter office.events)
                (some_event-All (λ e. text_eq e.wave wave) _ may.this_wave));
        no_bounce = elim may.bounce [
          | inl first_one ↦
              inl (length-none (sends_to shelter office.events) (sym count ∙ ap length first_one))
          | inr delivered ↦ inr (
              history_of-All (λ e. kind_is e.kind bounced ≡ false) shelter office.events
                (All-mono (Lacks bounced) (λ e. kind_is e.kind bounced ≡ false) not_bounced _
                  (kinds_from-All bounced [] (history_of shelter office.events) delivered).1))
        ];
      }
