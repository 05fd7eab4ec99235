-- ===== src/Outreach/Guard/Facts.antt =====
-- What the facts that the guard reads say of the record.
use monster_paws.Prelude.{
  ℕ, ◌≤◌, ◌≡◌, refl, ap, ◌∙◌, inl, inr, Text, Bool, true, false, ◌||◌, none, some, List, [], ◌∷◌,
  ◌++◌, map, length, keep_if, All, All-kept, arith, Bool-cases, Option-cases,
}
use monster_paws.Ingest.Corpus.Sort.{sort-All, length-keep_if-sort}
use monster_paws.Outreach.Record.{
  OutreachEventKind, sent, bounced, replied, opted_out, granted, kind_is, OutreachEvent, is_sent,
  is_of, some_event,
}
use monster_paws.Outreach.Guard.{has_kind, answers_of, newest_of, add_kind, kinds_from, history_of}

pub newest_of-none : (es : List OutreachEvent) → newest_of es ≡ none → es ≡ []
unfolding newest_of
newest_of-none [] h = refl
newest_of-none (e ∷ es) h = elim (Option-cases (newest_of es)) [
  | inl empty ↦ absurd (ground arith)
  | inr (at, newest) ↦ absurd (ground arith)
]

-- No row is later than the newest one.
pub newest_of-All :
    (es : List OutreachEvent) (at bound : ℕ)
    → newest_of es ≡ some at
    → at ≤ bound
    → All (λ e. e.occurred_at ≤ bound) es
unfolding newest_of
newest_of-All [] at bound h le = tt
newest_of-All (e ∷ es) at bound h le = elim (Option-cases (newest_of es)) [
  | inl empty ↦ (ground arith, rw (newest_of-none es empty) tt)
  | inr (before, newest) ↦ (ground arith, newest_of-All es before bound newest (ground arith))
]

has_kind-append :
    (k : OutreachEventKind) (js ks : List OutreachEventKind)
    → has_kind k (js ++ ks) ≡ (has_kind k js || has_kind k ks)
unfolding has_kind
has_kind-append k [] ks = refl
has_kind-append k (j ∷ js) ks = ground (arith, has_kind-append k js ks)

kind_is-eq : (j k : OutreachEventKind) → kind_is j k ≡ true → j ≡ k
unfolding kind_is
kind_is-eq sent sent h = refl
kind_is-eq bounced bounced h = refl
kind_is-eq replied replied h = refl
kind_is-eq opted_out opted_out h = refl
kind_is-eq granted granted h = refl
kind_is-eq _ _ h = absurd (cc)

add_kind-lacks :
    (k j : OutreachEventKind) (ks : List OutreachEventKind)
    → has_kind k (add_kind j ks) ≡ false
    → (has_kind k ks ≡ false) × (kind_is j k ≡ false)
unfolding add_kind
add_kind-lacks k j ks h = elim (Bool-cases (has_kind j ks)) [
  | inl old ↦
      let none_k : has_kind k ks ≡ false = rw old at h in
      (
        none_k,
        elim (Bool-cases (kind_is j k)) [
          | inr other ↦ other
          | inl same ↦
              let e : has_kind j ks ≡ has_kind k ks =
                ap (λ x. has_kind x ks) (kind_is-eq j k same) in
              absurd (cc (e, old, none_k))
        ],
      )
  | inr new ↦
      let h' : has_kind k (ks ++ j ∷ []) ≡ false = rw new at h in
      unfold has_kind in ground (arith, has_kind-append k ks (j ∷ []))
]

-- A kind that the rows have been searched for in vain is that of no row but a letter.
pub kinds_from-All :
    (k : OutreachEventKind) (ks : List OutreachEventKind) (es : List OutreachEvent)
    → has_kind k (kinds_from ks es) ≡ false
    → (has_kind k ks ≡ false) × All (λ e. is_sent e ≡ false → kind_is e.kind k ≡ false) es
unfolding kinds_from add_kind has_kind
kinds_from-All k ks [] h = (h, tt)
kinds_from-All k ks (e ∷ es) h = elim (Bool-cases (is_sent e)) [
  | inl letter ↦
      let (here, rest) = kinds_from-All k ks es (rw letter at h) in
      (here, (λ other. absurd (ground arith), rest))
  | inr answer ↦
      let h' : has_kind k (kinds_from (add_kind e.kind ks) es) ≡ false = rw answer at h in
      let (here, rest) = kinds_from-All k (add_kind e.kind ks) es h' in
      let (before, not_this) = add_kind-lacks k e.kind ks here in (before, (λ _. not_this, rest))
]

pub answers_of-none :
    (ks : List OutreachEventKind)
    → answers_of ks ≡ []
    → (has_kind replied ks ≡ false) × (has_kind granted ks ≡ false)
unfolding answers_of keep_if has_kind
answers_of-none [] h = (refl, refl)
answers_of-none (k ∷ ks) h = ground (arith, answers_of-none ks)

pub some_event-All :
    (test : OutreachEvent → Bool) (es : List OutreachEvent)
    → some_event test es ≡ false
    → All (λ e. test e ≡ false) es
unfolding some_event
some_event-All test [] h = tt
some_event-All test (e ∷ es) h = (ground arith, some_event-All test es (ground arith))

-- What holds of the shelter's history holds of the shelter's rows.
pub history_of-All :
    (P : OutreachEvent → Type 0) (shelter : Text) (es : List OutreachEvent)
    → All P (history_of shelter es)
    → All (λ e. is_of shelter e ≡ true → P e) es
unfolding history_of
history_of-All P shelter es h = All-kept P (is_of shelter) es (sort-All _ P _ h)

-- The letters to a shelter.
unfoldable pub sends_to : Text → List OutreachEvent → List OutreachEvent
sends_to shelter es = keep_if is_sent (keep_if (is_of shelter) es)

length-map : {A B : Type 0} (f : A → B) (xs : List A) → length (map f xs) ≡ length xs
length-map f [] = refl
length-map f (x ∷ xs) = omega (arith, length-map f xs)

pub length-history_of :
    (shelter : Text) (es : List OutreachEvent)
    → length (map (λ e. e.occurred_at) (keep_if is_sent (history_of shelter es)))
      ≡ length (sends_to shelter es)
unfolding history_of sends_to
length-history_of shelter es =
    length-map (λ e. e.occurred_at) _ ∙ length-keep_if-sort _ is_sent (keep_if (is_of shelter) es)

-- What holds of the instants of a shelter's letters.
pub sends-All :
    (P : ℕ → Type 0) (shelter : Text) (es : List OutreachEvent)
    → All P (map (λ e. e.occurred_at) (keep_if is_sent (history_of shelter es)))
    → All (λ e. is_of shelter e ≡ true → is_sent e ≡ true → P e.occurred_at) es
sends-All P shelter es h =
    history_of-All (λ e. is_sent e ≡ true → P e.occurred_at) shelter es
      (All-kept (λ e. P e.occurred_at) is_sent _ (All-unmap _ h))
  where
    All-unmap :
        (xs : List OutreachEvent)
        → All P (map (λ e. e.occurred_at) xs)
        → All (λ e. P e.occurred_at) xs
    All-unmap [] h = tt
    All-unmap (x ∷ xs) h = (h.0, All-unmap xs h.1)
