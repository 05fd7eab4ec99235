-- ===== src/Donate/Intents/Cookie.antt =====
-- The cookie of intent ids: what is written is read back.
use monster_paws.Prelude.{
  take, text_eq_iff, ℕ, zero, suc, ◌≤◌, Text, text_eq, ◌==◌, ◌≡◌, ◌≢◌, refl, ap, ◌∙◌, inl, inr,
  Bool, true, false, not, ◌||◌, Option, some, List, [], ◌∷◌, ◌++◌, keep_if, length, All, All-mono,
  arith, Bool-cases,
}
use monster_paws.Donate.Shapes.{split_on, is_intent_id, run_of, every, is_word_char}
use monster_paws.Donate.Intents.{
  intent_ids_of, join_dots, take_texts, ids_with, with_intent, text_or_empty,
}

-- No dot in a text.
abbrev Dotless : Text → Type 0
Dotless s = All (λ c. c ≢ b'.') s

every-Dotless : (test : ℕ → Bool) (s : Text) → test b'.' ≡ false → every test s ≡ true → Dotless s
unfolding every
every-Dotless test [] h e = tt
every-Dotless test (c ∷ s) h e =
    ((λ same. ground (arith, ap test same)), every-Dotless test s h (ground arith))

is_intent_id-Dotless : (s : Text) → is_intent_id s ≡ true → Dotless s
unfolding is_intent_id run_of
is_intent_id-Dotless s e = every-Dotless (λ c. is_word_char c || c == b'-') s refl (ground arith)

split_on-Dotless : (s : Text) → Dotless s → split_on b'.' s ≡ s ∷ []
unfolding split_on
split_on-Dotless [] h = refl
split_on-Dotless (c ∷ s) h = rw (split_on-Dotless s h.1) (ground (arith, h.0))

split_on-first : (s r : Text) → Dotless s → split_on b'.' (s ++ b'.' ∷ r) ≡ s ∷ split_on b'.' r
unfolding split_on
split_on-first [] r h = refl
split_on-first (c ∷ s) r h = rw (split_on-first s r h.1) (ground (arith, h.0))

split_on-join_dots :
    (t : Text) (ts : List Text) → All Dotless (t ∷ ts) → split_on b'.' (join_dots (t ∷ ts)) ≡ t ∷ ts
unfolding join_dots
split_on-join_dots t [] h = split_on-Dotless t h.0
split_on-join_dots t (u ∷ ts) h =
    split_on-first t (join_dots (u ∷ ts)) h.0 ∙ ap (λ x. t ∷ x) (split_on-join_dots u ts h.1)

keep_if-All :
    (test : Text → Bool) (ts : List Text) → All (λ t. test t ≡ true) ts → keep_if test ts ≡ ts
unfolding keep_if
keep_if-All test [] h = refl
keep_if-All test (t ∷ ts) h = rw (h.0, keep_if-All test ts h.1)

keep_if-holds : (test : Text → Bool) (ts : List Text) → All (λ t. test t ≡ true) (keep_if test ts)
unfolding keep_if
keep_if-holds test [] = tt
keep_if-holds test (t ∷ ts) = elim (Bool-cases (test t)) [
  | inl e ↦ rw e (e, keep_if-holds test ts)
  | inr e ↦ rw e (keep_if-holds test ts)
]

keep_if-stays :
    (P : Text → Type 0) (test : Text → Bool) (ts : List Text) → All P ts → All P (keep_if test ts)
unfolding keep_if
keep_if-stays P test [] h = tt
keep_if-stays P test (t ∷ ts) h = elim (Bool-cases (test t)) [
  | inl e ↦ rw e (h.0, keep_if-stays P test ts h.1)
  | inr e ↦ rw e (keep_if-stays P test ts h.1)
]

take_texts-stays : (P : Text → Type 0) (n : ℕ) (ts : List Text) → All P ts → All P (take_texts n ts)
unfolding take_texts
take_texts-stays P zero ts h = tt
take_texts-stays P (suc n) [] h = tt
take_texts-stays P (suc n) (t ∷ ts) h = (h.0, take_texts-stays P n ts h.1)

length-take_texts : (n : ℕ) (ts : List Text) → length (take_texts n ts) ≤ n
unfolding take_texts
length-take_texts zero ts = omega arith
length-take_texts (suc n) [] = omega arith
length-take_texts (suc n) (t ∷ ts) = omega (arith, length-take_texts n ts)

take_texts-take : (n : ℕ) (ts : List Text) → take_texts n ts ≡ take n ts
unfolding take_texts take
take_texts-take zero ts = refl
take_texts-take (suc n) [] = refl
take_texts-take (suc n) (t ∷ ts) = ap (λ l. t ∷ l) (take_texts-take n ts)

-- A cookie that an id of the right form was added to is read back as that id and then the first
-- nineteen ids, or as many as there are, of those that it held before and that are not this one;
-- whatever was in it that is no id is gone.
pub with_intent-intent_ids_of :
    (cookie : Option Text) (id : Text)
    → is_intent_id id ≡ true
    → (more : List Text) × (intent_ids_of (some (with_intent cookie id)) ≡ id ∷ more)
      × (more ≡ take 19 (keep_if (λ known. not (text_eq known id)) (intent_ids_of cookie)))
      × All (λ t. t ≢ id) more
      × All (λ t. is_intent_id t ≡ true) more
      × (length more ≤ 19)
unfolding with_intent intent_ids_of text_or_empty ids_with
with_intent-intent_ids_of cookie id e =
    let IsId : Text → Type 0 = λ t. is_intent_id t ≡ true in
    let differs : Text → Bool = λ known. not (text_eq known id) in
    let before = keep_if differs (intent_ids_of cookie) in
    let more = take_texts 19 before in
    let valid : All IsId more =
      take_texts-stays IsId 19 before
        (keep_if-stays IsId differs (intent_ids_of cookie) (keep_if-holds is_intent_id _)) in
    (
      more,
      ap (keep_if is_intent_id) (
            split_on-join_dots id more
              (All-mono IsId Dotless is_intent_id-Dotless (id ∷ more) (e, valid)))
          ∙ keep_if-All is_intent_id (id ∷ more) (e, valid),
      take_texts-take 19 before,
      All-mono (λ t. differs t ≡ true) (λ t. t ≢ id) (λ t h same. ground (arith, text_eq_iff t id))
          more (take_texts-stays (λ t. differs t ≡ true) 19 before (keep_if-holds differs _)),
      valid,
      length-take_texts 19 before,
    )
