-- ===== src/Ingest/Hash/Order.antt =====
-- The order of the keys, and that it settles the order of a list's entries.
use monster_paws.Prelude.{
  ◌≡◌, ◌≢◌, refl, sym, ap, inl, inr, ◌==◌, ==_iff, Text, true, false, List, [], ◌∷◌, arith,
  Bool-cases,
}
use monster_paws.Ingest.Hash.{Entry, text_lt, insert_entry}

text_lt_trans : (a b c : Text) → text_lt a b ≡ true → text_lt b c ≡ true → text_lt a c ≡ true
unfolding text_lt
text_lt_trans a b [] h k = absurd (cc)
text_lt_trans a [] (z ∷ c) h k = absurd (cc)
text_lt_trans [] (y ∷ b) (z ∷ c) h k = refl
text_lt_trans (x ∷ a) (y ∷ b) (z ∷ c) h k = ground (arith, text_lt_trans a b c)

-- Two texts are in one order or the other, unless they are the same.
text_lt_total : (a b : Text) → a ≢ b → text_lt a b ≡ false → text_lt b a ≡ true
unfolding text_lt
text_lt_total [] [] differ h = absurd (differ refl)
text_lt_total [] (y ∷ b) differ h = absurd (cc)
text_lt_total (x ∷ a) [] differ h = refl
text_lt_total (x ∷ a) (y ∷ b) differ h = elim (Bool-cases (x == y)) [
  | inl same ↦
      let one = (==_iff x y).0 same in
      let tails : a ≢ b = λ e. differ (λ i. one i ∷ e i) in
      ground (arith, one, text_lt_total a b tails)
  | inr other ↦ ground arith
]

text_lt_asym : (a b : Text) → text_lt a b ≡ true → text_lt b a ≡ false
unfolding text_lt
text_lt_asym a [] h = absurd (cc)
text_lt_asym [] (y ∷ b) h = refl
text_lt_asym (x ∷ a) (y ∷ b) h = ground (arith, text_lt_asym a b)

insert_ordered :
    (a b : Entry) (es : List Entry)
    → text_lt a.key b.key ≡ true
    → insert_entry a (insert_entry b es) ≡ insert_entry b (insert_entry a es)
unfolding insert_entry
insert_ordered a b [] h = rw (h, text_lt_asym a.key b.key h) refl
insert_ordered a b (c ∷ es) h =
    let back = text_lt_asym a.key b.key h in
    elim (Bool-cases (text_lt b.key c.key)) [
      | inl low ↦ rw (low, text_lt_trans a.key b.key c.key h low, h, back, low) refl
      | inr high ↦ elim (Bool-cases (text_lt a.key c.key)) [
        | inl first ↦ rw (high, first, back, high) refl
        | inr last ↦ rw (high, last, high) (ap (λ l. c ∷ l) (insert_ordered a b es h))
      ]
    ]

-- Entries of two keys can be inserted in either order.
pub insert_entry_comm :
    (a b : Entry) (es : List Entry)
    → a.key ≢ b.key
    → insert_entry a (insert_entry b es) ≡ insert_entry b (insert_entry a es)
insert_entry_comm a b es differ = elim (Bool-cases (text_lt a.key b.key)) [
  | inl less ↦ insert_ordered a b es less
  | inr more ↦ sym (insert_ordered b a es (text_lt_total a.key b.key differ more))
]
