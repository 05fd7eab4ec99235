-- ===== src/Donate/Intents/Address.antt =====
-- The donor's address: when a correction writes it, and what the erasure takes.
use monster_paws.Prelude.{
  ℕ, ◌+◌, ◌<◌, Text, text_eq, text_key, ◌≡◌, ◌≢◌, subst, refl, sym, ap, ◌∙◌, ◌⊎◌, inl, inr, false,
  none, some, [], ◌∷◌, Map, lookup, arith, Option-cases, Bool-cases, if◌then◌else◌, ltb,
}
use monster_paws.Donate.Ledger.{Intent}
use monster_paws.Donate.Intents.{
  Desk, PaintingMailState, not_sent, on_its_way, sent, bounced, held, painting_mail_state,
  intent_donor_email, AddressFix, saved, resending, already_sent, is_held, erased, is_abandoned,
  erase_abandoned, abandoned_after_ms,
}

-- The other intents are as they were.
abbrev pub OthersKept : Text → Desk → Desk → Type 0
OthersKept id d d' =
    (other : Text) → text_eq id other ≡ false → lookup other d'.intents ≡ lookup other d.intents

-- What a correction does, by the state of the painting's mail.
abbrev pub FixOutcome : PaintingMailState → Text → Text → Desk → AddressFix → Desk → Type 0
FixOutcome not_sent id new d fix d' =
    ((fix ≡ erased) × (intent_donor_email id d ≡ none) × (d' ≡ d))
    ⊎ ((fix ≡ saved)
        × (intent_donor_email id d ≢ none)
        × (intent_donor_email id d' ≡ some new)
        × OthersKept id d d'
        × (d'.sends ≡ d.sends))
FixOutcome on_its_way id new d fix d' = (fix ≡ already_sent) × (d' ≡ d)
FixOutcome sent id new d fix d' = (fix ≡ already_sent) × (d' ≡ d)
FixOutcome held id new d fix d' = (fix ≡ is_held) × (d' ≡ d)
FixOutcome bounced id new d fix d' =
    (fix ≡ resending)
    × (painting_mail_state id d' ≡ not_sent)
    × ((lookup id d.intents ≡ none) ⊎ (intent_donor_email id d' ≡ some new))
    × OthersKept id d d'

-- What the erasure makes of a row.
abbrev pub Erased : ℕ → Intent → Intent → Type 0
Erased as_of intent after =
    ((after ≡ intent)
      × ((intent.closed_at ≢ none)
          ⊎ ((intent.donor_email ≡ none)
              ⊎ (ltb (intent.created_at + abandoned_after_ms) as_of ≡ false))))
    ⊎ ((after ≡ record intent { donor_email = none })
        × (intent.closed_at ≡ none)
        × (intent.created_at + abandoned_after_ms < as_of))

is_abandoned-Erased :
    (as_of : ℕ) (intent : Intent)
    → Erased as_of intent
        (if is_abandoned as_of intent then record intent { donor_email = none } else intent)
unfolding is_abandoned
is_abandoned-Erased as_of intent = elim (Option-cases intent.closed_at) [
  | inr (at, e) ↦ inl (ground arith, inl (λ f. cc))
  | inl e ↦ elim (Option-cases intent.donor_email) [
    | inl f ↦ inl (ground arith, inr (inl f))
    | inr (address, f) ↦ elim (Bool-cases (ltb (intent.created_at + abandoned_after_ms) as_of)) [
      | inl old ↦ inr (ground arith, e, ground arith)
      | inr young ↦ inl (ground arith, inr (inr young))
    ]
  ]
]

after_of : ℕ → Intent → Intent
after_of as_of intent =
    if is_abandoned as_of intent then record intent { donor_email = none } else intent

after_of-kept : (as_of : ℕ) (intent : Intent) → is_abandoned as_of (after_of as_of intent) ≡ false
unfolding after_of is_abandoned
after_of-kept as_of intent = elim (Option-cases intent.closed_at) [
  | inr (at, e) ↦ ground arith
  | inl e ↦ elim (Option-cases intent.donor_email) [
    | inl f ↦ ground arith
    | inr (address, f) ↦ elim (Bool-cases (ltb (intent.created_at + abandoned_after_ms) as_of)) [
      | inl old ↦ ground arith
      | inr young ↦ ground arith
    ]
  ]
]

erase-cons :
    (as_of : ℕ) (k : Text) (row : Intent) (rest : Map Text Intent)
    → (erase_abandoned as_of ((k, row) ∷ rest)).1
      ≡ (k, after_of as_of row) ∷ (erase_abandoned as_of rest).1
unfolding erase_abandoned after_of
erase-cons as_of k row rest = elim (Bool-cases (is_abandoned as_of row)) [
  | inl old ↦ rw old
  | inr young ↦ rw young
]

erase-young :
    (as_of : ℕ) (k : Text) (row : Intent) (rest : Map Text Intent)
    → is_abandoned as_of row ≡ false
    → erase_abandoned as_of ((k, row) ∷ rest)
      ≡ ((erase_abandoned as_of rest).0, (k, row) ∷ (erase_abandoned as_of rest).1)
unfolding erase_abandoned
erase-young as_of k row rest young = rw young

-- The erasure takes the address of every row that is open and older than thirty days, and changes
-- nothing else: a closed row, a younger one and one without an address stay as they are.
pub erase_abandoned-Erased :
    (as_of : ℕ) (intents : Map Text Intent) (id : Text) (intent : Intent)
    → lookup id intents ≡ some intent
    → (after : Intent) × (lookup id (erase_abandoned as_of intents).1 ≡ some after)
      × Erased as_of intent after
unfolding erase_abandoned lookup after_of
erase_abandoned-Erased as_of [] id intent e = cc
erase_abandoned-Erased as_of ((k, row) ∷ rest) id intent e = elim (Bool-cases (text_eq k id)) [
  | inl same ↦
      let one : row ≡ intent = ground arith in
      (
        after_of as_of row,
        ap (lookup id) (erase-cons as_of k row rest) ∙ rw same refl,
        subst (λ x. Erased as_of x (after_of as_of row)) one (is_abandoned-Erased as_of row),
      )
  | inr apart ↦
      let (after, found, what) = erase_abandoned-Erased as_of rest id intent (rw apart at e) in
      (after, ap (lookup id) (erase-cons as_of k row rest) ∙ rw apart found, what)
]

-- A second erasure at the same time changes no row and counts none.
pub erase_abandoned-again :
    (as_of : ℕ) (intents : Map Text Intent)
    → erase_abandoned as_of (erase_abandoned as_of intents).1
      ≡ (0, (erase_abandoned as_of intents).1)
unfolding erase_abandoned
erase_abandoned-again as_of [] = refl
erase_abandoned-again as_of ((k, row) ∷ rest) =
    let cons = erase-cons as_of k row rest in
    let more = erase_abandoned-again as_of rest in
    ap (erase_abandoned as_of) cons
    ∙ erase-young as_of k (after_of as_of row) (erase_abandoned as_of rest).1
        (after_of-kept as_of row)
    ∙ ap (λ (x : ℕ × Map Text Intent). (x.0, (k, after_of as_of row) ∷ x.1)) more
    ∙ ap (λ (x : Map Text Intent). (0, x)) (sym cons)
