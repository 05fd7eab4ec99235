-- ===== src/Donate/Ledger/Books.antt =====
-- The books of the ledger: one gift per intent and per charge, one stat per gift.
use mathlib.Core.List.{map-append}
use monster_paws.Prelude.{
  ℕ, ◌/◌, Text, text_eq, text_eq_iff, text_key, nat_key, lookup-insert, ◌≡◌, ◌≢◌, refl, sym, ap,
  ◌∙◌, inl, inr, Option, none, some, List, [], ◌∷◌, ◌++◌, map, Map, lookup, insert, All, All-append,
  All-mono, Option-cases, Bool-cases,
}
use monster_paws.Donate.Body.{DonationFields}
use monster_paws.Donate.Ledger.{
  Intent, Donation, DonationStat, Ledger, WebhookOutcome, day_ms, donation_of, donation_row,
  stat_row, record_gift, decide_intent, decide_locked, add_decision, decide, is_mismatch, overflows,
  commit_decision, is_failed, recorded, charge_on_other_intent,
}

-- No two gifts share a charge or an intent.
abbrev pub Once : List Donation → Type 0
Once [] = Unit
Once (d ∷ ds) = All (λ e. (e.charge_id ≢ d.charge_id) × (e.intent_id ≢ d.intent_id)) ds × Once ds

-- The intent that a lookup finds is closed.
abbrev pub IsClosed : Option Intent → Type 0
IsClosed o = (i : Intent) × (at : ℕ) × (o ≡ some i) × (i.closed_at ≡ some at)

-- What a gift and its stat have in common.
abbrev pub Gift : Type 0
Gift = Text × Text × Text × Text × ℕ

abbrev pub gift_of : Donation → Gift
gift_of d = (d.nonprofit_slug, d.amount, d.currency, d.frequency, d.donated_at / day_ms)

abbrev pub counted : DonationStat → Gift
counted s = (s.nonprofit_slug, s.amount, s.currency, s.frequency, s.donated_on)

pub record Books (l : Ledger) : Type 0 where
  pub once : Once l.donations
  pub closed : All (λ d. IsClosed (lookup d.intent_id l.intents)) l.donations
  pub counts : map counted l.stats ≡ map gift_of l.donations

Once-snoc :
    (ds : List Donation) (d : Donation)
    → Once ds
    → All (λ e. (d.charge_id ≢ e.charge_id) × (d.intent_id ≢ e.intent_id)) ds
    → Once (ds ++ d ∷ [])
Once-snoc [] d o h = (tt, tt)
Once-snoc (e ∷ ds) d o h = (All-append _ ds (d ∷ []) o.0 (h.0, tt), Once-snoc ds d o.1 h.1)

donation_of-none :
    (charge : Text) (ds : List Donation)
    → donation_of charge ds ≡ none
    → All (λ e. charge ≢ e.charge_id) ds
unfolding donation_of
donation_of-none charge [] h = tt
donation_of-none charge (d ∷ ds) h = elim (Bool-cases (text_eq d.charge_id charge)) [
  | inl same ↦ absurd (cc (rw same at h))
  | inr apart ↦ (
    λ e. cc ((text_eq_iff d.charge_id charge).1 (sym e), apart),
    donation_of-none charge ds (rw apart at h),
  )
]

both : {A : Type 0} (P Q : A → Type 0) (xs : List A) → All P xs → All Q xs → All (λ x. P x × Q x) xs
both P Q [] h k = tt
both P Q (x ∷ xs) h k = ((h.0, k.0), both P Q xs h.1 k.1)

-- The gifts of closed intents stand on other intents than an open one.
open-apart :
    (id : Text) (intent : Intent) (intents : Map Text Intent) (ds : List Donation)
    → lookup id intents ≡ some intent
    → intent.closed_at ≡ none
    → All (λ d. IsClosed (lookup d.intent_id intents)) ds
    → All (λ d. id ≢ d.intent_id) ds
open-apart id intent intents ds there open_now =
    All-mono _ _
      (λ d (i, at, found, shut) same. cc (sym there ∙ ap (λ x. lookup x intents) same ∙ found)) ds

-- Closing an intent leaves the closed ones closed.
closing-IsClosed :
    (id : Text) (intent : Intent) (now : ℕ) (intents : Map Text Intent) (ds : List Donation)
    → All (λ d. IsClosed (lookup d.intent_id intents)) ds
    → All
        (λ d.
          IsClosed
            (lookup d.intent_id (insert id (record intent { closed_at = some now }) intents)))
        ds
closing-IsClosed id intent now intents ds =
    All-mono _ _
      (λ d (i, at, found, shut). elim (Bool-cases (text_eq id d.intent_id)) [
        | inl same ↦ (
          record intent { closed_at = some now },
          now,
          lookup-insert id d.intent_id (record intent { closed_at = some now }) intents
              ∙ rw same refl,
          refl,
        )
        | inr apart ↦ (
          i,
          at,
          lookup-insert id d.intent_id (record intent { closed_at = some now }) intents
              ∙ rw apart found,
          shut,
        )
      ])
      ds

fitting_gift-Books :
    (now payload : ℕ) (id : Text) (intent : Intent) (fields : DonationFields) (l : Ledger)
    → lookup id l.intents ≡ some intent
    → intent.closed_at ≡ none
    → Books l
    → Books
        (elim (donation_of fields.charge_id l.donations) as (λ _. WebhookOutcome × Ledger) [
          | some taken ↦ (charge_on_other_intent, l)
          | none ↦ (
            recorded,
            record l {
              donations = l.donations ++ donation_row payload id fields ∷ [];
              stats = l.stats ++ stat_row intent fields ∷ [];
              intents = insert id (record intent { closed_at = some now }) l.intents;
            },
          )
        ]).1
unfolding donation_row stat_row
fitting_gift-Books now payload id intent fields l there open_now books =
    elim (Option-cases (donation_of fields.charge_id l.donations)) [
      | inr (taken, e) ↦ rw e books
      | inl e ↦ rw e (record {
        once = Once-snoc l.donations (donation_row payload id fields) books.once (
            both _ _ l.donations (donation_of-none fields.charge_id l.donations e)
              (open-apart id intent l.intents l.donations there open_now books.closed));
        closed =
            All-append _ l.donations (donation_row payload id fields ∷ [])
              (closing-IsClosed id intent now l.intents l.donations books.closed)
              (
                (
                  record intent { closed_at = some now },
                  now,
                  lookup-insert id id (record intent { closed_at = some now }) l.intents
                      ∙ rw ((text_eq_iff id id).1 refl) refl,
                  refl,
                ),
                tt,
              );
        counts =
            map-append counted l.stats (stat_row intent fields ∷ [])
            ∙ ap (λ x. x ++ counted (stat_row intent fields) ∷ []) books.counts
            ∙ sym (map-append gift_of l.donations (donation_row payload id fields ∷ []));
      })
    ]

record_gift-Books :
    (now payload : ℕ) (id : Text) (intent : Intent) (fields : DonationFields) (l : Ledger)
    → lookup id l.intents ≡ some intent
    → intent.closed_at ≡ none
    → Books l
    → Books (record_gift now payload id intent fields l).1
unfolding record_gift donation_row stat_row
record_gift-Books now payload id intent fields l there open_now books =
    elim (Bool-cases (overflows fields)) [
      | inl large ↦ rw (large, record_gift) books
      | inr fit ↦
          rw (fit, record_gift)
            (fitting_gift-Books now payload id intent fields l there open_now books)
    ]

decide_locked-Books :
    (now payload : ℕ) (id : Text) (fields : DonationFields) (l : Ledger)
    → Books l
    → Books (decide_locked now payload id fields l).1
unfolding decide_locked decide_intent
decide_locked-Books now payload id fields l books = elim (Option-cases (lookup id l.intents)) [
  | inl missing ↦ rw (missing, decide_locked) books
  | inr (intent, there) ↦ elim (Bool-cases (is_mismatch intent fields)) [
    | inl other ↦ rw (there, decide_locked, decide_intent, other) books
    | inr same ↦ elim (Option-cases intent.closed_at) [
      | inr (at, shut) ↦ rw (there, decide_locked, decide_intent, same, shut) books
      | inl open_now ↦
          rw (there, decide_locked, decide_intent, same, open_now)
            (record_gift-Books now payload id intent fields l there open_now books)
    ]
  ]
]

pub add_decision-Books :
    (payload : ℕ) (outcome : WebhookOutcome) (l : Ledger)
    → Books l
    → Books (add_decision payload outcome l)
unfolding add_decision
add_decision-Books payload outcome l books = elim (Option-cases (lookup payload l.decisions)) [
  | inr (decided, e) ↦ rw (e, add_decision) books
  | inl e ↦
      rw (e, add_decision)
        (record { once = books.once; closed = books.closed; counts = books.counts })
]

commit_decision-Books :
    (payload : ℕ) (outcome : WebhookOutcome) (l : Ledger)
    → Books l
    → Books (commit_decision payload outcome l)
unfolding commit_decision
commit_decision-Books payload outcome l books = elim (Bool-cases (is_failed outcome)) [
  | inl failed ↦ rw failed books
  | inr done ↦ rw done (add_decision-Books payload outcome l books)
]

-- Deciding a delivery keeps the books, whatever it names and holds: no two gifts share a charge or
-- an intent, the intent of every gift is closed, and the stats are those of the gifts, one each
-- and in their order.
pub decide-Books :
    (now payload : ℕ) (id : Text) (fields : DonationFields) (l : Ledger)
    → Books l
    → Books (decide now payload id fields l).1
unfolding decide
decide-Books now payload id fields l books =
    commit_decision-Books payload _ _ (decide_locked-Books now payload id fields l books)
