-- ===== src/Donate/Ledger/Again.antt =====
-- A delivery that is decided a second time.
use monster_paws.Prelude.{
  ℕ, Text, text_eq, text_eq_refl, subst, text_key, nat_key, lookup-insert, ◌≡◌, ◌≢◌, refl, sym, ap,
  true, ◌∙◌, ◌⊎◌, inl, inr, false, none, some, List, [], ◌∷◌, ◌++◌, lookup, insert, arith,
  Option-cases, Bool-cases,
}
use monster_paws.Donate.Body.{DonationFields}
use monster_paws.Donate.Ledger.{
  stat_row, Intent, Donation, Ledger, WebhookOutcome, recorded, replay, donation_of, donation_row,
  record_gift, decide_intent, decide_locked, add_decision, decide, is_mismatch, closed_outcome,
  overflows, commit_decision, is_failed,
}

-- The outcome that a delivery has when it comes again.
pub again_of : WebhookOutcome → WebhookOutcome
again_of recorded = replay
again_of outcome = outcome

-- Tables that agree but for the decisions.
abbrev pub SameGifts : Ledger → Ledger → Type 0
SameGifts l m = (l.intents ≡ m.intents) × (l.donations ≡ m.donations) × (l.stats ≡ m.stats)

donation_of-append :
    (charge : Text) (ds : List Donation) (d : Donation)
    → donation_of charge ds ≡ none
    → d.charge_id ≡ charge
    → donation_of charge (ds ++ d ∷ []) ≡ some d
unfolding donation_of
donation_of-append charge [] d h e = rw (e, text_eq_refl charge)
donation_of-append charge (x ∷ ds) d h e = elim (Bool-cases (text_eq x.charge_id charge)) [
  | inl same ↦ absurd (cc (rw same at h))
  | inr apart ↦ rw apart (donation_of-append charge ds d (rw apart at h) e)
]

closed_outcome-ne : (id charge : Text) (ds : List Donation) → closed_outcome id charge ds ≢ recorded
unfolding closed_outcome
closed_outcome-ne id charge ds e = ground arith

-- What the first decision did: nothing, or it recorded a gift on an open intent.
decide_locked_cases :
    (now payload : ℕ) (id : Text) (fields : DonationFields) (l : Ledger)
    → (((decide_locked now payload id fields l).1 ≡ l)
        × ((decide_locked now payload id fields l).0 ≢ recorded))
      ⊎ ((intent : Intent) × (lookup id l.intents ≡ some intent)
          × (is_mismatch intent fields ≡ false)
          × (overflows fields ≡ false)
          × (donation_of fields.charge_id l.donations ≡ none)
          × (decide_locked now payload id fields l ≡ record_gift now payload id intent fields l))
unfolding decide_locked decide_intent record_gift closed_outcome
decide_locked_cases now payload id fields l = elim (Option-cases (lookup id l.intents)) [
  | inl missing ↦ inl (rw (missing, decide_locked), rw (missing, decide_locked) (λ e. cc))
  | inr (intent, there) ↦ elim (Bool-cases (is_mismatch intent fields)) [
    | inl other ↦ inl (
      rw (there, decide_locked, decide_intent, other),
      rw (there, decide_locked, decide_intent, other) (λ e. cc),
    )
    | inr same ↦ elim (Option-cases intent.closed_at) [
      | inr (at, shut) ↦ inl (
        rw (there, decide_locked, decide_intent, same, shut),
        rw (there, decide_locked, decide_intent, same, shut)
            (closed_outcome-ne id fields.charge_id l.donations),
      )
      | inl open_now ↦ elim (Bool-cases (overflows fields)) [
        | inl large ↦ inl (
          rw (there, decide_locked, decide_intent, same, open_now, record_gift, large),
          rw (there, decide_locked, decide_intent, same, open_now, record_gift, large) (λ e. cc),
        )
        | inr fit ↦ elim (Option-cases (donation_of fields.charge_id l.donations)) [
          | inr (taken, e) ↦ inl (
            rw (there, decide_locked, decide_intent, same, open_now, record_gift, fit, e),
            rw (there, decide_locked, decide_intent, same, open_now, record_gift, fit, e) (λ e. cc),
          )
          | inl free ↦ inr (
            intent,
            there,
            same,
            fit,
            free,
            rw (there, decide_locked, decide_intent, same, open_now),
          )
        ]
      ]
    ]
  ]
]

-- The outcome is a matter of the intents and the donations alone.
outcome-same :
    (now later payload second : ℕ) (id : Text) (fields : DonationFields) (l m : Ledger)
    → SameGifts l m
    → (decide_locked now payload id fields l).0 ≡ (decide_locked later second id fields m).0
unfolding decide_locked decide_intent record_gift
outcome-same now later payload second id fields l m same =
    rw (same.0, same.1)
      (elim (Option-cases (lookup id m.intents)) [
        | inl missing ↦ rw (missing, decide_locked)
        | inr (intent, there) ↦ elim (Bool-cases (is_mismatch intent fields)) [
          | inl other ↦ rw (there, decide_locked, decide_intent, other)
          | inr fits ↦ elim (Option-cases intent.closed_at) [
            | inr (at, shut) ↦ rw (there, decide_locked, decide_intent, fits, shut)
            | inl open_now ↦ elim (Bool-cases (overflows fields)) [
              | inl large ↦
                  rw (there, decide_locked, decide_intent, fits, open_now, record_gift, large)
              | inr fit ↦ elim (Option-cases (donation_of fields.charge_id m.donations)) [
                | inr (taken, e) ↦
                    rw (there, decide_locked, decide_intent, fits, open_now, record_gift, fit, e)
                | inl free ↦
                    rw (there, decide_locked, decide_intent, fits, open_now, record_gift, fit, free)
              ]
            ]
          ]
        ]
      ])

add_decision-SameGifts :
    (payload : ℕ) (outcome : WebhookOutcome) (l : Ledger)
    → SameGifts (add_decision payload outcome l) l
unfolding add_decision
add_decision-SameGifts payload outcome l = elim (Option-cases (lookup payload l.decisions)) [
  | inr (decided, e) ↦ rw (e, add_decision) (refl, refl, refl)
  | inl e ↦ rw (e, add_decision) (refl, refl, refl)
]

commit_decision-SameGifts :
    (payload : ℕ) (outcome : WebhookOutcome) (l : Ledger)
    → SameGifts (commit_decision payload outcome l) l
unfolding commit_decision
commit_decision-SameGifts payload outcome l = elim (Bool-cases (is_failed outcome)) [
  | inl failed ↦ rw failed (refl, refl, refl)
  | inr done ↦ rw done (add_decision-SameGifts payload outcome l)
]

-- After a gift was recorded its delivery is a replay.
recorded-again :
    (now later payload second : ℕ) (id : Text) (intent : Intent) (fields : DonationFields)
    (l m : Ledger)
    → is_mismatch intent fields ≡ false
    → overflows fields ≡ false
    → donation_of fields.charge_id l.donations ≡ none
    → SameGifts m (record_gift now payload id intent fields l).1
    → decide_locked later second id fields m ≡ (replay, m)
unfolding decide_locked decide_intent record_gift closed_outcome donation_row is_mismatch
recorded-again now later payload second id intent fields l m fits fit free same =
    let shut : Intent = record intent { closed_at = some now } in
    let gift : Donation = donation_row payload id fields in
    let (intents, donations, stats) : SameGifts m (record l {
      intents = insert id shut l.intents;
      donations = l.donations ++ gift ∷ [];
      stats = l.stats ++ stat_row intent fields ∷ [];
    }) =
      rw (fit, free, record_gift) at same in
    let there : lookup id m.intents ≡ some shut =
      ap (lookup id) intents ∙ lookup-insert id id shut l.intents ∙ rw (text_eq_refl id) refl in
    let known : donation_of fields.charge_id m.donations ≡ some gift =
      ap (donation_of fields.charge_id) donations
      ∙ donation_of-append fields.charge_id l.donations gift free refl in
    let fits' : is_mismatch shut fields ≡ false = fits in
    rw (there, decide_locked, decide_intent, fits', closed_outcome, known, text_eq_refl id)

record_gift-recorded :
    (now payload : ℕ) (id : Text) (intent : Intent) (fields : DonationFields) (l : Ledger)
    → overflows fields ≡ false
    → donation_of fields.charge_id l.donations ≡ none
    → (record_gift now payload id intent fields l).0 ≡ recorded
unfolding record_gift
record_gift-recorded now payload id intent fields l fit free = rw (fit, record_gift, free)

again_of-ne : (o : WebhookOutcome) → o ≢ recorded → again_of o ≡ o
unfolding again_of
again_of-ne recorded n = absurd (n refl)
again_of-ne _ n = refl

after : (l m n : Ledger) → SameGifts l m → m ≡ n → SameGifts l n
after l m n s e = subst (SameGifts l) e s

-- A delivery that is decided again, under another payload and at another time, changes no intent,
-- no donation and no stat; its outcome is the first one, and a replay where the first one was a
-- recorded gift.
pub decide-again :
    (now later payload second : ℕ) (id : Text) (fields : DonationFields) (l : Ledger)
    → let (outcome, l') = decide now payload id fields l in
      let (outcome', l'') = decide later second id fields l' in
      (outcome' ≡ again_of outcome) × SameGifts l'' l'
unfolding decide again_of
decide-again now later payload second id fields l =
    let first = decide_locked now payload id fields l in
    let l' = commit_decision payload first.0 first.1 in
    let second_step = decide_locked later second id fields l' in
    let stored = commit_decision-SameGifts payload first.0 first.1 in
    let stored' = commit_decision-SameGifts second second_step.0 second_step.1 in
    elim (decide_locked_cases now payload id fields l) [
      | inl (same, other) ↦
          let back : SameGifts l' l = after l' first.1 l stored same in
          let o : second_step.0 ≡ first.0 =
            outcome-same later now second payload id fields l' l back in
          (
            o ∙ sym (again_of-ne first.0 other),
            elim (decide_locked_cases later second id fields l') [
              | inl (same', _) ↦
                  after (commit_decision second second_step.0 second_step.1) second_step.1 l'
                    stored' same'
              | inr (intent, _, _, fit, free, way) ↦ absurd (
                  other (
                    sym o
                    ∙ ap (λ r. r.0) way
                    ∙ record_gift-recorded later second id intent fields l' fit free))
            ],
          )
      | inr (intent, there, fits, fit, free, way) ↦
          let done : second_step ≡ (replay, l') =
            recorded-again now later payload second id intent fields l l' fits fit free
              (after l' first.1 _ stored (ap (λ r. r.1) way)) in
          let o : first.0 ≡ recorded =
            ap (λ r. r.0) way ∙ record_gift-recorded now payload id intent fields l fit free in
          (
            ap (λ r. r.0) done ∙ sym (ap again_of o),
            after (commit_decision second second_step.0 second_step.1) second_step.1 l' stored'
                (ap (λ r. r.1) done),
          )
    ]

record_gift-decisions :
    (now payload : ℕ) (id : Text) (intent : Intent) (fields : DonationFields) (l : Ledger)
    → (record_gift now payload id intent fields l).1.decisions ≡ l.decisions
unfolding record_gift
record_gift-decisions now payload id intent fields l = elim (Bool-cases (overflows fields)) [
  | inl large ↦ rw (large, record_gift)
  | inr fit ↦ elim (Option-cases (donation_of fields.charge_id l.donations)) [
    | inl e ↦ rw (fit, record_gift, e)
    | inr (d, e) ↦ rw (fit, record_gift, e)
  ]
]

-- A decision fails for one reason.
decide_locked-failed :
    (now payload : ℕ) (id : Text) (fields : DonationFields) (l : Ledger)
    → is_failed (decide_locked now payload id fields l).0 ≡ true
    → overflows fields ≡ true
unfolding decide_locked decide_intent record_gift closed_outcome is_failed
decide_locked-failed now payload id fields l failed = elim (Bool-cases (overflows fields)) [
  | inl large ↦ large
  | inr fit ↦ absurd (elim (Option-cases (lookup id l.intents)) [
    | inl missing ↦ cc (rw (missing, decide_locked) at failed)
    | inr (intent, there) ↦ elim (Bool-cases (is_mismatch intent fields)) [
      | inl other ↦ cc (rw (there, decide_locked, decide_intent, other) at failed)
      | inr same ↦ elim (Option-cases intent.closed_at) [
        | inr (at, shut) ↦ elim (Option-cases (donation_of fields.charge_id l.donations)) [
          | inl e ↦
              cc (rw (there, decide_locked, decide_intent, same, shut, closed_outcome, e) at failed)
          | inr (d, e) ↦ elim (Bool-cases (text_eq d.intent_id id)) [
            | inl own ↦ cc (
                rw (there, decide_locked, decide_intent, same, shut, closed_outcome, e, own) at
                  failed)
            | inr apart ↦ cc (
                rw (there, decide_locked, decide_intent, same, shut, closed_outcome, e, apart) at
                  failed)
          ]
        ]
        | inl open_now ↦ elim (Option-cases (donation_of fields.charge_id l.donations)) [
          | inr (taken, e) ↦ cc (
              rw (there, decide_locked, decide_intent, same, open_now, record_gift, fit, e) at
                failed)
          | inl e ↦ cc (
              rw (there, decide_locked, decide_intent, same, open_now, record_gift, fit, e) at
                failed)
        ]
      ]
    ]
  ])
]

-- A decision is put on a ledger with the decisions that were there.
pub decide_parts :
    (now payload : ℕ) (id : Text) (fields : DonationFields) (l : Ledger)
    → (outcome : WebhookOutcome) × (m : Ledger) × ((decide now payload id fields l).1
        ≡ commit_decision payload outcome m)
      × (m.decisions ≡ l.decisions)
      × (is_failed outcome ≡ true → overflows fields ≡ true)
unfolding decide
decide_parts now payload id fields l =
    let first = decide_locked now payload id fields l in
    (
      first.0,
      first.1,
      refl,
      elim (decide_locked_cases now payload id fields l) [
        | inl (same, _) ↦ ap (λ x. x.decisions) same
        | inr (intent, _, _, _, _, way) ↦
            ap (λ r. r.1.decisions) way ∙ record_gift-decisions now payload id intent fields l
      ],
      decide_locked-failed now payload id fields l,
    )
