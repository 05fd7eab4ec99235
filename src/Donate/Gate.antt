-- ===== src/Donate/Gate.antt =====
-- core/donate/intent.ts: which shelters a gift can be offered for.
mod Tests
use monster_paws.Prelude.{
  ℕ, Text, text_eq, text_eq_iff, codes, ◌≡◌, refl, sym, ap, ◌∙◌, ◌⊎◌, inl, inr, ◌↔◌, Bool, true,
  false, not, ◌&&◌, ◌||◌, Option, none, some, List, [], ◌∷◌, keep_if, map, Any, arith, Option-cases,
  Bool-cases, if◌then◌else◌,
}
use monster_paws.Shelters.{
  ShelterEntry, ShelterExclusion, digify, has_grant, shelter_by_external_id, find_first,
}

-- `EveryorgEnv`.
pub data EveryorgEnv : Type 0 where
  staging production : EveryorgEnv

pub data EveryorgClaim : Type 0 where
  claimed unclaimed unknown : EveryorgClaim

-- A row of `shelter_nonprofits`, which has one for each shelter at most.
pub record ShelterNonprofit : Type 0 where
  pub shelter_external_id : Text
  pub everyorg_slug : Text
  pub ein : Text
  pub source : Text
  pub fetched_at : ℕ
  pub everyorg_claim : EveryorgClaim
  pub claim_checked_at : Option ℕ

pub record ClaimedNonprofit : Type 0 where
  pub slug : Text
  pub ein : Text

pub record SponsorGate : Type 0 where
  pub everyorg_env : EveryorgEnv
  pub as_of : ℕ
  pub exclusions : List ShelterExclusion
  pub registry : List ShelterEntry

is_staging : EveryorgEnv → Bool
is_staging staging = true
is_staging production = false

is_claimed_row : EveryorgClaim → Bool
is_claimed_row claimed = true
is_claimed_row unclaimed = false
is_claimed_row unknown = false

nonprofit_row : Option ShelterNonprofit → Option ClaimedNonprofit
nonprofit_row none = none
nonprofit_row (some row) = some (record { slug = row.everyorg_slug; ein = row.ein })

-- What a filter keeps passes its test.
listed-offered :
    (id : Text) (test : Text → Bool) (ids : List Text)
    → Any (λ x. x ≡ id) (keep_if test ids)
    → test id ≡ true
unfolding keep_if
listed-offered id test [] h = absurd h
listed-offered id test (x ∷ ids) h = elim (Bool-cases (test x)) [
  | inr out ↦ listed-offered id test ids (rw out at h)
  | inl stays ↦
      let h' : (x ≡ id) ⊎ Any (λ y. y ≡ id) (keep_if test ids) = rw stays at h in
      elim h' [ inl at ↦ sym (ap test at) ∙ stays | inr more ↦ listed-offered id test ids more ]
]

module _ (parse_date : Text → Option ℕ) where
  pub may_offer : Text → SponsorGate → Bool
  unfolding is_staging
  may_offer id gate =
      has_grant parse_date (shelter_by_external_id id gate.registry) digify gate.as_of
      || is_staging gate.everyorg_env

  pub sponsor_nonprofit : List ShelterNonprofit → Text → SponsorGate → Option ClaimedNonprofit
  unfolding may_offer nonprofit_row is_claimed_row
  sponsor_nonprofit rows id gate =
      if not (may_offer id gate)
      then none
      else nonprofit_row (
          find_first (λ r. text_eq r.shelter_external_id id && is_claimed_row r.everyorg_claim)
            rows)

  pub sponsorable_shelter_ids : List ShelterNonprofit → SponsorGate → List Text
  unfolding may_offer is_claimed_row
  sponsorable_shelter_ids rows gate =
      keep_if (λ id. may_offer id gate)
        (map (λ r. r.shelter_external_id) (keep_if (λ r. is_claimed_row r.everyorg_claim) rows))

  found-listed :
      (rows : List ShelterNonprofit) (id : Text) (gate : SponsorGate)
      → may_offer id gate ≡ true
      → ((n : ClaimedNonprofit) × (nonprofit_row (
              find_first
                (λ r. text_eq r.shelter_external_id id && is_claimed_row r.everyorg_claim)
                rows)
            ≡ some n))
        ↔ Any (λ x. x ≡ id) (sponsorable_shelter_ids rows gate)
  unfolding nonprofit_row sponsorable_shelter_ids keep_if find_first
  found-listed [] id gate offer = (λ (n, e). cc, λ h. absurd h)
  found-listed (r ∷ rows) id gate offer =
      let (there, back) = found-listed rows id gate offer in
      elim (Bool-cases (is_claimed_row r.everyorg_claim)) [
        | inr open_claim ↦ rw open_claim (elim (Bool-cases (text_eq r.shelter_external_id id)) [
          | inl same ↦ rw same (there, back)
          | inr apart ↦ rw apart (there, back)
        ])
        | inl claim ↦ elim (Bool-cases (text_eq r.shelter_external_id id)) [
          | inl same ↦
              let at : r.shelter_external_id ≡ id = (text_eq_iff r.shelter_external_id id).0 same in
              let offered : may_offer r.shelter_external_id gate ≡ true = rw at offer in
              rw (claim, same, offered) (λ h. inl at, λ h. (_, refl))
          | inr apart ↦
              rw (claim, apart)
                (elim (Bool-cases (may_offer r.shelter_external_id gate)) [
                  | inr other ↦ rw other (there, back)
                  | inl offered ↦ rw offered (
                    λ h. inr (there h),
                    λ h. elim h [
                      | inl at ↦
                          absurd (cc (sym ((text_eq_iff r.shelter_external_id id).1 at) ∙ apart))
                      | inr more ↦ back more
                    ],
                  )
                ])
        ]
      ]

  -- A shelter is on the list of those that can be sponsored exactly if a gift to it can be offered:
  -- the list and the button never disagree.
  pub sponsor_nonprofit-listed :
      (rows : List ShelterNonprofit) (id : Text) (gate : SponsorGate)
      → ((n : ClaimedNonprofit) × (sponsor_nonprofit rows id gate ≡ some n))
        ↔ Any (λ x. x ≡ id) (sponsorable_shelter_ids rows gate)
  unfolding sponsor_nonprofit sponsorable_shelter_ids
  sponsor_nonprofit-listed rows id gate = elim (Bool-cases (may_offer id gate)) [
    | inl offer ↦ rw offer (found-listed rows id gate offer)
    | inr closed ↦ rw closed (
      λ (n, e). absurd (cc e),
      λ h. absurd (cc (sym (listed-offered id (λ x. may_offer x gate) _ h) ∙ closed)),
    )
  ]
