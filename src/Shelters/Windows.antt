-- ===== src/Shelters/Windows.antt =====
-- When a shelter's consent holds.
use monster_paws.Prelude.{
  ℕ, ◌≤◌, ◌<◌, Text, ◌≡◌, sym, ◌∙◌, ◌⊎◌, inl, inr, ◌↔◌, true, false, ◌&&◌, Option, none, some, List,
  [], ◌∷◌, Any, arith, Option-cases, Bool-cases,
}
use monster_paws.Shelters.{
  Permission, scrape, display, digify, permission_eq, ConsentWindow, Grant, ShelterEntry,
  not_revoked, is_active, has_grant, some_of,
}

permission_eq_iff : (a b : Permission) → (permission_eq a b ≡ true) ↔ (a ≡ b)
unfolding permission_eq
permission_eq_iff scrape scrape = ground arith
permission_eq_iff display display = ground arith
permission_eq_iff digify digify = ground arith
permission_eq_iff _ _ = ground arith

module _ (parse_date : Text → Option ℕ) where
  -- An instant from the grant on, before the revocation if there is one; a revocation that cannot
  -- be read ends the consent.
  pub record Within (w : ConsentWindow) (as_of : ℕ) : Type 0 where
    pub granted : (g : ℕ) × (parse_date w.granted_at ≡ some g) × (g ≤ as_of)
    pub not_over :
        (w.revoked_at ≡ none)
        ⊎ ((at : Text) × (r : ℕ) × (w.revoked_at ≡ some at)
            × (parse_date at ≡ some r)
            × (as_of < r))

  pub is_active-Within :
      (w : ConsentWindow) (as_of : ℕ) → (is_active parse_date w as_of ≡ true) ↔ Within w as_of
  unfolding is_active not_revoked
  is_active-Within w as_of = (there, back)
    where
      there : is_active parse_date w as_of ≡ true → Within w as_of
      there e = elim (Option-cases (parse_date w.granted_at)) [
        | inl bad ↦ absurd (ground arith)
        | inr (g, eg) ↦ elim (Option-cases w.revoked_at) [
          | inl never ↦ record { granted = (g, eg, ground arith); not_over = inl never }
          | inr (at, ea) ↦ elim (Option-cases (parse_date at)) [
            | inl bad ↦ absurd (ground arith)
            | inr (r, er) ↦ record {
              granted = (g, eg, ground arith);
              not_over = inr (at, r, ea, er, ground arith);
            }
          ]
        ]
      ]

      back : Within w as_of → is_active parse_date w as_of ≡ true
      back h =
          let (g, eg, le) = h.granted in
          elim h.not_over [ inl never ↦ ground arith | inr (at, r, ea, er, lt) ↦ ground arith ]

  -- A window that holds at one instant and no longer at a later one holds at no instant after that.
  pub is_active-over :
      (w : ConsentWindow) (first later last : ℕ)
      → is_active parse_date w first ≡ true
      → is_active parse_date w later ≡ false
      → first ≤ later
      → later ≤ last
      → is_active parse_date w last ≡ false
  is_active-over w first later last on off le le' =
      elim (Bool-cases (is_active parse_date w last)) [
        | inr e ↦ e
        | inl e ↦
            let a = (is_active-Within w first).0 on in
            let b = (is_active-Within w last).0 e in
            let within : Within w later = record {
              granted = (a.granted.0, a.granted.1, omega (arith, a.granted.2));
              not_over = elim b.not_over [
                | inl never ↦ inl never
                | inr (at, r, ea, er, lt) ↦ inr (at, r, ea, er, omega arith)
              ];
            } in
            let open_still : is_active parse_date w later ≡ true =
              (is_active-Within w later).1 within in
            absurd (cc (sym open_still ∙ off))
      ]

  some_of-Any :
      (shelter_grants : List Grant) (permission : Permission) (as_of : ℕ)
      → (some_of
            (λ g. permission_eq g.permission permission && is_active parse_date g.window as_of)
            shelter_grants
          ≡ true)
        ↔ Any (λ g. (g.permission ≡ permission) × Within g.window as_of) shelter_grants
  unfolding some_of
  some_of-Any [] permission as_of = (λ e. cc, λ h. absurd h)
  some_of-Any (g ∷ gs) permission as_of =
      let (there, back) = some_of-Any gs permission as_of in
      let (same, same') = permission_eq_iff g.permission permission in
      let (live, live') = is_active-Within g.window as_of in
      (
        λ e. elim (Bool-cases (permission_eq g.permission permission)) [
          | inr other ↦ inr (there (ground arith))
          | inl eq ↦ elim (Bool-cases (is_active parse_date g.window as_of)) [
            | inr over ↦ inr (there (ground arith))
            | inl on ↦ inl (same eq, live on)
          ]
        ],
        λ h. elim h [
          | inl (eq, within) ↦ let p = same' eq in let q = live' within in ground arith
          | inr more ↦ let r = back more in ground arith
        ],
      )

  -- A shelter allows something at an instant exactly if one of its grants is for just that and
  -- holds then: from its start on and before its revocation, where a revocation that cannot be
  -- read has ended it.
  pub has_grant-Within :
      (shelter : ShelterEntry) (permission : Permission) (as_of : ℕ)
      → (has_grant parse_date (some shelter) permission as_of ≡ true)
        ↔ Any (λ g. (g.permission ≡ permission) × Within g.window as_of) shelter.grants
  unfolding has_grant
  has_grant-Within shelter permission as_of = some_of-Any shelter.grants permission as_of
