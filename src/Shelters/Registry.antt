-- ===== src/Shelters/Registry.antt =====
-- A registry that the checks find no problem in can be looked up.
use monster_paws.Prelude.{
  Text, text_eq, text_eq_iff, text_eq_refl, ◌≡◌, refl, sym, ap, ◌∙◌, ◌⊎◌, inl, inr, Bool, true,
  false, not, some, List, [], ◌∷◌, ◌++◌, Any, arith, Bool-cases,
}
use monster_paws.Result.{ok}
use monster_paws.Sources.{is_valid_slug, scrape_prefix}
use monster_paws.Sources.Identity.{valid-scrape_source}
use monster_paws.Shelters.{
  ShelterEntry, Problem, includes, find_first, shelter_by_slug, shelter_by_external_id, source_of,
  push_when, is_shelter_key, bad_slug, duplicate_slug, bad_key, shared_key, all_grant_problems,
  key_problems, problems_from, registry_problems,
}

append-empty : {A : Type 0} (xs ys : List A) → xs ++ ys ≡ [] → (xs ≡ []) × (ys ≡ [])
append-empty [] ys e = (refl, e)
append-empty (x ∷ xs) ys e = absurd (cc)

push_when-empty : (b : Bool) (p : Problem) → push_when b p ≡ [] → b ≡ false
unfolding push_when
push_when-empty false p e = refl
push_when-empty true p e = absurd (cc)

push_when-clear :
    (b : Bool) (p : Problem) (rest : List Problem)
    → push_when b p ++ rest ≡ []
    → (b ≡ false) × (rest ≡ [])
push_when-clear b p rest e =
    let (here, more) = append-empty (push_when b p) rest e in (push_when-empty b p here, more)

includes-append :
    (k : Text) (xs ys : List Text)
    → includes k (xs ++ ys) ≡ false
    → (includes k xs ≡ false) × (includes k ys ≡ false)
unfolding includes
includes-append k [] ys e = (refl, e)
includes-append k (x ∷ xs) ys e = ground (arith, includes-append k xs ys)

module _ (is_iso_date : Text → Bool) where
  key_problems-apart :
      (slug : Text) (seen ks : List Text) (k : Text)
      → key_problems is_iso_date slug seen ks ≡ []
      → includes k ks ≡ true
      → includes k seen ≡ false
  unfolding key_problems includes
  key_problems-apart slug seen [] k e h = absurd (cc)
  key_problems-apart slug seen (j ∷ ks) k e h =
      let tail = key_problems is_iso_date slug (j ∷ seen) ks in
      let (_, more) =
        push_when-clear (not (is_shelter_key j)) (bad_key slug j)
          (push_when (includes j seen) (shared_key slug j) ++ tail) e in
      let (free, rest) = push_when-clear (includes j seen) (shared_key slug j) tail more in
      elim (Bool-cases (text_eq j k)) [
        | inl same ↦ ap (λ x. includes x seen) (sym ((text_eq_iff j k).0 same)) ∙ free
        | inr apart ↦
            let later : includes k (j ∷ seen) ≡ false =
              key_problems-apart slug (j ∷ seen) ks k rest (rw apart at h) in
            rw apart at later
      ]

  -- What a registry without problems says of its first shelter and of the others.
  record Clean (slugs keys : List Text) (s : ShelterEntry) (rest : List ShelterEntry) : Type 0 where
    valid : is_valid_slug s.slug ≡ true
    new_slug : includes s.slug slugs ≡ false
    new_keys : (k : Text) → includes k s.shelter_external_ids ≡ true → includes k keys ≡ false
    others : problems_from is_iso_date (s.slug ∷ slugs) (s.shelter_external_ids ++ keys) rest ≡ []

  problems_from-Clean :
      (slugs keys : List Text) (s : ShelterEntry) (rest : List ShelterEntry)
      → problems_from is_iso_date slugs keys (s ∷ rest) ≡ []
      → Clean slugs keys s rest
  unfolding problems_from
  problems_from-Clean slugs keys s rest e =
      let tail = problems_from is_iso_date (s.slug ∷ slugs) (s.shelter_external_ids ++ keys) rest in
      let of_keys = key_problems is_iso_date s.slug keys s.shelter_external_ids in
      let of_grants = all_grant_problems is_iso_date s.slug s.grants in
      let (a, e₁) =
        push_when-clear (not (is_valid_slug s.slug)) (bad_slug s.slug)
          (push_when (includes s.slug slugs) (duplicate_slug s.slug)
            ++ (of_keys ++ (of_grants ++ tail)))
          e in
      let (b, e₂) =
        push_when-clear (includes s.slug slugs) (duplicate_slug s.slug)
          (of_keys ++ (of_grants ++ tail)) e₁ in
      let (c, e₃) = append-empty of_keys (of_grants ++ tail) e₂ in
      let (d, e₄) = append-empty of_grants tail e₃ in
      record {
        valid = ground arith;
        new_slug = b;
        new_keys = λ k. key_problems-apart s.slug keys s.shelter_external_ids k c;
        others = e₄;
      }

  -- No shelter of the rest has a slug or a key that was seen.
  unseen :
      (slugs keys : List Text) (registry : List ShelterEntry) (s : ShelterEntry)
      → problems_from is_iso_date slugs keys registry ≡ []
      → Any (λ x. x ≡ s) registry
      → (is_valid_slug s.slug ≡ true)
        × (includes s.slug slugs ≡ false)
        × ((k : Text) → includes k s.shelter_external_ids ≡ true → includes k keys ≡ false)
  unfolding includes
  unseen slugs keys [] s e h = absurd h
  unseen slugs keys (t ∷ rest) s e (inl at) =
      let c = problems_from-Clean slugs keys t rest e in rw (← at) (c.valid, c.new_slug, c.new_keys)
  unseen slugs keys (t ∷ rest) s e (inr later) =
      let c = problems_from-Clean slugs keys t rest e in
      let (valid, slug, ks) =
        unseen (t.slug ∷ slugs) (t.shelter_external_ids ++ keys) rest s c.others later in
      (valid, ground arith, λ k h. (includes-append k t.shelter_external_ids keys (ks k h)).1)

  found_from :
      (slugs keys : List Text) (registry : List ShelterEntry) (s : ShelterEntry)
      → problems_from is_iso_date slugs keys registry ≡ []
      → Any (λ x. x ≡ s) registry
      → (shelter_by_slug s.slug registry ≡ some s)
        × ((k : Text)
            → (includes k s.shelter_external_ids ≡ false)
              ⊎ (shelter_by_external_id k registry ≡ some s))
  unfolding shelter_by_slug shelter_by_external_id find_first includes
  found_from slugs keys [] s e h = absurd h
  found_from slugs keys (t ∷ rest) s e (inl at) = rw (← at) (
    rw (text_eq_refl t.slug) refl,
    λ k. elim (Bool-cases (includes k t.shelter_external_ids)) [
      | inr missing ↦ inl missing
      | inl here ↦ inr (rw here refl)
    ],
  )
  found_from slugs keys (t ∷ rest) s e (inr later) =
      let c = problems_from-Clean slugs keys t rest e in
      let (_, slug, ks) =
        unseen (t.slug ∷ slugs) (t.shelter_external_ids ++ keys) rest s c.others later in
      let (by_slug, by_key) =
        found_from (t.slug ∷ slugs) (t.shelter_external_ids ++ keys) rest s c.others later in
      let apart : text_eq t.slug s.slug ≡ false = ground arith in
      (
        rw apart by_slug,
        λ k. elim (by_key k) [
          | inl missing ↦ inl missing
          | inr found ↦ elim (Bool-cases (includes k s.shelter_external_ids)) [
            | inr missing ↦ inl missing
            | inl here ↦
                let (skip, _) = includes-append k t.shelter_external_ids keys (ks k here) in
                inr (rw skip found)
          ]
        ],
      )

  -- In a registry that has no problem every shelter is the one that its slug finds and the one
  -- that each of its keys finds, and it has a scrape source of its own.
  pub registry_problems-none :
      (registry : List ShelterEntry) (s : ShelterEntry)
      → registry_problems is_iso_date registry ≡ []
      → Any (λ x. x ≡ s) registry
      → (shelter_by_slug s.slug registry ≡ some s)
        × ((k : Text)
            → (includes k s.shelter_external_ids ≡ false)
              ⊎ (shelter_by_external_id k registry ≡ some s))
        × (source_of s ≡ ok (scrape_prefix ++ s.slug))
  unfolding registry_problems source_of
  registry_problems-none registry s e h =
      let (by_slug, by_key) = found_from [] [] registry s e h in
      (by_slug, by_key, valid-scrape_source s.slug (unseen [] [] registry s e h).0)
