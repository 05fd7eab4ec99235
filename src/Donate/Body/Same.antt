-- ===== src/Donate/Body/Same.antt =====
-- A decision reads the same fields from the row that it would read from the raw body.
use monster_paws.Prelude.{
  ℕ, Text, codes, text_eq, text_eq_iff, ◌≡◌, refl, sym, ap, ◌∙◌, inl, inr, Bool, false, Option,
  none, some, List, [], ◌∷◌, ◌++◌, arith, Option-cases, Bool-cases,
}
use monster_paws.Donate.Shapes.{kept_shapes, kept_nonprofit_shapes}
use monster_paws.Donate.Body.{
  Value, string, object, names, something, Fields, text_of, text_of_leaf, text_at, has_field,
  shaped, keep_shaped, nonprofit_key, without, value_at, as_strings, as_leaves, kept_nonprofit,
  storable_fields, fitting, shape_or_never, body_field, nonprofit_field, nonprofit_of,
  donation_fields,
}

-- No name twice, as in every parsed object.
abbrev pub Distinct {ℓ} : {V : Type ℓ} → List (Text × V) → Type 0
Distinct [] = Unit
Distinct ((k, v) ∷ rest) = (has_field k rest ≡ false) × Distinct rest

-- The objects inside have no name twice either.
abbrev pub DistinctInside : Option Value → Type 0
DistinctInside (some (object fields)) = Distinct fields
DistinctInside _ = Unit

-- A text looked up among kept fields.
abbrev itself : Text → Option Text
itself s = some s

module _ {V : Type 0} (as_text : V → Option Text) where
  text_at-missing :
      (k : Text) (fields : Fields V) → has_field k fields ≡ false → text_at as_text k fields ≡ none
  unfolding text_at has_field
  text_at-missing k [] h = refl
  text_at-missing k ((j, v) ∷ rest) h = ground (arith, text_at-missing k rest)

  module _ (shapes : Text → Option (Text → Bool)) where
    shaped-none : (o : Option (Text → Bool)) → shaped o none ≡ none
    unfolding shaped
    shaped-none none = refl
    shaped-none (some s) = refl

    -- Keeping is reading through the shape of the key.
    keep_shaped-text_at :
        (before : Text) (k : Text) (fields : Fields V)
        → Distinct fields
        → text_at itself k (keep_shaped as_text shapes before fields).0
          ≡ shaped (shapes k) (text_at as_text k fields)
    unfolding keep_shaped text_at
    keep_shaped-text_at before k [] h = sym (shaped-none (shapes k))
    keep_shaped-text_at before k ((j, v) ∷ rest) h =
        let more = keep_shaped-text_at before k rest h.1 in
        elim (Bool-cases (text_eq j k)) [
          | inr apart ↦ elim (Option-cases (shaped (shapes j) (as_text v))) [
            | inl e ↦ rw (e, keep_shaped, apart) more
            | inr (s, e) ↦ rw (e, keep_shaped, apart) more
          ]
          | inl same ↦
              let at : j ≡ k = (text_eq_iff j k).0 same in
              elim (Option-cases (shaped (shapes j) (as_text v))) [
                | inr (s, e) ↦
                    rw (e, keep_shaped, same)
                      (sym (sym (ap (λ x. shaped (shapes x) (as_text v)) at) ∙ e))
                | inl e ↦
                    let gone : text_at as_text k rest ≡ none =
                      text_at-missing k rest (rw at at h.0) in
                    rw (e, keep_shaped, same)
                      (more
                        ∙ ap (shaped (shapes k)) gone
                        ∙ shaped-none (shapes k)
                        ∙ sym (sym (ap (λ x. shaped (shapes x) (as_text v)) at) ∙ e))
              ]
        ]

fitting-shaped :
    (shape : Option (Text → Bool)) (o : Option Text)
    → fitting (shape_or_never shape) (shaped shape o) ≡ fitting (shape_or_never shape) o
unfolding fitting shaped
fitting-shaped none none = refl
fitting-shaped none (some []) = refl
fitting-shaped none (some (c ∷ s)) = refl
fitting-shaped (some shape) none = refl
fitting-shaped (some shape) (some []) = elim (Bool-cases (shape [])) [
  | inl fits ↦ rw (fits, shaped)
  | inr bad ↦ rw (bad, shaped)
]
fitting-shaped (some shape) (some (c ∷ s)) = ground arith

without-text_at :
    (j k : Text) (fields : Fields Value)
    → text_eq j k ≡ false
    → text_at text_of k (without j fields) ≡ text_at text_of k fields
unfolding without text_at
without-text_at j k [] h = refl
without-text_at j k ((i, v) ∷ rest) h = elim (Bool-cases (text_eq i j)) [
  | inr apart ↦ rw apart (elim (Bool-cases (text_eq i k)) [
    | inl here ↦ rw here
    | inr away ↦ rw away (without-text_at j k rest h)
  ])
  | inl same ↦
      let at : i ≡ j = (text_eq_iff i j).0 same in
      let away : text_eq i k ≡ false = rw at h in rw (same, away) (without-text_at j k rest h)
]

without-has_field :
    (j k : Text) (fields : Fields Value)
    → has_field k fields ≡ false
    → has_field k (without j fields) ≡ false
unfolding without has_field
without-has_field j k [] h = refl
without-has_field j k ((i, v) ∷ rest) h = ground (arith, without-has_field j k rest)

without-Distinct :
    (j : Text) (fields : Fields Value) → Distinct fields → Distinct (without j fields)
unfolding without
without-Distinct j [] h = tt
without-Distinct j ((i, v) ∷ rest) h = elim (Bool-cases (text_eq i j)) [
  | inl same ↦ rw same (without-Distinct j rest h.1)
  | inr apart ↦ rw apart (without-has_field j i rest h.0, without-Distinct j rest h.1)
]

-- Kept strings in front of the rest of the row.
as_strings-text_at :
    (k : Text) (kept : Fields Text) (rest : Fields Value)
    → text_at text_of k rest ≡ none
    → text_at text_of k (as_strings kept ++ rest) ≡ text_at itself k kept
unfolding as_strings text_at
as_strings-text_at k [] rest h = h
as_strings-text_at k ((j, s) ∷ kept) rest h = elim (Bool-cases (text_eq j k)) [
  | inl same ↦ rw same
  | inr apart ↦ rw apart (as_strings-text_at k kept rest h)
]

as_leaves-text_at :
    (k : Text) (kept : Fields Text)
    → text_at text_of_leaf k (as_leaves kept) ≡ text_at itself k kept
unfolding as_leaves text_at
as_leaves-text_at k [] = refl
as_leaves-text_at k ((j, s) ∷ kept) = elim (Bool-cases (text_eq j k)) [
  | inl same ↦ rw same
  | inr apart ↦ rw apart (as_leaves-text_at k kept)
]

-- No kept string stands under the nonprofit's name, which has no shape.
as_strings-value_at :
    (k : Text) (fields : Fields Value) (rest : Fields Value) (before : Text)
    → kept_shapes k ≡ none
    → value_at k (as_strings (keep_shaped text_of kept_shapes before fields).0 ++ rest)
      ≡ value_at k rest
unfolding as_strings value_at keep_shaped shaped
as_strings-value_at k [] rest before h = refl
as_strings-value_at k ((j, v) ∷ fields) rest before h =
    elim (Option-cases (shaped (kept_shapes j) (text_of v))) [
      | inl e ↦ rw (e, keep_shaped) (as_strings-value_at k fields rest before h)
      | inr (s, e) ↦ elim (Bool-cases (text_eq j k)) [
        | inr apart ↦ rw (e, keep_shaped, apart) (as_strings-value_at k fields rest before h)
        | inl same ↦
            let bare : kept_shapes j ≡ none = ap kept_shapes ((text_eq_iff j k).0 same) ∙ h in
            absurd (cc (rw (bare, shaped) at e))
      ]
    ]

-- The last part of a row holds no string.
tail-text_at :
    (k : Text) (o : Option Value) (ks : List Text)
    → text_at text_of k ((kept_nonprofit o).0 ++ (codes "droppedKeys", names ks) ∷ []) ≡ none
unfolding kept_nonprofit text_at
tail-text_at k none ks = ground arith
tail-text_at k (some (object fields)) ks = ground arith
tail-text_at k (some (string s)) ks = ground arith
tail-text_at k (some (names s)) ks = ground arith
tail-text_at k (some something) ks = ground arith

body_field-storable :
    (in_order : List Text → List Text) (k : Text) (parsed : Fields Value)
    → text_eq nonprofit_key k ≡ false
    → Distinct parsed
    → body_field k (storable_fields in_order parsed) ≡ body_field k parsed
unfolding body_field storable_fields
body_field-storable in_order k parsed apart distinct =
    let rest = without nonprofit_key parsed in
    let (kept, missed) = keep_shaped text_of kept_shapes [] rest in
    let (inside, more) = kept_nonprofit (value_at nonprofit_key parsed) in
    let last : Fields Value = (codes "droppedKeys", names (in_order (missed ++ more))) ∷ [] in
    ap (fitting (shape_or_never (kept_shapes k))) (
      as_strings-text_at k kept (inside ++ last)
        (tail-text_at k (value_at nonprofit_key parsed) (in_order (missed ++ more)))
      ∙ keep_shaped-text_at text_of kept_shapes [] k rest
          (without-Distinct nonprofit_key parsed distinct)
      ∙ ap (shaped (kept_shapes k)) (without-text_at nonprofit_key k parsed apart))
    ∙ fitting-shaped (kept_shapes k) (text_at text_of k parsed)

nonprofit_inside :
    (k : Text) (o : Option Value) (ks : List Text)
    → DistinctInside o
    → text_at text_of_leaf k (
        nonprofit_of
          (value_at nonprofit_key ((kept_nonprofit o).0 ++ (codes "droppedKeys", names ks) ∷ [])))
      ≡ shaped (kept_nonprofit_shapes k) (text_at text_of_leaf k (nonprofit_of o))
unfolding kept_nonprofit value_at nonprofit_of text_at text_eq
nonprofit_inside k none ks d =
    sym (shaped-none text_of kept_nonprofit_shapes (kept_nonprofit_shapes k))
nonprofit_inside k (some (object fields)) ks d =
    as_leaves-text_at k
      (keep_shaped text_of_leaf kept_nonprofit_shapes (codes "toNonprofit.") fields).0
    ∙ keep_shaped-text_at text_of_leaf kept_nonprofit_shapes (codes "toNonprofit.") k fields d
nonprofit_inside k (some _) ks d =
    sym (shaped-none text_of kept_nonprofit_shapes (kept_nonprofit_shapes k))

no_nonprofit_shape : kept_shapes nonprofit_key ≡ none
unfolding kept_shapes text_eq
no_nonprofit_shape = refl

nonprofit_field-storable :
    (in_order : List Text → List Text) (k : Text) (parsed : Fields Value)
    → DistinctInside (value_at nonprofit_key parsed)
    → nonprofit_field k (storable_fields in_order parsed) ≡ nonprofit_field k parsed
unfolding nonprofit_field storable_fields
nonprofit_field-storable in_order k parsed inside_distinct =
    let rest = without nonprofit_key parsed in
    let (kept, missed) = keep_shaped text_of kept_shapes [] rest in
    let (inside, more) = kept_nonprofit (value_at nonprofit_key parsed) in
    let last : Fields Value = (codes "droppedKeys", names (in_order (missed ++ more))) ∷ [] in
    ap (fitting (shape_or_never (kept_nonprofit_shapes k))) (
      ap (λ o. text_at text_of_leaf k (nonprofit_of o))
        (as_strings-value_at nonprofit_key rest (inside ++ last) [] no_nonprofit_shape)
      ∙ nonprofit_inside k (value_at nonprofit_key parsed) (in_order (missed ++ more))
          inside_distinct)
    ∙ fitting-shaped (kept_nonprofit_shapes k)
        (text_at text_of_leaf k (nonprofit_of (value_at nonprofit_key parsed)))

-- The fields that a decision reads from the row are those that it would read from the raw body,
-- whichever they are, if no name stands twice in the body or in its nonprofit.
pub donation_fields-storable :
    (parse_date : Text → Option ℕ) (in_order : List Text → List Text) (parsed : Fields Value)
    → Distinct parsed
    → DistinctInside (value_at nonprofit_key parsed)
    → donation_fields parse_date (storable_fields in_order parsed)
      ≡ donation_fields parse_date parsed
unfolding donation_fields text_eq
donation_fields-storable parse_date in_order parsed d inside =
    let field : (k : Text)
        → text_eq nonprofit_key k ≡ false
        → body_field k (storable_fields in_order parsed) ≡ body_field k parsed =
      λ k apart. body_field-storable in_order k parsed apart d in
    rw (
      field (codes "chargeId") refl,
      field (codes "amount") refl,
      field (codes "currency") refl,
      field (codes "frequency") refl,
      field (codes "donationDate") refl,
      field (codes "netAmount") refl,
      nonprofit_field-storable in_order (codes "slug") parsed inside,
      nonprofit_field-storable in_order (codes "ein") parsed inside,
      nonprofit_field-storable in_order (codes "name") parsed inside,
    )
