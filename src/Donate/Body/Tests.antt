-- ===== src/Donate/Body/Tests.antt =====
-- The body of a delivery of core/donate/webhook.ts, with a donor in it.
use monster_paws.Prelude.{ℕ, Text, codes, text_eq, ◌≡◌, refl, some, Option, List, [], ◌∷◌, All}
use monster_paws.Donate.Body.{
  Value, string, object, something, str, Fields, has_field, value_at, nonprofit_key,
  storable_fields, donation_fields,
}
use monster_paws.Donate.Body.Kept.{IsKept, storable_fields-IsKept}
use monster_paws.Donate.Body.Same.{Distinct, DistinctInside, donation_fields-storable}

abbrev body : Fields Value
body =
    (codes "chargeId", string (codes "ch_1"))
    ∷ (codes "firstName", string (codes "Ann"))
    ∷ (codes "amount", string (codes "25.00"))
    ∷ (codes "toNonprofit", object ((codes "slug", str (codes "happy-paws")) ∷ []))
    ∷ (codes "address", something)
    ∷ []

abbrev as_is : List Text → List Text
as_is ks = ks

abbrev day_one : Text → Option ℕ
day_one s = some 86_400_000

stored_body_example : All (IsKept body) (storable_fields as_is body)
stored_body_example = storable_fields-IsKept as_is body (λ P ks h. h)

body-Distinct : Distinct body
unfolding has_field text_eq
body-Distinct = (refl, (refl, (refl, (refl, (refl, tt)))))

body-DistinctInside : DistinctInside (value_at nonprofit_key body)
unfolding value_at has_field text_eq
body-DistinctInside = (refl, tt)

same_example : donation_fields day_one (storable_fields as_is body) ≡ donation_fields day_one body
same_example = donation_fields-storable day_one as_is body body-Distinct body-DistinctInside
