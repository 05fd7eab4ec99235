-- ===== src/Donate/Body.antt =====
-- The bodies of core/donate/webhook.ts: what a raw row keeps of one, and what a decision reads.
pub mod Kept
pub mod Same
mod Tests
use monster_paws.Prelude.{
  ℕ, Text, text_eq, codes, length, ◌==◌, Bool, true, false, not, ◌&&◌, ◌||◌, leb, ltb, Option, none,
  some, List, [], ◌∷◌, ◌++◌, keep_if, if◌then◌else◌,
}
use monster_paws.Donate.Shapes.{
  every, is_money, is_ein, is_iso_instant, is_key_name, kept_shapes, kept_nonprofit_shapes,
}

-- A JSON value inside `toNonprofit`: only whether it is a string is ever looked at.
pub data Leaf : Type 0 where
  str : Text → Leaf
  other : Leaf

-- A value of the body: a string, an object, a list of names, or anything else.
pub data Value : Type 0 where
  string : Text → Value
  object : List (Text × Leaf) → Value
  names : List Text → Value
  something : Value

-- An object as its entries, in order.
abbrev pub Fields : Type 0 → Type 0
Fields V = List (Text × V)

abbrev pub text_of_leaf : Leaf → Option Text
text_of_leaf (str s) = some s
text_of_leaf other = none

abbrev pub text_of : Value → Option Text
text_of (string s) = some s
text_of _ = none

-- `typeof value === "string"` on the property of a name; a missing one is `undefined`.
unfoldable pub text_at {ℓ} : {V : Type ℓ} → (V → Option Text) → Text → List (Text × V) → Option Text
text_at as_text k [] = none
text_at as_text k ((j, v) ∷ rest) = if text_eq j k then as_text v else text_at as_text k rest

unfoldable pub has_field {ℓ} : {V : Type ℓ} → Text → List (Text × V) → Bool
has_field k [] = false
has_field k ((j, v) ∷ rest) = text_eq j k || has_field k rest

-- `Object.hasOwn(shapes, key) && typeof value === "string" && shapes[key].test(value)`.
unfoldable pub shaped : Option (Text → Bool) → Option Text → Option Text
shaped none s = none
shaped (some fits) none = none
shaped (some fits) (some s) = if fits s then some s else none

drop_name : Text → Text → Text
drop_name before k = if is_key_name k then before ++ k else before ++ codes "[unnamed]"

module _ {V : Type 0} (as_text : V → Option Text) (shapes : Text → Option (Text → Bool)) where
  -- `keepShaped`: what is kept, and the names of what is dropped.
  pub keep_shaped : Text → Fields V → Fields Text × List Text
  unfolding drop_name
  keep_shaped before [] = ([], [])
  keep_shaped before ((k, v) ∷ rest) =
      let (kept, dropped) = keep_shaped before rest in
      elim (shaped (shapes k) (as_text v)) [
        | some s ↦ ((k, s) ∷ kept, dropped)
        | none ↦ (kept, drop_name before k ∷ dropped)
      ]

abbrev pub nonprofit_key : Text
nonprofit_key = codes "toNonprofit"

-- `const { toNonprofit, ...rest } = parsed`.
unfoldable pub without : Text → Fields Value → Fields Value
without k [] = []
without k ((j, v) ∷ rest) =
    let others = without k rest in if text_eq j k then others else (j, v) ∷ others

unfoldable pub value_at : Text → Fields Value → Option Value
value_at k [] = none
value_at k ((j, v) ∷ rest) = if text_eq j k then some v else value_at k rest

unfoldable pub as_strings : Fields Text → Fields Value
as_strings [] = []
as_strings ((k, s) ∷ rest) = (k, string s) ∷ as_strings rest

unfoldable pub as_leaves : Fields Text → Fields Leaf
as_leaves [] = []
as_leaves ((k, s) ∷ rest) = (k, str s) ∷ as_leaves rest

-- What stands under `toNonprofit` in the row, and the names that are dropped for it.
kept_nonprofit : Option Value → Fields Value × List Text
unfolding keep_shaped
kept_nonprofit none = ([], [])
kept_nonprofit (some (object fields)) =
    let (kept, dropped) =
      keep_shaped text_of_leaf kept_nonprofit_shapes (codes "toNonprofit.") fields in
    ((nonprofit_key, object (as_leaves kept)) ∷ [], dropped)
kept_nonprofit (some v) = ([], nonprofit_key ∷ [])

-- `storableBody` of a body that is an object. `in_order` sorts the dropped names.
pub storable_fields : (List Text → List Text) → Fields Value → Fields Value
unfolding kept_nonprofit
storable_fields in_order parsed =
    let (kept, dropped) = keep_shaped text_of kept_shapes [] (without nonprofit_key parsed) in
    let (nonprofit, more) = kept_nonprofit (value_at nonprofit_key parsed) in
    as_strings kept ++ (nonprofit ++ (codes "droppedKeys", names (in_order (dropped ++ more))) ∷ [])

-- `storableBody`; an unreadable body keeps no field of itself.
pub storable_body : (List Text → List Text) → Option (Fields Value) → Fields Value
storable_body in_order none = (codes "unreadable", something) ∷ []
storable_body in_order (some parsed) = storable_fields in_order parsed

pub record DonationFields : Type 0 where
  pub charge_id : Text
  pub amount : Text
  pub net_amount : Option Text
  pub currency : Text
  pub frequency : Text
  pub donated_at : ℕ
  pub slug : Text
  pub ein : Text
  pub name : Text

-- `fits`: a non-empty string of the shape.
unfoldable pub fitting : (Text → Bool) → Option Text → Option Text
fitting shape none = none
fitting shape (some []) = none
fitting shape (some (c ∷ s)) = if shape (c ∷ s) then some (c ∷ s) else none

-- `plainMoney`.
pub plain_money : Text → Text
plain_money = keep_if λ c. not (c == b',')

-- `Number(s) <= 0` of a text of the shape `MONEY`: no digit but zeros.
pub is_nothing : Text → Bool
is_nothing = every λ c. not (leb b'1' c && leb c b'9')

-- `(toNonprofit ?? {})`: what is no object has no such property.
unfoldable pub nonprofit_of : Option Value → Fields Leaf
nonprofit_of (some (object fields)) = fields
nonprofit_of _ = []

abbrev shape_or_never : Option (Text → Bool) → Text → Bool
shape_or_never none s = false
shape_or_never (some shape) s = shape s

abbrev net_of : Option Text → Option Text
net_of none = none
net_of (some s) = some (plain_money s)

-- What a field of the body holds, if it fits its own shape, and the same for the nonprofit's.
pub body_field : Text → Fields Value → Option Text
body_field k body = fitting (shape_or_never (kept_shapes k)) (text_at text_of k body)

pub nonprofit_field : Text → Fields Value → Option Text
nonprofit_field k body =
    fitting (shape_or_never (kept_nonprofit_shapes k))
      (text_at text_of_leaf k (nonprofit_of (value_at nonprofit_key body)))

infixl 5 ◌then_get◌
◌then_get◌ {ℓ κ} : {A : Type ℓ} {B : Type κ} → Option A → (A → Option B) → Option B
none then_get f = none
some a then_get f = f a

-- `donationFields`; `parse_date` is what `new Date(text).getTime()` is, and `none` where that is
-- not a number.
pub donation_fields : (Text → Option ℕ) → Fields Value → Option DonationFields
unfolding body_field nonprofit_field
donation_fields parse_date body = body_field (codes "chargeId") body then_get λ charge_id.
    body_field (codes "amount") body then_get λ amount.
    if is_nothing (plain_money amount)
    then none
    else body_field (codes "currency") body then_get λ currency.
        body_field (codes "frequency") body then_get λ frequency.
        nonprofit_field (codes "slug") body then_get λ slug.
        nonprofit_field (codes "ein") body then_get λ ein.
        nonprofit_field (codes "name") body then_get λ name.
        body_field (codes "donationDate") body then_get λ date. parse_date date then_get λ at.
        some (record {
          charge_id = charge_id;
          amount = plain_money amount;
          net_amount = net_of (body_field (codes "netAmount") body);
          currency = currency;
          frequency = frequency;
          donated_at = at;
          slug = slug;
          ein = ein;
          name = name;
        })
