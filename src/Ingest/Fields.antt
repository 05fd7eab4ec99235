-- ===== src/Ingest/Fields.antt =====
-- The merged fields of an animal (core/ingest/pipeline.ts) and their values.
use monster_paws.Prelude.{
  ℕ, zero, suc, Text, text_eq, text_eq_iff, Bool, true, false, ◌&&◌, Option, none, some, List, [],
  ◌∷◌, ◌==◌, ==_iff, ◌≡◌, refl, ap, ◌↔◌, ◌∙◌, sym, Any, arith,
}
use monster_paws.Trust.{Claim}

pub data Field : Type 0 where
  name species breed status sex age_group birth_date is_birth_date_exact : Field
  shelter_external_id listed_at org_name org_url listing_url city state postal_code : Field
  photo_keys : Field

-- `MERGED_FIELDS`.
abbrev pub merged_fields : List Field
merged_fields =
    name ∷ species ∷ breed ∷ status ∷ sex ∷ age_group ∷ birth_date ∷ is_birth_date_exact
    ∷ shelter_external_id ∷ listed_at ∷ org_name ∷ org_url ∷ listing_url ∷ city ∷ state
    ∷ postal_code ∷ photo_keys ∷ []

-- What a field can hold, but for `null`: a string, a `Date`, a boolean or a list of strings.
pub data FieldValue : Type 0 where
  text : Text → FieldValue
  date : ℕ → FieldValue
  flag : Bool → FieldValue
  texts : List Text → FieldValue

-- `null` is `none`.
abbrev pub FieldClaim : Type 0
FieldClaim = Claim (Option FieldValue)

-- `AnimalClaims`: each field may carry a claim.
abbrev pub AnimalClaims : Type 0
AnimalClaims = Field → Option FieldClaim

field_index : Field → ℕ
field_index name = 0
field_index species = 1
field_index breed = 2
field_index status = 3
field_index sex = 4
field_index age_group = 5
field_index birth_date = 6
field_index is_birth_date_exact = 7
field_index shelter_external_id = 8
field_index listed_at = 9
field_index org_name = 10
field_index org_url = 11
field_index listing_url = 12
field_index city = 13
field_index state = 14
field_index postal_code = 15
field_index photo_keys = 16

-- Equality of property names.
unfoldable pub field_eq : Field → Field → Bool
unfolding field_index
field_eq f g = field_index f == field_index g

field_at : List Field → ℕ → Field
field_at [] i = name
field_at (f ∷ fs) zero = f
field_at (f ∷ fs) (suc i) = field_at fs i

field_at-index : (f : Field) → field_at merged_fields (field_index f) ≡ f
unfolding field_at field_index
field_at-index name = refl
field_at-index _ = refl

pub field_eq_iff : (f g : Field) → (field_eq f g ≡ true) ↔ (f ≡ g)
unfolding field_eq
field_eq_iff f g = (
  λ e. sym (field_at-index f) ∙ ap (field_at merged_fields) ((==_iff _ _).0 e) ∙ field_at-index g,
  λ e. (==_iff _ _).1 (ap field_index e),
)

-- Every field is merged.
pub merged_fields-all : (f : Field) → Any (λ g. g ≡ f) merged_fields
merged_fields-all name = ground arith
merged_fields-all _ = ground arith

texts_eq : List Text → List Text → Bool
texts_eq [] [] = true
texts_eq [] (y ∷ ys) = false
texts_eq (x ∷ xs) [] = false
texts_eq (x ∷ xs) (y ∷ ys) = text_eq x y && texts_eq xs ys

bool_eq : Bool → Bool → Bool
bool_eq true b = b
bool_eq false true = false
bool_eq false false = true

-- `sameValue` of core/ingest/merge.ts: two values of one field have the same JSON text exactly if
-- they are equal, since strings, instants, booleans and lists of strings are printed injectively.
unfoldable pub same_value : Option FieldValue → Option FieldValue → Bool
unfolding texts_eq bool_eq
same_value none none = true
same_value (some (text a)) (some (text b)) = text_eq a b
same_value (some (date a)) (some (date b)) = a == b
same_value (some (flag a)) (some (flag b)) = bool_eq a b
same_value (some (texts a)) (some (texts b)) = texts_eq a b
same_value _ _ = false

texts_eq_iff : (a b : List Text) → (texts_eq a b ≡ true) ↔ (a ≡ b)
unfolding texts_eq
texts_eq_iff [] [] = (λ _. refl, λ _. refl)
texts_eq_iff [] (y ∷ ys) = ground arith
texts_eq_iff (x ∷ xs) [] = ground arith
texts_eq_iff (x ∷ xs) (y ∷ ys) = ground (arith, text_eq_iff x y, texts_eq_iff xs ys)

value_eq_iff : (a b : FieldValue) → (same_value (some a) (some b) ≡ true) ↔ (a ≡ b)
unfolding same_value
value_eq_iff (text a) (text b) = ground (arith, text_eq_iff a b)
value_eq_iff (date a) (date b) = ground arith
value_eq_iff (flag a) (flag b) = ground arith
value_eq_iff (texts a) (texts b) = ground (arith, texts_eq_iff a b)
value_eq_iff _ _ = ground arith

pub same_value_iff : (a b : Option FieldValue) → (same_value a b ≡ true) ↔ (a ≡ b)
unfolding same_value
same_value_iff none none = (λ _. refl, λ _. refl)
same_value_iff none (some b) = ground arith
same_value_iff (some (text a)) none = ground arith
same_value_iff (some _) none = ground arith
same_value_iff (some a) (some b) = ground (arith, value_eq_iff a b)
