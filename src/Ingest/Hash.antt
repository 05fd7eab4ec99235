-- ===== src/Ingest/Hash.antt =====
-- core/ingest/hash.ts: the canonical text of a payload, with the keys of its objects in order, and
-- its digest.
pub mod Order
pub mod Reordered
mod Tests
use monster_paws.Prelude.{
  ℕ, Text, text_eq, codes, ltb, ◌==◌, Bool, true, false, ◌||◌, Option, none, some, List, [], ◌∷◌,
  ◌++◌, if◌then◌else◌,
}
use monster_paws.Result.{Result, ok, err, thrown, ◌>>=◌}
use monster_paws.Ingest.Pipeline.{has_text}

-- A payload. A number has its text, or none if it is not finite.
mutual
  pub data Json : Type 0 where
    null undefined : Json
    boolean : Bool → Json
    number : Option Text → Json
    string : Text → Json
    array : Items → Json
    object : Members → Json

  pub data Items : Type 0 where
    no_items : Items
    item : Json → Items → Items

  pub data Members : Type 0 where
    no_members : Members
    member : Text → Json → Members → Members

-- A kept member of an object, with its canonical text.
pub record Entry : Type 0 where
  pub key : Text
  pub text : Result Text

-- The order of `sort` on strings, by code units.
unfoldable pub text_lt : Text → Text → Bool
text_lt s [] = false
text_lt [] (d ∷ t) = true
text_lt (c ∷ s) (d ∷ t) = if c == d then text_lt s t else ltb c d

unfoldable pub insert_entry : Entry → List Entry → List Entry
unfolding text_lt
insert_entry a [] = a ∷ []
insert_entry a (b ∷ es) = if text_lt a.key b.key then a ∷ b ∷ es else b ∷ insert_entry a es

unfoldable pub sort_entries : List Entry → List Entry
unfolding insert_entry
sort_entries [] = []
sort_entries (a ∷ es) = insert_entry a (sort_entries es)

-- `path ? path.k : k`.
unfoldable pub child_of : Text → Text → Text
child_of [] k = k
child_of (c ∷ path) k = (c ∷ path) ++ b'.' ∷ k

unfoldable pub is_undefined : Json → Bool
is_undefined undefined = true
is_undefined _ = false

-- An excluded or undefined member has no entry.
unfoldable pub add_entry : Bool → Entry → List Entry → List Entry
add_entry true a es = es
add_entry false a es = a ∷ es

-- The texts with a comma between two, up to the first error.
join_items : List (Result Text) → Result Text
join_items [] = ok []
join_items (t ∷ []) = t
join_items (t ∷ u ∷ ts) = do first ← t; rest ← join_items (u ∷ ts); ok (first ++ b',' ∷ rest)

-- `JSON.stringify` of a string is an argument.
module _ (quote : Text → Text) (exclude : List Text) where
  entry_texts : List Entry → List (Result Text)
  entry_texts [] = []
  entry_texts (a ∷ es) = (do t ← a.text; ok (quote a.key ++ b':' ∷ t)) ∷ entry_texts es

  -- Between a pair of brackets.
  bracketed : ℕ → ℕ → Result Text → Result Text
  bracketed first last body = do inner ← body; ok (first ∷ (inner ++ last ∷ []))

-- The place that the message of a number that is not finite names.
place_of : Text → Text
place_of [] = codes "<root>"
place_of (c ∷ path) = c ∷ path

mutual
  unfolding child_of is_undefined add_entry sort_entries

  -- `canonicalize`.
  pub canonicalize : (Text → Text) → List Text → Text → Json → Result Text
  canonicalize quote exclude path null = ok (codes "null")
  canonicalize quote exclude path undefined = ok (codes "null")
  canonicalize quote exclude path (boolean true) = ok (codes "true")
  canonicalize quote exclude path (boolean false) = ok (codes "false")
  canonicalize quote exclude path (number none) = err (thrown (place_of path))
  canonicalize quote exclude path (number (some digits)) = ok digits
  canonicalize quote exclude path (string s) = ok (quote s)
  canonicalize quote exclude path (array xs) =
      bracketed quote exclude b'[' b']'
        (join_items (item_texts quote exclude (path ++ codes "[]") xs))
  canonicalize quote exclude path (object ms) =
      bracketed quote exclude b'{' b'}'
        (join_items (entry_texts quote exclude (sort_entries (entries quote exclude path ms))))

  -- The texts of an array's elements; they share the path of the array.
  pub item_texts : (Text → Text) → List Text → Text → Items → List (Result Text)
  item_texts quote exclude path no_items = []
  item_texts quote exclude path (item x xs) =
      canonicalize quote exclude path x ∷ item_texts quote exclude path xs

  pub entries : (Text → Text) → List Text → Text → Members → List Entry
  entries quote exclude path no_members = []
  entries quote exclude path (member k v ms) =
      add_entry (has_text (child_of path k) exclude || is_undefined v)
        (record { key = k; text = canonicalize quote exclude (child_of path k) v })
        (entries quote exclude path ms)

-- `canonicalJson`.
unfoldable pub canonical_json : (Text → Text) → List Text → Json → Result Text
canonical_json quote exclude payload = canonicalize quote exclude [] payload

-- `contentHashOf`, over SHA-256 in hexadecimal.
pub content_hash_of : (Text → Text) → (Text → Text) → List Text → Json → Result Text
unfolding canonical_json
content_hash_of sha256 quote exclude payload = do
  serialized ← canonical_json quote exclude payload
  ok (codes "sha256:" ++ sha256 serialized)
