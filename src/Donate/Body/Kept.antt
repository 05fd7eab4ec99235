-- ===== src/Donate/Body/Kept.antt =====
-- What a raw row keeps of a body: nothing but values of the named shapes.
use monster_paws.Prelude.{
  Text, text_eq, codes, ◌≡◌, refl, ◌⊎◌, Any, All-mono, inl, inr, Bool, true, Option, none, some,
  List, [], ◌∷◌, ◌++◌, All, All-append, arith, Option-cases, Bool-cases,
}
use monster_paws.Donate.Shapes.{is_key_name, kept_shapes, kept_nonprofit_shapes}
use monster_paws.Donate.Body.{
  Leaf, str, Value, string, object, names, Fields, text_of, text_of_leaf, shaped, keep_shaped,
  drop_name, nonprofit_key, without, value_at, as_strings, as_leaves, kept_nonprofit,
  storable_fields,
}

-- A text that fits the shape of its key.
abbrev pub Fits : (Text → Option (Text → Bool)) → Text × Text → Type 0
Fits shapes (k, s) = (shape : Text → Bool) × (shapes k ≡ some shape) × (shape s ≡ true)

pub data IsKeptLeaf : Text × Leaf → Type 0 where
  leaf : (k s : Text) → Fits kept_nonprofit_shapes (k, s) → IsKeptLeaf (k, str s)

-- The name of a key, after a prefix: the key, if it is a plain one.
abbrev pub NamesKey : Text → Text → Text → Type 0
NamesKey before name k =
    ((is_key_name k ≡ true) × (name ≡ before ++ k)) ⊎ (name ≡ before ++ codes "[unnamed]")

-- The name of a key of the raw body or of its nonprofit.
abbrev pub IsDroppedName : Fields Value → Text → Type 0
IsDroppedName parsed name =
    Any (λ e. NamesKey [] name e.0) parsed
    ⊎ ((name ≡ nonprofit_key)
        ⊎ ((fields : Fields Leaf) × (value_at nonprofit_key parsed ≡ some (object fields))
            × Any (λ e. NamesKey (codes "toNonprofit.") name e.0) fields))

drop_name-NamesKey : (before k : Text) → NamesKey before (drop_name before k) k
unfolding drop_name
drop_name-NamesKey before k = elim (Bool-cases (is_key_name k)) [
  | inl plain ↦ rw plain (inl (refl, refl))
  | inr odd ↦ rw odd (inr refl)
]

-- What an entry of a row's body can be.
pub data IsKept (parsed : Fields Value) : Text × Value → Type 0 where
  field : (k s : Text) → Fits kept_shapes (k, s) → IsKept parsed (k, string s)
  nonprofit :
      (fields : Fields Leaf) → All IsKeptLeaf fields → IsKept parsed (nonprofit_key, object fields)
  dropped :
      (ks : List Text)
      → All (IsDroppedName parsed) ks
      → IsKept parsed (codes "droppedKeys", names ks)

module _ {V : Type 0} (as_text : V → Option Text) (shapes : Text → Option (Text → Bool)) where
  shaped-Fits :
      (k : Text) (o : Option Text) (s : Text) → shaped (shapes k) o ≡ some s → Fits shapes (k, s)
  unfolding shaped
  shaped-Fits k o s e = elim (Option-cases (shapes k)) [
    | inl bare ↦ absurd (cc (rw (bare, shaped) at e))
    | inr (shape, there) ↦ elim (Option-cases o) [
      | inl missing ↦ absurd (cc (rw (there, missing, shaped) at e))
      | inr (t, is) ↦ elim (Bool-cases (shape t)) [
        | inl fits ↦ (shape, there, ground (arith, rw (there, is, shaped, fits) at e))
        | inr bad ↦ absurd (cc (rw (there, is, shaped, bad) at e))
      ]
    ]
  ]

  pub keep_shaped-Fits :
      (before : Text) (fields : Fields V)
      → All (Fits shapes) (keep_shaped as_text shapes before fields).0
  unfolding keep_shaped
  keep_shaped-Fits before [] = tt
  keep_shaped-Fits before ((k, v) ∷ rest) = elim (Option-cases (shaped (shapes k) (as_text v))) [
    | inl e ↦ rw (e, keep_shaped) (keep_shaped-Fits before rest)
    | inr (s, e) ↦ rw (e, keep_shaped) (shaped-Fits k (as_text v) s e, keep_shaped-Fits before rest)
  ]

  pub keep_shaped-names :
      (before : Text) (fields : Fields V)
      → All
          (λ name. Any (λ e. NamesKey before name e.0) fields)
          (keep_shaped as_text shapes before fields).1
  unfolding keep_shaped
  keep_shaped-names before [] = tt
  keep_shaped-names before ((k, v) ∷ rest) =
      let others =
        All-mono (λ name. Any (λ e. NamesKey before name e.0) rest)
          (λ name. Any (λ e. NamesKey before name e.0) ((k, v) ∷ rest)) (λ name h. inr h)
          (keep_shaped as_text shapes before rest).1 (keep_shaped-names before rest) in
      elim (Option-cases (shaped (shapes k) (as_text v))) [
        | inr (s, e) ↦ rw (e, keep_shaped) others
        | inl e ↦ rw (e, keep_shaped) (inl (drop_name-NamesKey before k), others)
      ]

-- An entry of the rest of a body is one of the body.
Any-without :
    (k name : Text) (parsed : Fields Value)
    → Any (λ e. NamesKey [] name e.0) (without k parsed)
    → Any (λ e. NamesKey [] name e.0) parsed
unfolding without
Any-without k name [] h = h
Any-without k name ((j, v) ∷ rest) h = elim (Bool-cases (text_eq j k)) [
  | inl same ↦ inr (Any-without k name rest (rw same at h))
  | inr apart ↦
      let h' : NamesKey [] name j ⊎ Any (λ e. NamesKey [] name e.0) (without k rest) =
        rw apart at h in
      elim h' [ inl this ↦ inl this | inr later ↦ inr (Any-without k name rest later) ]
]

as_strings-IsKept :
    (parsed : Fields Value) (kept : Fields Text)
    → All (Fits kept_shapes) kept
    → All (IsKept parsed) (as_strings kept)
unfolding as_strings
as_strings-IsKept parsed [] h = tt
as_strings-IsKept parsed ((k, s) ∷ rest) h = (field k s h.0, as_strings-IsKept parsed rest h.1)

as_leaves-IsKept :
    (kept : Fields Text) → All (Fits kept_nonprofit_shapes) kept → All IsKeptLeaf (as_leaves kept)
unfolding as_leaves
as_leaves-IsKept [] h = tt
as_leaves-IsKept ((k, s) ∷ rest) h = (leaf k s h.0, as_leaves-IsKept rest h.1)

kept_nonprofit-IsKept :
    (parsed : Fields Value) (o : Option Value) → All (IsKept parsed) (kept_nonprofit o).0
unfolding kept_nonprofit
kept_nonprofit-IsKept parsed none = tt
kept_nonprofit-IsKept parsed (some (object fields)) = (
  nonprofit _ (
      as_leaves-IsKept _
        (keep_shaped-Fits text_of_leaf kept_nonprofit_shapes (codes "toNonprofit.") fields)),
  tt,
)
kept_nonprofit-IsKept parsed (some _) = tt

kept_nonprofit-names :
    (parsed : Fields Value) (o : Option Value)
    → value_at nonprofit_key parsed ≡ o
    → All (IsDroppedName parsed) (kept_nonprofit o).1
unfolding kept_nonprofit
kept_nonprofit-names parsed none e = tt
kept_nonprofit-names parsed (some (object fields)) e =
    All-mono _ (IsDroppedName parsed) (λ name h. inr (inr (fields, e, h))) _
      (keep_shaped-names text_of_leaf kept_nonprofit_shapes (codes "toNonprofit.") fields)
kept_nonprofit-names parsed (some _) e = (inr (inl refl), tt)

-- Whatever object the raw body is, and however the names are put in order as long as no name is
-- added, the row's body holds nothing of it but strings that fit the shape of their key, in the
-- body and in its nonprofit, and the names of keys, of the body and of its nonprofit.
pub storable_fields-IsKept :
    (in_order : List Text → List Text) (parsed : Fields Value)
    → ((P : Text → Type 0) (ks : List Text) → All P ks → All P (in_order ks))
    → All (IsKept parsed) (storable_fields in_order parsed)
unfolding storable_fields
storable_fields-IsKept in_order parsed orders =
    let (kept, missed) = keep_shaped text_of kept_shapes [] (without nonprofit_key parsed) in
    let (inside, more) = kept_nonprofit (value_at nonprofit_key parsed) in
    let last : Fields Value = (codes "droppedKeys", names (in_order (missed ++ more))) ∷ [] in
    let missed_names : All (IsDroppedName parsed) missed =
      All-mono _ (IsDroppedName parsed) (λ name h. inl (Any-without nonprofit_key name parsed h))
        missed (keep_shaped-names text_of kept_shapes [] (without nonprofit_key parsed)) in
    let all_names : All (IsDroppedName parsed) (in_order (missed ++ more)) =
      orders (IsDroppedName parsed) (missed ++ more) (
        All-append (IsDroppedName parsed) missed more missed_names
          (kept_nonprofit-names parsed (value_at nonprofit_key parsed) refl)) in
    All-append (IsKept parsed) (as_strings kept) (inside ++ last)
      (as_strings-IsKept parsed kept
        (keep_shaped-Fits text_of kept_shapes [] (without nonprofit_key parsed)))
      (All-append (IsKept parsed) inside last
        (kept_nonprofit-IsKept parsed (value_at nonprofit_key parsed))
        (dropped (in_order (missed ++ more)) all_names, tt))
