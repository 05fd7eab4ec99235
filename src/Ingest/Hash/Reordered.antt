-- ===== src/Ingest/Hash/Reordered.antt =====
-- Payloads that differ in the order of their objects' keys have the same digest.
use monster_paws.Prelude.{
  ◌≡◌, ◌≢◌, refl, ap, ◌∙◌, Text, codes, Bool, true, false, ◌||◌, List, [], ◌∷◌, ◌++◌,
}
use monster_paws.Result.{ok, ◌>>=◌}
use monster_paws.Ingest.Pipeline.{has_text}
use monster_paws.Ingest.Hash.{
  Json, array, object, Items, no_items, item, Members, member, Entry, is_undefined, child_of,
  add_entry, insert_entry, sort_entries, canonicalize, item_texts, entries, join_items, entry_texts,
  bracketed, canonical_json, content_hash_of,
}
use monster_paws.Ingest.Hash.Order.{insert_entry_comm}

-- The same payload, but for the order of keys at any depth; the keys of an object are distinct.
mutual
  pub data Reordered : Json → Json → Type 0 where
    same : (v : Json) → Reordered v v
    items : (xs ys : Items) → ReorderedItems xs ys → Reordered (array xs) (array ys)
    members : (ms ns : Members) → ReorderedMembers ms ns → Reordered (object ms) (object ns)

  pub data ReorderedItems : Items → Items → Type 0 where
    done : ReorderedItems no_items no_items
    each :
        (x y : Json) (xs ys : Items)
        → Reordered x y
        → ReorderedItems xs ys
        → ReorderedItems (item x xs) (item y ys)

  pub data ReorderedMembers : Members → Members → Type 0 where
    kept : (ms : Members) → ReorderedMembers ms ms
    under :
        (k : Text) (v w : Json) (ms ns : Members)
        → Reordered v w
        → ReorderedMembers ms ns
        → ReorderedMembers (member k v ms) (member k w ns)
    swapped :
        (j k : Text) (v w : Json) (ms : Members)
        → j ≢ k
        → ReorderedMembers (member j v (member k w ms)) (member k w (member j v ms))
    then :
        (ls ms ns : Members)
        → ReorderedMembers ls ms
        → ReorderedMembers ms ns
        → ReorderedMembers ls ns

is_undefined-Reordered : (v w : Json) → Reordered v w → is_undefined v ≡ is_undefined w
unfolding is_undefined
is_undefined-Reordered v w (same _) = refl
is_undefined-Reordered v w (items xs ys r) = refl
is_undefined-Reordered v w (members ms ns r) = refl

sort-add_swap :
    (p q : Bool) (a b : Entry) (es : List Entry)
    → a.key ≢ b.key
    → sort_entries (add_entry p a (add_entry q b es))
      ≡ sort_entries (add_entry q b (add_entry p a es))
unfolding sort_entries add_entry
sort-add_swap true true a b es differ = refl
sort-add_swap true false a b es differ = refl
sort-add_swap false true a b es differ = refl
sort-add_swap false false a b es differ = insert_entry_comm a b (sort_entries es) differ

sort-add :
    (p : Bool) (a : Entry) (es fs : List Entry)
    → sort_entries es ≡ sort_entries fs
    → sort_entries (add_entry p a es) ≡ sort_entries (add_entry p a fs)
unfolding sort_entries add_entry
sort-add true a es fs e = e
sort-add false a es fs e = ap (insert_entry a) e

module _ (quote : Text → Text) (exclude : List Text) where
  mutual
    unfolding canonicalize

    canonicalize-Reordered :
        (path : Text) (v w : Json)
        → Reordered v w
        → canonicalize quote exclude path v ≡ canonicalize quote exclude path w
    canonicalize-Reordered path v w (same _) = refl
    canonicalize-Reordered path v w (items xs ys r) =
        ap (λ ts. bracketed quote exclude b'[' b']' (join_items ts))
          (item_texts-ReorderedItems (path ++ codes "[]") xs ys r)
    canonicalize-Reordered path v w (members ms ns r) =
        ap (λ es. bracketed quote exclude b'{' b'}' (join_items (entry_texts quote exclude es)))
          (entries-ReorderedMembers path ms ns r)

    item_texts-ReorderedItems :
        (path : Text) (xs ys : Items)
        → ReorderedItems xs ys
        → item_texts quote exclude path xs ≡ item_texts quote exclude path ys
    item_texts-ReorderedItems path xs ys done = refl
    item_texts-ReorderedItems path xs ys (each x y xs' ys' r rs) =
        ap (λ t. t ∷ item_texts quote exclude path xs') (canonicalize-Reordered path x y r)
        ∙ ap (λ ts. canonicalize quote exclude path y ∷ ts)
            (item_texts-ReorderedItems path xs' ys' rs)

    entries-ReorderedMembers :
        (path : Text) (ms ns : Members)
        → ReorderedMembers ms ns
        → sort_entries (entries quote exclude path ms)
          ≡ sort_entries (entries quote exclude path ns)
    entries-ReorderedMembers path ms ns (kept _) = refl
    entries-ReorderedMembers path ms ns (then _ ls _ r s) =
        entries-ReorderedMembers path ms ls r ∙ entries-ReorderedMembers path ls ns s
    entries-ReorderedMembers path ms ns (swapped j k v w ls differ) =
        sort-add_swap _ _ _ _ (entries quote exclude path ls) differ
    entries-ReorderedMembers path ms ns (under k v w ms' ns' r rs) =
        let out : Json → Bool = λ x. has_text (child_of path k) exclude || is_undefined x in
        ap
          (λ p. sort_entries (
            add_entry p (record { key = k; text = canonicalize quote exclude (child_of path k) v })
              (entries quote exclude path ms')))
          (ap (λ u. has_text (child_of path k) exclude || u) (is_undefined-Reordered v w r))
        ∙ ap
            (λ t.
              sort_entries
                (add_entry (out w) (record { key = k; text = t }) (entries quote exclude path ms')))
            (canonicalize-Reordered (child_of path k) v w r)
        ∙ sort-add (out w)
            (record { key = k; text = canonicalize quote exclude (child_of path k) w })
            (entries quote exclude path ms') (entries quote exclude path ns')
            (entries-ReorderedMembers path ms' ns' rs)

  -- Two fetches of one payload have the same digest in whatever order their objects' keys come, at
  -- any depth and whatever paths are excluded, and one that is not JSON-safe fails alike.
  pub content_hash_of-Reordered :
      (sha256 : Text → Text) (v w : Json)
      → Reordered v w
      → content_hash_of sha256 quote exclude v ≡ content_hash_of sha256 quote exclude w
  unfolding content_hash_of canonical_json
  content_hash_of-Reordered sha256 v w r =
      ap (λ t. t >>= (λ s. ok (codes "sha256:" ++ sha256 s))) (canonicalize-Reordered [] v w r)
