-- ===== src/Ingest/Hash/Tests.antt =====
-- The digest of one record that two fetches gave with their keys in another order.
use monster_paws.Prelude.{Text, codes, ◌≡◌, ◌≢◌, some, [], ◌∷◌, ◌++◌}
use monster_paws.Ingest.Hash.{Json, number, string, object, no_members, member, content_hash_of}
use monster_paws.Ingest.Hash.Reordered.{members, swapped, content_hash_of-Reordered}

abbrev quoted : Text → Text
quoted s = b'"' ∷ (s ++ b'"' ∷ [])

abbrev as_digest : Text → Text
as_digest s = s

abbrev first_fetch : Json
first_fetch = object (
    member (codes "name") (string (codes "Tom"))
      (member (codes "age") (number (some (codes "3"))) no_members))

abbrev second_fetch : Json
second_fetch = object (
    member (codes "age") (number (some (codes "3")))
      (member (codes "name") (string (codes "Tom")) no_members))

keys_differ : codes "name" ≢ codes "age"
keys_differ e = absurd (cc)

fetch_hash_example :
    content_hash_of as_digest quoted (codes "at" ∷ []) first_fetch
    ≡ content_hash_of as_digest quoted (codes "at" ∷ []) second_fetch
fetch_hash_example =
    content_hash_of-Reordered quoted (codes "at" ∷ []) as_digest first_fetch second_fetch (
      members _ _ (
        swapped (codes "name") (codes "age") (string (codes "Tom")) (number (some (codes "3")))
          no_members keys_differ))
