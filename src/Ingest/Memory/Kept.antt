-- ===== src/Ingest/Memory/Kept.antt =====
-- What persisting and writing leave of an identity: its animal and its sightings.
use mathlib.Core.Option.{some-injective}
use monster_paws.Prelude.{
  ℕ, Text, text_key, text_eq, text_eq_iff, lookup-insert, ◌≡◌, refl, sym, ap, ◌∙◌, inl, inr, Option,
  none, some, lookup, insert, arith, Option-cases, Bool-cases,
}
use monster_paws.Ingest.Model.{Observation, AnimalCandidate}
use monster_paws.Ingest.Corpus.{Corpus, MemoryIdentity, key}
use monster_paws.Ingest.Memory.{
  persist, apply, resolve, commit, stamp_identity, animal_of, insert_row, touch_row,
}
use monster_paws.Ingest.Memory.Raw.{persist_cases}
use monster_paws.Ingest.Memory.Writer.{Applies, starts, updates, fails, apply_cases}

-- The identity under `k` has the sightings of `was`.
pub record Kept {P Num : Type 0} (k : Text) (was : MemoryIdentity) (c : Corpus P Num) : Type 0 where
  pub now : MemoryIdentity
  pub there : lookup k c.identities ≡ some now
  pub disappeared_at : now.disappeared_at ≡ was.disappeared_at
  pub last_seen_at : now.last_seen_at ≡ was.last_seen_at
  pub animal_id : now.animal_id ≡ was.animal_id

module _ {P Num : Type 0} (k : Text) (was : MemoryIdentity) where
  pub persist-Kept :
      (obs : Observation P) (c : Corpus P Num) → Kept k was c → Kept k was (persist obs c).1
  unfolding insert_row touch_row
  persist-Kept obs c h = elim (persist_cases obs c) [
    | inl (old, e, same, way) ↦ rw way (again c _ refl h)
    | inr (_, way) ↦ rw way (again c _ refl h)
  ]
    where
      again : (c c' : Corpus P Num) → c'.identities ≡ c.identities → Kept k was c → Kept k was c'
      again c c' e h = record {
        now = h.now;
        there = rw e h.there;
        disappeared_at = h.disappeared_at;
        last_seen_at = h.last_seen_at;
        animal_id = h.animal_id;
      }

  -- A new identity stands under a key that no identity had.
  insert-Kept :
      (c c' : Corpus P Num) (j : Text) (id : MemoryIdentity)
      → lookup j c.identities ≡ none
      → c'.identities ≡ insert j id c.identities
      → Kept k was c
      → Kept k was c'
  insert-Kept c c' j id free e h = record {
    now = h.now;
    there =
        ap (lookup k) e
        ∙ ground (arith, lookup-insert j k id c.identities, text_eq_iff j k, h.there, free);
    disappeared_at = h.disappeared_at;
    last_seen_at = h.last_seen_at;
    animal_id = h.animal_id;
  }

  stamp-Kept :
      (c c' : Corpus P Num) (stamp : Option (Option ℕ)) (j : Text)
      → c'.identities ≡ stamp_identity stamp j c.identities
      → Kept k was c
      → Kept k was c'
  unfolding stamp_identity
  stamp-Kept c c' none j e h = record {
    now = h.now;
    there = rw e h.there;
    disappeared_at = h.disappeared_at;
    last_seen_at = h.last_seen_at;
    animal_id = h.animal_id;
  }
  stamp-Kept c c' (some s) j e h = elim (Option-cases (lookup j c.identities)) [
    | inl free ↦ record {
      now = h.now;
      there = rw (e, free, stamp_identity) h.there;
      disappeared_at = h.disappeared_at;
      last_seen_at = h.last_seen_at;
      animal_id = h.animal_id;
    }
    | inr (id, found) ↦
        let stamped : MemoryIdentity = record id { source_updated_at = s } in
        let e' : c'.identities ≡ insert j stamped c.identities = rw (found, stamp_identity) at e in
        elim (Bool-cases (text_eq j k)) [
          | inr apart ↦ record {
            now = h.now;
            there = ap (lookup k) e' ∙ lookup-insert j k stamped c.identities ∙ rw apart h.there;
            disappeared_at = h.disappeared_at;
            last_seen_at = h.last_seen_at;
            animal_id = h.animal_id;
          }
          | inl same ↦
              let one : h.now ≡ id = some-injective h.now id (
                sym h.there
                ∙ ap (λ x. lookup x c.identities) (sym ((text_eq_iff j k).0 same))
                ∙ found) in
              record {
                now = stamped;
                there = ap (lookup k) e' ∙ lookup-insert j k stamped c.identities ∙ rw same refl;
                disappeared_at = sym (ap (λ x. x.disappeared_at) one) ∙ h.disappeared_at;
                last_seen_at = sym (ap (λ x. x.last_seen_at) one) ∙ h.last_seen_at;
                animal_id = sym (ap (λ x. x.animal_id) one) ∙ h.animal_id;
              }
        ]
  ]

  resolve-none :
      (candidate : AnimalCandidate) (c : Corpus P Num)
      → resolve candidate c ≡ none
      → lookup (key candidate.source candidate.external_id) c.identities ≡ none
  unfolding resolve animal_of
  resolve-none candidate c e =
      elim (Option-cases (lookup (key candidate.source candidate.external_id) c.identities)) [
        | inl free ↦ free
        | inr (id, found) ↦ absurd (cc (sym e ∙ ap animal_of found))
      ]

  -- Writing a candidate to the animal that it resolves to changes no sighting.
  pub apply-Kept :
      (candidate : AnimalCandidate) (animal : Option ℕ) (c : Corpus P Num)
      → resolve candidate c ≡ animal
      → Kept k was c
      → Kept k was (apply candidate animal c).1
  unfolding commit
  apply-Kept candidate animal c resolved h = go (apply_cases candidate animal c)
    where
      go : Applies candidate animal c → Kept k was (apply candidate animal c).1
      go (fails e way) = rw way h
      go (starts merged new _ way) = rw way (
          insert-Kept c _ (key candidate.source candidate.external_id) _
            (resolve-none candidate c (resolved ∙ new)) refl h)
      go (updates id held merged _ _ _ way) = rw way (
          stamp-Kept c _ candidate.source_updated_at (key candidate.source candidate.external_id)
            refl h)
