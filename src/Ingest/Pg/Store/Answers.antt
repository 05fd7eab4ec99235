-- ===== src/Ingest/Pg/Store/Answers.antt =====
-- What the raw store of core/ingest/pg.ts answers, beside the one in memory.
use monster_paws.Prelude.{Text, ◌≡◌, refl, sym, ◌∙◌, inl, inr, Bool, true, false, map, All}
use monster_paws.Result.{ok}
use monster_paws.Ingest.Model.{Observation, StoredObservation}
use monster_paws.Ingest.Memory
use monster_paws.Ingest.Memory.{is_row_of, existing_observation}
use monster_paws.Ingest.Memory.Raw.{Rising, freeze, persist_cases}
use monster_paws.Ingest.Pg.{PgCorpus}
use monster_paws.Ingest.Pg.View.{view}
use monster_paws.Ingest.Pg.Store.{persist, touch_raw, insert_raw, stored_again}
use monster_paws.Ingest.Pg.Store.Refines.{
  Rising-IdsRise, find_last-All, persist-touch, persist-insert,
}
use monster_paws.Ingest.Pipeline.Simulates.{with_payload}

module _ {P Num : Type 0} (hash_of : P → Text) where
  -- The same raw row, with payloads of one hash; and persisting writes no identity.
  pub persist-answers :
      (obs : Observation P) (d : PgCorpus P Num)
      → obs.content_hash ≡ hash_of obs.payload
      → Rising d.next_raw_id (map freeze d.raw_payloads)
      → All (λ row. row.content_hash ≡ hash_of row.payload) d.raw_payloads
      → (stored : StoredObservation P) × (kept : P) × (inserted : Bool) × ((persist obs d).0
          ≡ ok (stored, inserted))
        × ((Memory.persist obs (view d)).0 ≡ ok (with_payload stored kept, inserted))
        × (hash_of stored.payload ≡ hash_of kept)
        × (stored.source ≡ obs.source)
        × (stored.external_id ≡ obs.external_id)
        × ((persist obs d).1.animal_identities ≡ d.animal_identities)
  unfolding touch_raw insert_raw stored_again Memory.insert_row Memory.touch_row
      existing_observation
  persist-answers obs d hashed rising rows =
      let rise = Rising-IdsRise d.next_raw_id d.raw_payloads rising in
      elim (persist_cases obs (view d)) [
        | inl (old, found, same, way) ↦
            let old_hash =
              find_last-All (λ row. row.content_hash ≡ hash_of row.payload)
                (is_row_of obs.source obs.external_id) d.raw_payloads old rows found in
            rw (persist-touch obs old d rise found same, way)
              (
                stored_again obs old,
                old.payload,
                false,
                refl,
                refl,
                sym hashed ∙ sym same ∙ old_hash,
                refl,
                refl,
                refl,
              )
        | inr (differs, way) ↦
            rw (persist-insert obs d rise differs, way)
              (_, obs.payload, true, refl, refl, refl, refl, refl, refl)
      ]
