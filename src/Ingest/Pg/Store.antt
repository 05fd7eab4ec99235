-- ===== src/Ingest/Pg/Store.antt =====
-- `createPgRawStore` of core/ingest/pg.ts, and the loading of what it stored.
pub mod Refines
pub mod Answers
use monster_paws.Prelude.{
  suc, Text, text_eq, text_key, nat_key, ltb, ◌==◌, Bool, true, false, Option, none, some, List, [],
  ◌∷◌, ◌++◌, map, keep_if, if◌then◌else◌,
}
use monster_paws.Result.{Result, ok}
use monster_paws.Ingest.Model.{Observation, StoredObservation}
use monster_paws.Ingest.Corpus.{MemoryRawRow}
use monster_paws.Ingest.Memory.{is_row_of, new_row}
use monster_paws.Ingest.Pg.{PgCorpus, update_where}

module _ {P : Type 0} where
  -- `ORDER BY id DESC LIMIT 1`.
  unfoldable pub latest_of : List (MemoryRawRow P) → Option (MemoryRawRow P)
  latest_of [] = none
  latest_of (r ∷ rs) = elim (latest_of rs) [
    | none ↦ some r
    | some s ↦ if ltb s.raw_id r.raw_id then some r else some s
  ]

  -- The stored observation is the row that is there, but for the payload, which is this poll's.
  pub stored_again : Observation P → MemoryRawRow P → StoredObservation P
  stored_again obs latest = record {
    observation = record obs { fetched_at = latest.fetched_at };
    raw_id = latest.raw_id;
  }

  pub stored_row : MemoryRawRow P → StoredObservation P
  stored_row row = record {
    observation = record {
      source = row.source;
      external_id = row.external_id;
      payload = row.payload;
      fetched_at = row.fetched_at;
      content_hash = row.content_hash;
    };
    raw_id = row.raw_id;
  }

module _ {P Num : Type 0} where
  pub insert_raw :
      Observation P → PgCorpus P Num → Result (StoredObservation P × Bool) × PgCorpus P Num
  insert_raw obs d = (
    ok (record { observation = obs; raw_id = d.next_raw_id }, true),
    record d {
      raw_payloads = d.raw_payloads ++ new_row obs d.next_raw_id ∷ [];
      next_raw_id = suc d.next_raw_id;
    },
  )

  pub touch_raw :
      Observation P
      → MemoryRawRow P
      → PgCorpus P Num
      → Result (StoredObservation P × Bool) × PgCorpus P Num
  unfolding stored_again update_where
  touch_raw obs latest d = (
    ok (stored_again obs latest, false),
    record d {
      raw_payloads =
          update_where (λ row. row.raw_id == latest.raw_id)
            (λ row. record row { last_seen = obs.fetched_at }) d.raw_payloads;
    },
  )

  -- `createPgRawStore`'s `persist`.
  pub persist :
      Observation P → PgCorpus P Num → Result (StoredObservation P × Bool) × PgCorpus P Num
  unfolding insert_raw touch_raw
  persist obs d = elim (latest_of (keep_if (is_row_of obs.source obs.external_id) d.raw_payloads)) [
    | none ↦ insert_raw obs d
    | some latest ↦
        if text_eq latest.content_hash obs.content_hash
        then touch_raw obs latest d
        else insert_raw obs d
  ]

  -- `loadStoredObservations`; the rows stand in the order of their ids.
  pub load_stored_observations : Text → PgCorpus P Num → List (StoredObservation P)
  unfolding stored_row
  load_stored_observations source d =
      map stored_row (keep_if (λ row. text_eq row.source source) d.raw_payloads)
