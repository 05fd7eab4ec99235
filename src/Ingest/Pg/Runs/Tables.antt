-- ===== src/Ingest/Pg/Runs/Tables.antt =====
-- Tables and a corpus in memory through a run: what persisting and writing keep.
use monster_paws.Prelude.{
  ℕ, ◌≤◌, Text, text_key, nat_key, ◌≡◌, sym, ap, ◌∙◌, subst, Bool, some, map, find_last, All,
  All-mono, arith,
}
use monster_paws.Result.{ok}
use monster_paws.Sources.Identity.{IsKnown}
use monster_paws.Ingest.Model.{Observation, StoredObservation}
use monster_paws.Ingest.Corpus.{Corpus, MemoryRawRow}
use monster_paws.Ingest.Memory
use monster_paws.Ingest.Memory.{is_row_of, new_row, first_sighting, existing_observation}
use monster_paws.Ingest.Memory.Raw.{
  Rising, freeze, persist-append_only, persist-All, latest-persist,
}
use monster_paws.Ingest.Memory.WellFormed.{WellFormed, persist-WellFormed}
use monster_paws.Ingest.Pg.{PgCorpus}
use monster_paws.Ingest.Pg.View.{view, plain}
use monster_paws.Ingest.Pg.Rows.{IdentityRows}
use monster_paws.Ingest.Pg.Store.{persist}
use monster_paws.Ingest.Pg.Store.Refines.{persist-view}
use monster_paws.Ingest.Pg.Store.Answers.{persist-answers}
use monster_paws.Ingest.Pg.Runs.Plain.{persist-plain}
use monster_paws.Ingest.Pipeline.Simulates.{with_payload}

-- `hash_of` is `contentHash`, on the payloads of whatever type.
module _ {P : Type 0} (hash_of : P → Text) (IsPlain : Text → Type 0) where
  -- A raw row has its payload's hash, and was last seen by the instant.
  abbrev pub RowBy : ℕ → MemoryRawRow P → Type 0
  RowBy now row = (row.content_hash ≡ hash_of row.payload) × (row.last_seen ≤ now)

  -- An observation of a known source, with its payload's hash, fetched no earlier than `now`.
  pub record Polled (now : ℕ) (obs : Observation P) : Type 0 where
    pub known : IsKnown obs.source
    pub plain : IsPlain obs.external_id
    pub hashed : obs.content_hash ≡ hash_of obs.payload
    pub timely : now ≤ obs.fetched_at

module _ {P Num : Type 0} (hash_of : P → Text) (IsPlain : Text → Type 0) where
  -- Tables that stand for a corpus at an instant, with what the run over both keeps.
  pub record Ready (now : ℕ) (d : PgCorpus P Num) (c : Corpus P Num) : Type 0 where
    pub same : view d ≡ plain c
    pub well_formed : WellFormed c
    pub identity_rows : IdentityRows IsPlain d.animal_identities
    pub rising : Rising d.next_raw_id (map freeze d.raw_payloads)
    pub rows_by : All (RowBy hash_of IsPlain now) d.raw_payloads

  -- The same right after an observation was stored, in memory with the payload `kept`.
  pub record Stored (stored : StoredObservation P) (kept : P) (now : ℕ) (d : PgCorpus P Num)
      (c : Corpus P Num) : Type 0 where
    pub ready : Ready now d c
    pub known : IsKnown stored.source
    pub plain : IsPlain stored.external_id
    pub alike : hash_of stored.payload ≡ hash_of kept
    pub row : MemoryRawRow P
    pub newest : find_last (is_row_of stored.source stored.external_id) d.raw_payloads ≡ some row
    pub seen_now : row.last_seen ≡ now

  pub persist-Stored :
      (now : ℕ) (obs : Observation P) (d : PgCorpus P Num) (c : Corpus P Num)
      → Polled hash_of IsPlain now obs
      → Ready now d c
      → (stored : StoredObservation P) × (kept : P) × (inserted : Bool) × ((persist obs d).0
          ≡ ok (stored, inserted))
        × ((Memory.persist obs c).0 ≡ ok (with_payload stored kept, inserted))
        × Stored stored kept obs.fetched_at (persist obs d).1 (Memory.persist obs c).1
  unfolding new_row
  persist-Stored now obs d c polled r =
      let hashes =
        All-mono (RowBy hash_of IsPlain now) (λ row. row.content_hash ≡ hash_of row.payload)
          (λ row h. h.0) d.raw_payloads r.rows_by in
      let (stored, kept, inserted, pg, memory, alike, es, ee, ids) =
        persist-answers hash_of obs d polled.hashed r.rising hashes in
      let (seen, _) = persist-view obs d r.rising in
      let (answer, state) = persist-plain obs c in
      let (_, _, _, _, rising) = persist-append_only obs (view d) r.rising in
      let (_, _, row, _, found, _, _, at) = latest-persist obs (view d) in
      let later =
        All-mono (RowBy hash_of IsPlain now) (RowBy hash_of IsPlain obs.fetched_at)
          (λ row h. (h.0, omega (arith, h.1, polled.timely))) d.raw_payloads r.rows_by in
      let by =
        persist-All (RowBy hash_of IsPlain obs.fetched_at) obs (view d)
          (λ row h. (h.0, omega arith)) (polled.hashed, omega arith) later in
      (
        stored,
        kept,
        inserted,
        pg,
        sym answer ∙ ap (λ x. (Memory.persist obs x).0) (sym r.same) ∙ memory,
        record {
          ready = record {
            same = seen ∙ ap (λ x. plain (Memory.persist obs x).1) r.same ∙ state;
            well_formed = persist-WellFormed obs c r.well_formed;
            identity_rows = subst (IdentityRows IsPlain) (sym ids) r.identity_rows;
            rising =
                subst (λ (x : Corpus P Num). Rising x.next_raw_id (map freeze x.raw_rows))
                  (sym seen) rising;
            rows_by =
                subst (λ (x : Corpus P Num). All (RowBy hash_of IsPlain obs.fetched_at) x.raw_rows)
                  (sym seen) by;
          };
          known = subst IsKnown (sym es) polled.known;
          plain = subst IsPlain (sym ee) polled.plain;
          alike = alike;
          row = row;
          newest =
              rw (es, ee)
                (ap
                    (λ (x : Corpus P Num).
                      find_last (is_row_of obs.source obs.external_id) x.raw_rows)
                    seen
                  ∙ found);
          seen_now = at;
        },
      )
