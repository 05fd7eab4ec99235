-- ===== src/Ingest/Pg/Lifecycle/Rows.antt =====
-- What the reconciliation of core/ingest/pg.ts leaves of the raw table and of the identity rows.
use monster_paws.Prelude.{ℕ, Text, refl, inl, inr, Bool, List, none, some, Option-cases}
use monster_paws.Ingest.Gate.{DisappearanceTally, DisappearanceVerdict, ReconcileAt}
use monster_paws.Ingest.Corpus.{MemoryIdentity}
use monster_paws.Ingest.Pg.{PgCorpus}
use monster_paws.Ingest.Pg.Rows.{update_where-IdentityRows}
use monster_paws.Ingest.Pg.Canonical.Rows.{Leaves}
use monster_paws.Ingest.Pg.Lifecycle.{see_rows, miss_rows, settle, reconcile}

module _ {P Num : Type 0} (IsPlain : Text → Type 0) (precedes : Text → Text → Bool)
    (gone_order missed_order : List MemoryIdentity → List MemoryIdentity) (source : Text)
    (seen : List Text) (d : PgCorpus P Num) where
  settle-Leaves :
      (resolved : ReconcileAt) (verdict : DisappearanceVerdict Num)
      → Leaves IsPlain d (settle precedes gone_order missed_order source seen resolved verdict d).1
  unfolding settle see_rows miss_rows
  settle-Leaves resolved verdict = elim (Option-cases verdict.refusal) [
    | inr (refusal, e) ↦
        rw (e, settle) (record { raw_payloads = refl; next_raw_id = refl; identity_rows = λ h. h })
    | inl e ↦
        rw (e, settle)
          (record {
            raw_payloads = refl;
            next_raw_id = refl;
            identity_rows = λ h.
                update_where-IdentityRows IsPlain _
                  (λ id. record id { disappeared_at = some resolved.at }) (λ r. (refl, refl)) _
                  (update_where-IdentityRows IsPlain _
                    (λ id. record id { disappeared_at = none; last_seen_at = resolved.at })
                    (λ r. (refl, refl)) d.animal_identities h);
          })
  ]

  pub reconcile-Leaves :
      (requested_at : ℕ) (gate : DisappearanceTally → DisappearanceVerdict Num)
      → Leaves IsPlain d
          (reconcile precedes gone_order missed_order source seen requested_at gate d).1
  unfolding reconcile
  reconcile-Leaves requested_at gate = settle-Leaves _ _
