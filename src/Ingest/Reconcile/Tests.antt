-- ===== src/Ingest/Reconcile/Tests.antt =====
-- Runs of stage 5 of core/ingest/memory.ts over a corpus where one record is present and another
-- has gone.
use monster_paws.Prelude.{
  ℕ, codes, Text, text_eq, text_key, ◌≡◌, refl, Bool, true, not, none, some, List, [], ◌∷◌, length,
  keep_if, lookup, arith,
}
use monster_paws.Ingest.Gate.{DisappearanceTally, DisappearanceVerdict, Refusal}
use monster_paws.Ingest.Model.{animal_seen, animal_updated, animal_disappeared, animal_reappeared}
use monster_paws.Ingest.Report.{count_kind, is_absent}
use monster_paws.Ingest.Pipeline.{has_text}
use monster_paws.Ingest.Corpus.{MemoryIdentity}
use monster_paws.Ingest.Reconcile.{own_of, tally_of, settle, reconcile}
use monster_paws.Ingest.Reconcile.Presence.{resolved_at, Becomes, reconcile-Becomes}
use monster_paws.Ingest.Reconcile.Events.{reconcile-counts}
use monster_paws.Ingest.Reconcile.Dates.{AllDated, reconcile-AllDated}
use monster_paws.Ingest.Tests.{groups, identity, corpus}

abbrev any_order : Text → Text → Bool
any_order a b = true

abbrev back : List Text
back = codes "78" ∷ []

abbrev pass : DisappearanceTally → DisappearanceVerdict ℕ
pass tally = record { rate_per_day = 0; days = 1; refusal = none }

abbrev refusal : Refusal ℕ
refusal = record { disappearing = 1; present = 1; days = 1; rate_per_day = 9; max_daily_rate = 5 }

passes : (reconcile any_order groups back 30 pass corpus).0.refused ≡ none
unfolding reconcile settle
passes = refl

found : lookup (codes "rescuegroups:77") corpus.identities ≡ some (identity (codes "77") 10 none)
unfolding lookup text_eq
found = refl

reconcile_example :
    (id' : MemoryIdentity) × (lookup
        (codes "rescuegroups:77")
        (reconcile any_order groups back 30 pass corpus).1.identities
      ≡ some id')
    × Becomes groups back
        (resolved_at groups 30 corpus.identities).at
        (identity (codes "77") 10 none)
        id'
reconcile_example =
    reconcile-Becomes any_order groups back 30 pass corpus (codes "rescuegroups:77")
      (identity (codes "77") 10 none) passes found

counts_example :
    let events = (reconcile any_order groups back 30 pass corpus).0.events in
    let own = own_of groups corpus.identities in
    (count_kind animal_disappeared events
      ≡ (tally_of back (resolved_at groups 30 corpus.identities).at own).disappearing)
    × (count_kind animal_reappeared events
        ≡ length (
            keep_if
              (λ x. has_text x.external_id back)
              (keep_if (λ x. not (is_absent x.disappeared_at)) own)))
    × (count_kind animal_seen events ≡ 0)
    × (count_kind animal_updated events ≡ 0)
counts_example = reconcile-counts any_order groups back 30 pass corpus passes

corpus-AllDated : AllDated corpus.identities
corpus-AllDated = ((λ d e. absurd (cc)), ((λ d e. ground arith), tt))

dated_example : AllDated (reconcile any_order groups back 5 pass corpus).1.identities
dated_example = reconcile-AllDated any_order groups back 5 pass corpus corpus-AllDated
