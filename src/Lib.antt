-- ===== src/Lib.antt =====
-- Monster Paws.
--
-- Monster Paws collects animals that await adoption from several sources, keeps one canonical
-- record per animal, and lets donors sponsor them. This library models the part that every other
-- one reads from: the ingest. An observation is one source's payload for one record. It is stored
-- raw, once per content, and kept for ever; a normalizer turns it into claims, one per field, each
-- with its source and instant; the record is resolved to a canonical animal; the claims are merged
-- into the claims that the animal holds; and once a feed is exhausted the source's records that it
-- did not show are marked as disappeared. It also models the gifts: an intent is written when a
-- donor goes to pay, the payment provider reports a charge to a webhook, which believes no more
-- than the intent that it names, and a decision turns a stored delivery into a donation, its count
-- and a closed intent. And it models the letters to shelters: a wave is chosen, and each of its
-- letters is judged against the record of all letters before it is sent and recorded. Last, the
-- mail that brings a donor the paintings: a sweep claims a row before it calls the sender, and
-- what the provider reports, or a donor's click, erases addresses and stops mails.
--
-- The files and the code that they model:
--   Prelude.antt, Result.antt  shared names: texts as lists of code units, maps as association lists
--       in insertion order, thrown errors as values
--   Sources.antt   src/core/sources.ts: tiers, sources, the slug pattern as a run over characters
--   Trust.antt     src/core/trust.ts: resolveClaim, resolveClaims, crossTier
--   Ingest/Hash.antt      src/core/ingest/hash.ts; the digest, and JSON.stringify of a string, are arguments
--   Ingest/Fields.antt, Ingest/Merge.antt  src/core/ingest/merge.ts and the field list of pipeline.ts
--   Ingest/Model.antt, Ingest/Report.antt  the types of src/core/ingest/pipeline.ts and observation.ts;
--       IngestStages is the record Stages over a state, whose operations return a result or an error
--   Ingest/Gate.antt      judgeDisappearances and resolveReconcileAt of src/core/ingest/pipeline.ts
--   Ingest/Pipeline.antt  deriveOne, runIngest and replay of src/core/ingest/pipeline.ts
--   Ingest/Corpus.antt, Ingest/Memory.antt, Ingest/Reconcile.antt, Ingest/MemoryStages.antt
--       src/core/ingest/memory.ts: the state of createMemoryStages as the record Corpus, persist,
--       resolve and apply, reconcile with the run store, and the stages put together
--   Ingest/Pg.antt with Store.antt, Canonical.antt, Lifecycle.antt and Stages.antt below it
--       src/core/ingest/pg.ts: the tables as the record PgCorpus, and the same stages over them;
--       Ingest/Pg/View.antt says which corpus in memory the tables stand for, and Ingest/Pg/Runs.antt
--       compares whole runs over both, by Ingest/Pipeline/Simulates.antt
--   Donate/Shapes.antt    the patterns of src/core/donate/webhook.ts and intent.ts, as tests on texts
--   Donate/Body.antt      keepShaped, storableBody and donationFields of src/core/donate/webhook.ts
--   Donate/Ledger.antt    the tables of src/db/schema.ts that a decision writes, and decideLocked and
--       decide of src/core/donate/webhook.ts; a transaction is one step
--   Donate/Webhook.antt   prepareDelivery, storeDelivery and decideStored of src/core/donate/webhook.ts
--       and sweepWebhookSpool of src/core/donate/webhook-replay.ts
--   Donate/Intents.antt   the intents and the cookie of src/core/donate/intent.ts, and
--       src/core/email/painting-state.ts
--   Donate/Gate.antt      the gate of a sponsorship of src/core/donate/intent.ts
--   Donate/ThankYou.antt  intentAnimal and thankYouIntent of src/core/donate/intent.ts; the join of an
--       identity with its animal is an argument
--   Shelters.antt  src/core/shelters.ts: consent windows, grants, lookups and the registry's checks
--   Outreach/Record.antt  the tables shelter_contacts and outreach_events of src/db/schema.ts, with
--       src/core/outreach/events.ts and contacts.ts
--   Outreach/Guard.antt   judgeSend and loadSendFacts of src/core/outreach/send.ts
--   Outreach/Wave.antt    attempt and sendWave of src/core/outreach/send.ts, and rehearseWave of wave.ts
--   Outreach/Runs.antt    the steps that can reach a record: attempts and what people write down
--   Outreach/Selection.antt  selectWave and approachedShelters of src/core/outreach/list.ts
--   Email/Room.antt       the tables of src/db/schema.ts that mails read and write
--   Email/Suppression.antt, Email/Reports.antt, Email/Sweep.antt  src/core/email/suppression.ts,
--       resend-webhook.ts and painting-sweep.ts; a sweep also keeps a log of its calls of the sender
--   Health.antt    assessHealth of src/core/health.ts
-- Below a component's file its folder holds the proofs, by what they prove, and its runs on concrete
-- data.
--
-- How the code is read. An instant is its number of milliseconds since the epoch, so no instant is
-- before it. A feed is the list of observations that it yields and the error that breaks it off,
-- if one does; a run's readings of the clock are arguments. The floating-point arithmetic of the
-- disappearance gate is an argument (Floats), and so is localeCompare, as the answer "before or
-- equal". A payload is of a type that no stage but the normalizer looks into, and normalizers are
-- arguments. A slot of an animal's claims is empty or holds a claim, which may be null. JSON texts
-- of two values of one field are compared as the values themselves. A parsed body is the list of
-- its entries, where a value is only told apart as far as the code looks at it; printing an object
-- to a row and parsing the row gives the object back. What Date makes of a text, the pattern of an
-- ISO date in the registry, and the sorting of dropped names, are arguments; an absent list of a
-- shelter's keys is an empty one; the day of a stat is counted from the epoch. A store into the
-- database succeeds, fails, or lands although an error is thrown. An attempt to send a letter
-- holds the outreach lock from its first read to its last write, so it is one step; its three
-- readings of the clock, the answer of the transport and the database's own failure to insert are
-- arguments (Moment), and between two attempts others do to the record what they like (Turn).
-- Dates of contacts are ordered as numbers and addresses by an argument. The keyed HMAC is an
-- argument, and so is `trim` with `toLowerCase` of an address. The sweep's write after the
-- sender's answer can throw, which then writes nothing, and so can the reading of early reports;
-- any other failure of the database ends a sweep and is left out. A table is the list of its rows
-- in the order of their insertion; where a statement of a reconciliation returns rows, the order
-- that the database gives them is an argument. That localeCompare is transitive and tells external
-- ids apart is a hypothesis where a theorem needs it. A row of a run of which an integer column
-- overflows is refused, and a gift whose amount its column cannot hold fails its decision, which
-- then leaves no row. Texts of errors that differ between the two stores only where a foreign key
-- rules them out are not told apart. A loop over a feed is recursion on its list, so no fuel is used
-- but for the digits of a number, of which there are fewer than its value and one, and for the
-- inserts of events, whose rounds are no more than the events.
--
-- Not modelled: the RescueGroups normalizer, which is an argument; the headers and secrets of the
-- webhook and the files of its spool, the animal of a sponsorship and its link, the texts, senders
-- and owed rows of e-mail, the addresses, EINs, texts and transport of outreach, and the opt-outs
-- of shelters, which for the most part read files, the network or the database without a state of
-- their own; browsing, keepsakes, sharing and the purge, for the most part statements that the
-- database runs; web pages, command lines, the schema's other declarations, generated data and
-- image generation.
pub mod Prelude
pub mod Result
pub mod Sources
pub mod Trust
pub mod Ingest
pub mod Donate
pub mod Shelters
pub mod Health
pub mod Outreach
pub mod Email
