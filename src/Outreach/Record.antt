-- ===== src/Outreach/Record.antt =====
-- core/outreach/events.ts and contacts.ts: the table of events, which only grows, and that of the
-- addresses, over the tables of src/db/schema.ts.
use monster_paws.Prelude.{
  ℕ, suc, Text, text_eq, ltb, ◌==◌, Bool, true, false, ◌&&◌, ◌||◌, Option, none, some, List, [],
  ◌∷◌, ◌++◌, keep_if, if◌then◌else◌,
}
use monster_paws.Ingest.Corpus.{sort}

pub data OutreachEventKind : Type 0 where
  sent bounced replied opted_out granted : OutreachEventKind

unfoldable pub kind_is : OutreachEventKind → OutreachEventKind → Bool
kind_is sent sent = true
kind_is bounced bounced = true
kind_is replied replied = true
kind_is opted_out opted_out = true
kind_is granted granted = true
kind_is _ _ = false

-- A row of `outreach_events`; the rows stand in the order of their ids.
pub record OutreachEvent : Type 0 where
  pub shelter_external_id : Text
  pub wave : Text
  pub kind : OutreachEventKind
  pub occurred_at : ℕ
  pub message_id : Option Text
  pub note : Option Text

-- A row of `shelter_contacts`, whose key is the shelter and the address.
pub record ShelterContact : Type 0 where
  pub shelter_external_id : Text
  pub email : Text
  pub source_url : Text
  pub found_at : ℕ
  pub confirmed_at : Option ℕ
  pub confirmed_by : Option Text

pub record Office : Type 0 where
  pub events : List OutreachEvent
  pub contacts : List ShelterContact

unfoldable pub is_sent : OutreachEvent → Bool
is_sent e = kind_is e.kind sent

unfoldable pub is_of : Text → OutreachEvent → Bool
is_of shelter e = text_eq e.shelter_external_id shelter

-- The key of the unique index over the `sent` rows.
unfoldable pub is_send_in : Text → Text → OutreachEvent → Bool
is_send_in shelter wave e = is_sent e && (is_of shelter e && text_eq e.wave wave)

unfoldable pub some_event : (OutreachEvent → Bool) → List OutreachEvent → Bool
some_event test [] = false
some_event test (e ∷ es) = test e || some_event test es

-- What an insert can come to: the index refuses a second `sent` row of a shelter and a wave, and
-- the database can fail otherwise, with a message.
pub data InsertFault : Type 0 where
  not_unique : InsertFault
  database : Text → InsertFault

-- `recordOutreachEvent`: the one writer of events. `fault` is the database's own failure.
unfoldable pub record_outreach_event :
    OutreachEvent → Option InsertFault → Office → Option InsertFault × Office
unfolding is_send_in is_sent is_of some_event
record_outreach_event event (some fault) office = (some fault, office)
record_outreach_event event none office =
    if is_sent event && some_event (is_send_in event.shelter_external_id event.wave) office.events
    then (some not_unique, office)
    else (none, record office { events = office.events ++ event ∷ [] })

is_contact : Text → Text → ShelterContact → Bool
is_contact shelter email c = text_eq c.shelter_external_id shelter && text_eq c.email email

some_contact : (ShelterContact → Bool) → List ShelterContact → Bool
some_contact test [] = false
some_contact test (c ∷ cs) = test c || some_contact test cs

-- `INSERT … ON CONFLICT DO NOTHING`, with the number of rows that it inserted.
add_candidates : List ShelterContact → List ShelterContact → ℕ × List ShelterContact
unfolding is_contact some_contact
add_candidates [] cs = (0, cs)
add_candidates (c ∷ more) cs =
    let taken = add_candidates more cs in
    let added = add_candidates more (cs ++ c ∷ []) in
    if some_contact (is_contact c.shelter_external_id c.email) cs
    then taken
    else (suc added.0, added.1)

-- An `AddressCandidate`, its address in lower case.
pub record AddressCandidate : Type 0 where
  pub email : Text
  pub source_url : Text

candidate_row : Text → ℕ → AddressCandidate → ShelterContact
candidate_row shelter found_at c = record {
  shelter_external_id = shelter;
  email = c.email;
  source_url = c.source_url;
  found_at = found_at;
  confirmed_at = none;
  confirmed_by = none;
}

rows_of : Text → ℕ → List AddressCandidate → List ShelterContact
unfolding candidate_row
rows_of shelter found_at [] = []
rows_of shelter found_at (c ∷ cs) = candidate_row shelter found_at c ∷ rows_of shelter found_at cs

-- `recordAddressCandidates`.
unfoldable pub record_address_candidates : Text → List AddressCandidate → ℕ → Office → ℕ × Office
unfolding add_candidates rows_of
record_address_candidates shelter candidates found_at office =
    let (inserted, contacts) =
      add_candidates (rows_of shelter found_at candidates) office.contacts in
    (inserted, record office { contacts = contacts })

-- The update of `ON CONFLICT DO UPDATE`, or the new row.
upsert_confirmed : ShelterContact → List ShelterContact → List ShelterContact
unfolding is_contact
upsert_confirmed row [] = row ∷ []
upsert_confirmed row (c ∷ cs) =
    let rest = upsert_confirmed row cs in
    if is_contact row.shelter_external_id row.email c
    then record c { confirmed_at = row.confirmed_at; confirmed_by = row.confirmed_by } ∷ cs
    else c ∷ rest

-- `confirmAddress`, with the address in lower case; `typed` is the text `typed by …`.
unfoldable pub confirm_address : Text → Text → Text → Text → ℕ → Office → Office
unfolding upsert_confirmed
confirm_address shelter email typed confirmed_by at office = record office {
  contacts =
      upsert_confirmed
        (record {
          shelter_external_id = shelter;
          email = email;
          source_url = typed;
          found_at = at;
          confirmed_at = some at;
          confirmed_by = some confirmed_by;
        })
        office.contacts;
}

pub is_confirmed_of : Text → ShelterContact → Bool
is_confirmed_of shelter c = text_eq c.shelter_external_id shelter && is_there c.confirmed_at
  where
    is_there : Option ℕ → Bool
    is_there none = false
    is_there (some at) = true

instant_of : Option ℕ → ℕ
instant_of none = 0
instant_of (some at) = at

email_of : List ShelterContact → Option Text
email_of [] = none
email_of (c ∷ cs) = some c.email

-- `confirmedAddress`: the latest confirmation first, then by address; `precedes` is the database's
-- order of texts.
module _ (precedes : Text → Text → Bool) where
  later_confirmed : ShelterContact → ShelterContact → Bool
  unfolding instant_of
  later_confirmed a b =
      ltb (instant_of b.confirmed_at) (instant_of a.confirmed_at)
      || ((instant_of a.confirmed_at == instant_of b.confirmed_at) && precedes a.email b.email)

  pub confirmed_address : Text → Office → Option Text
  unfolding email_of later_confirmed is_confirmed_of
  confirmed_address shelter office =
      email_of (sort later_confirmed (keep_if (is_confirmed_of shelter) office.contacts))
