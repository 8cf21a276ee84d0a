-- ===== src/Events/Documents.antt =====
-- What the documents of the events hold, key by key.
use extend_game_telemetry_co.Prelude.{
  ◌≡◌, refl, false, true, Option, none, some, codes, Bool, text_eq,
}
use extend_game_telemetry_co.Events.{Value, null, str, int, Fields, get, has, put}
use extend_game_telemetry_co.Events.StatItemUpdated.{StatItem, StatItemUpdatedEvent}
use extend_game_telemetry_co.Events.StatItemUpdated
use extend_game_telemetry_co.Events.OauthTokenGenerated.{OauthPayload, OauthTokenGeneratedEvent}
use extend_game_telemetry_co.Events.OauthTokenGenerated

abbrev is_some : {A : Type 0} → Option A → Bool
is_some none = false
is_some (some a) = true

-- A value that is there only with a payload.
abbrev pub if_some : {A : Type 0} → Option A → Value → Value
if_some none v = null
if_some (some a) v = v

-- What a reader of the columns finds in the document of a stat item event.
pub record StatColumns (e : StatItemUpdatedEvent) (p : Option StatItem) (doc : Fields)
    : Type 0 where
  pub kind : get (codes "kind") doc ≡ str (codes "stat_item_updated")
  pub namespace : get (codes "namespace") doc ≡ str e.namespace
  pub user_id : get (codes "user_id") doc ≡ str e.user_id
  pub server_timestamp : get (codes "server_timestamp") doc ≡ int e.server_timestamp
  pub event_id : get (codes "event_id") doc ≡ if_some p (str e.id)
  pub event_name : get (codes "event_name") doc ≡ if_some p (str e.name)
  pub version : get (codes "version") doc ≡ if_some p (int e.version)
  pub timestamp : get (codes "timestamp") doc ≡ if_some p (str e.timestamp)
  pub session_id : get (codes "session_id") doc ≡ if_some p (str e.session_id)
  pub payload : has (codes "payload") doc ≡ is_some p

StatColumns-of :
    (e : StatItemUpdatedEvent) (p : Option StatItem)
    → StatColumns e p (StatItemUpdated.to_document (record e { payload = p }))
unfolding StatItemUpdated.to_document get put has text_eq
StatColumns-of e none = record {
  kind = refl;
  namespace = refl;
  user_id = refl;
  server_timestamp = refl;
  event_id = refl;
  event_name = refl;
  version = refl;
  timestamp = refl;
  session_id = refl;
  payload = refl;
}
StatColumns-of e (some p) = record {
  kind = refl;
  namespace = refl;
  user_id = refl;
  server_timestamp = refl;
  event_id = refl;
  event_name = refl;
  version = refl;
  timestamp = refl;
  session_id = refl;
  payload = refl;
}

-- The document of a stat item event always has its kind, namespace, user and server time. The id,
-- name, version, timestamp, session and the payload are there exactly when the payload is not nil.
pub stat_columns :
    (e : StatItemUpdatedEvent) → StatColumns e e.payload (StatItemUpdated.to_document e)
stat_columns e = StatColumns-of e e.payload

pub record TokenColumns (e : OauthTokenGeneratedEvent) (p : Option OauthPayload) (doc : Fields)
    : Type 0 where
  pub kind : get (codes "kind") doc ≡ str (codes "oauth_token_generated")
  pub namespace : get (codes "namespace") doc ≡ str e.namespace
  pub user_id : get (codes "user_id") doc ≡ str e.user_id
  pub server_timestamp : get (codes "server_timestamp") doc ≡ int e.server_timestamp
  pub event_id : get (codes "event_id") doc ≡ str e.id
  pub event_name : get (codes "event_name") doc ≡ str e.name
  pub version : get (codes "version") doc ≡ int e.version
  pub timestamp : get (codes "timestamp") doc ≡ str e.timestamp
  pub session_id : get (codes "session_id") doc ≡ str e.session_id
  pub trace_id : get (codes "trace_id") doc ≡ str e.trace_id
  pub payload : has (codes "payload") doc ≡ is_some p

TokenColumns-of :
    (e : OauthTokenGeneratedEvent) (p : Option OauthPayload)
    → TokenColumns e p (OauthTokenGenerated.to_document (record e { payload = p }))
unfolding OauthTokenGenerated.to_document get put has text_eq
TokenColumns-of e none = record {
  kind = refl;
  namespace = refl;
  user_id = refl;
  server_timestamp = refl;
  event_id = refl;
  event_name = refl;
  version = refl;
  timestamp = refl;
  session_id = refl;
  trace_id = refl;
  payload = refl;
}
TokenColumns-of e (some p) = record {
  kind = refl;
  namespace = refl;
  user_id = refl;
  server_timestamp = refl;
  event_id = refl;
  event_name = refl;
  version = refl;
  timestamp = refl;
  session_id = refl;
  trace_id = refl;
  payload = refl;
}

-- The document of a token event always has all fields of the event; the payload is there exactly
-- when it is not nil.
pub token_columns :
    (e : OauthTokenGeneratedEvent) → TokenColumns e e.payload (OauthTokenGenerated.to_document e)
token_columns e = TokenColumns-of e e.payload
