-- ===== src/Service/Replies.antt =====
-- What the handlers reply and submit.
use extend_game_telemetry_co.Prelude.{
  ℕ, false, ◌≡◌, ◌≢◌, ◌⊎◌, ◌↔◌, inl, inr, refl, ap, Option, none, some, [], ◌∷◌, Text, codes, pos,
  arith,
}
use extend_game_telemetry_co.Pb
use extend_game_telemetry_co.Events.{Fields, get, str, int}
use extend_game_telemetry_co.Events.StatItemUpdated.{StatItemUpdatedEvent, StatItem}
use extend_game_telemetry_co.Events.StatItemUpdated
use extend_game_telemetry_co.Events.OauthTokenGenerated.{OauthTokenGeneratedEvent, OauthPayload}
use extend_game_telemetry_co.Events.Documents.{stat_columns, token_columns}
use extend_game_telemetry_co.Events.OauthTokenGenerated
use extend_game_telemetry_co.Processor.{Outcome, queued, skipped, refused, panicked}
use extend_game_telemetry_co.Service.{
  Reply, empty, internal, invalid_argument, reply_to, or_service, stat_event, stat_on_message,
  token_event, oauth_payload, token_on_message,
}

-- What a reply says of a submission.
pub record RepliesTo (o : Outcome) (r : Reply) : Type 0 where
  pub accepted : (r ≡ empty) ↔ ((o ≡ queued) ⊎ (o ≡ skipped))
  pub failed : (r ≡ internal) ↔ (o ≡ refused)

reply_to-RepliesTo : (o : Outcome) → RepliesTo o (reply_to o)
unfolding reply_to
reply_to-RepliesTo queued = record {
  accepted = (λ _. inl refl, λ _. refl);
  failed = (λ e. cc, λ e. cc);
}
reply_to-RepliesTo skipped = record {
  accepted = (λ _. inr refl, λ _. refl);
  failed = (λ e. cc, λ e. cc);
}
reply_to-RepliesTo refused = record {
  accepted = (λ e. cc, λ e. ground arith);
  failed = (λ e. refl, λ e. refl);
}
reply_to-RepliesTo panicked = record {
  accepted = (λ e. cc, λ e. ground arith);
  failed = (λ e. cc, λ e. cc);
}

or_service-own : (n s : Text) → n ≢ [] → or_service n s ≡ n
unfolding or_service
or_service-own [] s h = absurd (h refl)
or_service-own (c ∷ cs) s h = refl

or_service-fallback : (n s : Text) → n ≡ [] → or_service n s ≡ s
unfolding or_service
or_service-fallback [] s h = refl
or_service-fallback (c ∷ cs) s h = cc

module _ {Struct : Type 0} (as_map : Option Struct → Fields) where
  -- What is submitted for a request, field by field; the version of the request is dropped.
  pub record StatSubmitted (service : Text) (now_ms : ℕ) (req : Pb.StatItemUpdated Struct)
      (e : StatItemUpdatedEvent) : Type 0 where
    pub id : get (codes "event_id") (StatItemUpdated.to_document e) ≡ str req.id
    pub version : get (codes "version") (StatItemUpdated.to_document e) ≡ int (pos 0)
    pub name : get (codes "event_name") (StatItemUpdated.to_document e) ≡ str req.name
    pub user_id : get (codes "user_id") (StatItemUpdated.to_document e) ≡ str req.user_id
    pub session_id : get (codes "session_id") (StatItemUpdated.to_document e) ≡ str req.session_id
    pub timestamp : get (codes "timestamp") (StatItemUpdated.to_document e) ≡ str req.timestamp
    pub server_timestamp :
        get (codes "server_timestamp") (StatItemUpdated.to_document e) ≡ int (pos now_ms)
    pub namespace : get (codes "namespace") (StatItemUpdated.to_document e) ≡ str e.namespace
    pub own_namespace : req.namespace ≢ [] → e.namespace ≡ req.namespace
    pub fallback : req.namespace ≡ [] → e.namespace ≡ service
    pub payload :
        (x : Pb.StatItem Struct)
        → req.payload ≡ some x
        → e.payload
          ≡ some (record {
            stat_code = x.stat_code;
            user_id = x.user_id;
            latest_value = x.latest_value;
            inc = x.inc;
            additional_data = as_map x.additional_data;
            ignore_additional_data_on_value_rejected = x.ignore_additional_data_on_value_rejected;
            default_value = x.default_value;
            request_value = x.request_value;
            update_strategy = x.update_strategy;
          })
    pub no_payload :
        req.payload ≡ none
        → e.payload
          ≡ some (record {
            stat_code = [];
            user_id = [];
            latest_value = 0;
            inc = 0;
            additional_data = as_map none;
            ignore_additional_data_on_value_rejected = false;
            default_value = 0;
            request_value = 0;
            update_strategy = [];
          })

  stat_payload : Option (Pb.StatItem Struct) → Option StatItem
  stat_payload payload = some (record {
    stat_code = Pb.get_stat_code payload;
    user_id = Pb.get_user_id payload;
    latest_value = Pb.get_latest_value payload;
    inc = Pb.get_inc payload;
    additional_data = as_map (Pb.get_additional_data payload);
    ignore_additional_data_on_value_rejected =
        Pb.get_ignore_additional_data_on_value_rejected payload;
    default_value = Pb.get_default_value payload;
    request_value = Pb.get_request_value payload;
    update_strategy = Pb.get_update_strategy payload;
  })

  stat_event-StatSubmitted :
      (service : Text) (now_ms : ℕ) (req : Pb.StatItemUpdated Struct)
      → StatSubmitted service now_ms req (stat_event as_map service now_ms req)
  unfolding stat_event stat_payload Pb.get_stat_code Pb.get_user_id Pb.get_latest_value Pb.get_inc
      Pb.get_additional_data Pb.get_ignore_additional_data_on_value_rejected Pb.get_default_value
      Pb.get_request_value Pb.get_update_strategy
  stat_event-StatSubmitted service now_ms req =
      let columns = stat_columns (stat_event as_map service now_ms req) in
      record {
        id = columns.event_id;
        version = columns.version;
        name = columns.event_name;
        user_id = columns.user_id;
        session_id = columns.session_id;
        timestamp = columns.timestamp;
        server_timestamp = columns.server_timestamp;
        namespace = columns.namespace;
        own_namespace = or_service-own req.namespace service;
        fallback = or_service-fallback req.namespace service;
        payload = λ x same. ap stat_payload same;
        no_payload = λ same. ap stat_payload same;
      }

  -- What the stat item handler does, for every request. A nil request gets the error of an invalid
  -- argument, and nothing is submitted. For any other it submits exactly one event. Its document has
  -- the id, name, user, session and timestamp of the request, the time of the call, and the namespace
  -- of the request or, where that is empty, of the service; its version is 0 whatever the request's
  -- is; its payload has the nine fields of the request's payload, or zero values where that is nil.
  -- The reply is the empty message exactly when `Submit` queued the event or skipped a duplicate,
  -- and the internal error exactly when `Submit` returned an error.
  pub stat_on_message_lem :
      (service : Text) (now_ms : ℕ) (submit : StatItemUpdatedEvent → Outcome)
      (req : Pb.StatItemUpdated Struct)
      → (stat_on_message as_map service now_ms submit none ≡ (invalid_argument, none))
        × ((e : StatItemUpdatedEvent) × ((stat_on_message as_map service now_ms submit (some req)).1
              ≡ some e)
            × StatSubmitted service now_ms req e
            × RepliesTo (submit e) (stat_on_message as_map service now_ms submit (some req)).0)
  unfolding stat_on_message
  stat_on_message_lem service now_ms submit req =
      let e = stat_event as_map service now_ms req in
      (refl, (e, refl, stat_event-StatSubmitted service now_ms req, reply_to-RepliesTo (submit e)))

-- What is submitted for a token request.
pub record TokenSubmitted (service : Text) (now_ms : ℕ) (req : Pb.OauthTokenGenerated)
    (e : OauthTokenGeneratedEvent) : Type 0 where
  pub id : get (codes "event_id") (OauthTokenGenerated.to_document e) ≡ str req.id
  pub version : get (codes "version") (OauthTokenGenerated.to_document e) ≡ int req.version
  pub user_id : get (codes "user_id") (OauthTokenGenerated.to_document e) ≡ str req.user_id
  pub timestamp : get (codes "timestamp") (OauthTokenGenerated.to_document e) ≡ str req.timestamp
  pub trace_id : get (codes "trace_id") (OauthTokenGenerated.to_document e) ≡ str req.trace_id
  pub server_timestamp :
      get (codes "server_timestamp") (OauthTokenGenerated.to_document e) ≡ int (pos now_ms)
  pub namespace : get (codes "namespace") (OauthTokenGenerated.to_document e) ≡ str e.namespace
  pub own_namespace : req.namespace ≢ [] → e.namespace ≡ req.namespace
  pub fallback : req.namespace ≡ [] → e.namespace ≡ service
  pub payload :
      (o : Pb.Oauth)
      → req.payload ≡ some (record { oauth = some o })
      → e.payload
        ≡ some (record {
          client_id = o.client_id;
          response_type = o.response_type;
          platform_id = o.platform_id;
        })
  pub no_payload : req.payload ≡ none → e.payload ≡ none
  pub no_oauth : req.payload ≡ some (record { oauth = none }) → e.payload ≡ none

token_event-TokenSubmitted :
    (service : Text) (now_ms : ℕ) (req : Pb.OauthTokenGenerated)
    → TokenSubmitted service now_ms req (token_event service now_ms req)
unfolding token_event oauth_payload
token_event-TokenSubmitted service now_ms req =
    let columns = token_columns (token_event service now_ms req) in
    record {
      id = columns.event_id;
      version = columns.version;
      user_id = columns.user_id;
      timestamp = columns.timestamp;
      trace_id = columns.trace_id;
      server_timestamp = columns.server_timestamp;
      namespace = columns.namespace;
      own_namespace = or_service-own req.namespace service;
      fallback = or_service-fallback req.namespace service;
      payload = λ o e. ap oauth_payload e;
      no_payload = λ e. ap oauth_payload e;
      no_oauth = λ e. ap oauth_payload e;
    }

-- For every request but nil the token handler submits exactly one event. Its document has the id,
-- version, user, timestamp and trace of the request, the time of the call, and the namespace of the
-- request or, where that is empty, of the service; its payload is that of the request, and nil where
-- the request has none or one without an `oauth` part. The reply is the empty message exactly when
-- `Submit` queued the event or skipped a duplicate, and the internal error exactly when `Submit`
-- returned an error.
pub token_on_message_lem :
    (service : Text) (now_ms : ℕ) (submit : OauthTokenGeneratedEvent → Outcome)
    (req : Pb.OauthTokenGenerated)
    → (e : OauthTokenGeneratedEvent) × ((token_on_message service now_ms submit (some req)).1
        ≡ some e)
      × TokenSubmitted service now_ms req e
      × RepliesTo (submit e) (token_on_message service now_ms submit (some req)).0
unfolding token_on_message
token_on_message_lem service now_ms submit req =
    let e = token_event service now_ms req in
    (e, refl, token_event-TokenSubmitted service now_ms req, reply_to-RepliesTo (submit e))
