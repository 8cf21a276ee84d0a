-- ===== src/Service.antt =====
-- pkg/service: the gRPC handlers. The call of `Submit` is an argument: what it does is the matter
-- of Processor, and the handler sees only how it ended.
pub mod Replies
mod Examples
use extend_game_telemetry_co.Prelude.{ℕ, Bool, Option, none, some, [], ◌∷◌, List, Text, ℤ, pos}
use mathlib.Core.Option
use extend_game_telemetry_co.Pb
use extend_game_telemetry_co.Events.{Fields}
use extend_game_telemetry_co.Events.StatItemUpdated.{StatItemUpdatedEvent}
use extend_game_telemetry_co.Events.OauthTokenGenerated.{OauthTokenGeneratedEvent, OauthPayload}
use extend_game_telemetry_co.Processor.{Outcome, queued, skipped, refused, panicked}

-- The reply, or the end of the process by a panic in `Submit`.
pub data Reply : Type 0 where
  empty invalid_argument internal crash : Reply

reply_to : Outcome → Reply
reply_to queued = empty
reply_to skipped = empty
reply_to refused = internal
reply_to panicked = crash

-- The namespace of the request, or else that of the service.
or_service : Text → Text → Text
or_service [] service = service
or_service (c ∷ cs) service = c ∷ cs

-- `as_map` is `(*structpb.Struct).AsMap`, and `now_ms` is `time.Now().UnixMilli()`.
module _ {Struct : Type 0} (as_map : Option Struct → Fields) where
  unfoldable pub stat_event : Text → ℕ → Pb.StatItemUpdated Struct → StatItemUpdatedEvent
  unfolding or_service
  stat_event service now_ms req = record {
    id = req.id;
    version = pos 0;
    namespace = or_service req.namespace service;
    name = req.name;
    user_id = req.user_id;
    session_id = req.session_id;
    timestamp = req.timestamp;
    server_timestamp = pos now_ms;
    payload = some (record {
      stat_code = Pb.get_stat_code req.payload;
      user_id = Pb.get_user_id req.payload;
      latest_value = Pb.get_latest_value req.payload;
      inc = Pb.get_inc req.payload;
      additional_data = as_map (Pb.get_additional_data req.payload);
      ignore_additional_data_on_value_rejected =
          Pb.get_ignore_additional_data_on_value_rejected req.payload;
      default_value = Pb.get_default_value req.payload;
      request_value = Pb.get_request_value req.payload;
      update_strategy = Pb.get_update_strategy req.payload;
    });
  }

  -- The reply, and the event that was submitted.
  unfoldable pub stat_on_message :
      Text
      → ℕ
      → (StatItemUpdatedEvent → Outcome)
      → Option (Pb.StatItemUpdated Struct)
      → Reply × Option StatItemUpdatedEvent
  unfolding stat_event reply_to
  stat_on_message service now_ms submit none = (invalid_argument, none)
  stat_on_message service now_ms submit (some req) =
      let event = stat_event service now_ms req in (reply_to (submit event), some event)

-- `req.Payload != nil && req.Payload.Oauth != nil`
oauth_payload : Option Pb.OauthTokenGeneratedPayloadData → Option OauthPayload
oauth_payload none = none
oauth_payload (some p) =
    Option.map
      (λ o. record {
        client_id = o.client_id;
        response_type = o.response_type;
        platform_id = o.platform_id;
      })
      p.oauth

pub token_event : Text → ℕ → Pb.OauthTokenGenerated → OauthTokenGeneratedEvent
unfolding or_service oauth_payload
token_event service now_ms req = record {
  id = req.id;
  version = req.version;
  namespace = or_service req.namespace service;
  name = req.name;
  user_id = req.user_id;
  session_id = req.session_id;
  trace_id = req.trace_id;
  timestamp = req.timestamp;
  server_timestamp = pos now_ms;
  payload = oauth_payload req.payload;
}

unfoldable pub token_on_message :
    Text
    → ℕ
    → (OauthTokenGeneratedEvent → Outcome)
    → Option Pb.OauthTokenGenerated
    → Reply × Option OauthTokenGeneratedEvent
unfolding token_event reply_to
token_on_message service now_ms submit none = (invalid_argument, none)
token_on_message service now_ms submit (some req) =
    let event = token_event service now_ms req in (reply_to (submit event), some event)
