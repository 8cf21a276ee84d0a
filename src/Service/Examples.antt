-- ===== src/Service/Examples.antt =====
-- Concrete requests.
use extend_game_telemetry_co.Prelude.{◌≡◌, [], none, some, codes, pos, Option}
use extend_game_telemetry_co.Pb
use extend_game_telemetry_co.Events.{Fields, end}
use extend_game_telemetry_co.Events.StatItemUpdated.{StatItemUpdatedEvent}
use extend_game_telemetry_co.Processor.{queued}
use extend_game_telemetry_co.Service.{stat_on_message, invalid_argument}
use extend_game_telemetry_co.Service.Replies.{StatSubmitted, RepliesTo, stat_on_message_lem}

abbrev no_struct : Option (Unit {0}) → Fields
no_struct s = end

abbrev stat_request : Pb.StatItemUpdated (Unit {0})
stat_request = record {
  payload = none;
  id = codes "e1";
  version = pos 3;
  name = codes "statItemUpdated";
  namespace = [];
  parent_namespace = [];
  timestamp = codes "2025-01-02T03:04:05Z";
  client_id = [];
  user_id = codes "u1";
  session_id = codes "s1";
}

stat_on_message_example :
    (stat_on_message no_struct (codes "game") 7 (λ _. queued) none ≡ (invalid_argument, none))
    × ((e : StatItemUpdatedEvent) × ((stat_on_message no_struct
            (codes "game")
            7
            (λ _. queued)
            (some stat_request)).1
          ≡ some e)
        × StatSubmitted no_struct (codes "game") 7 stat_request e
        × RepliesTo queued
            (stat_on_message no_struct (codes "game") 7 (λ _. queued) (some stat_request)).0)
stat_on_message_example = stat_on_message_lem no_struct (codes "game") 7 (λ _. queued) stat_request

abbrev token_request : Pb.OauthTokenGenerated
token_request = record {
  payload = some (record {
    oauth = some (record {
      client_id = codes "c1";
      response_type = codes "code";
      platform_id = codes "steam";
    });
  });
  id = codes "e2";
  version = pos 1;
  name = codes "oauthTokenGenerated";
  namespace = codes "other";
  parent_namespace = [];
  timestamp = codes "2025-01-02T03:04:05Z";
  client_id = [];
  user_id = codes "u1";
  trace_id = codes "t1";
  session_id = codes "s1";
}
