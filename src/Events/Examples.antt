-- ===== src/Events/Examples.antt =====
-- Concrete events.
use extend_game_telemetry_co.Prelude.{◌≡◌, refl, true, none, some, codes, pos, Text}
use extend_game_telemetry_co.Events.{Float64, end}
use extend_game_telemetry_co.Events.StatItemUpdated.{StatItemUpdatedEvent}
use extend_game_telemetry_co.Events.StatItemUpdated
use extend_game_telemetry_co.Events.OauthTokenGenerated.{OauthTokenGeneratedEvent, client_id_of}
use extend_game_telemetry_co.Events.OauthTokenGenerated
use extend_game_telemetry_co.Events.Keys.{token_keys_clash}

abbrev stat : StatItemUpdatedEvent
stat = record {
  id = codes "e1";
  version = pos 0;
  namespace = codes "game";
  name = codes "statItemUpdated";
  user_id = codes "u1";
  session_id = codes "s1";
  timestamp = codes "2025-01-02T03:04:05Z";
  server_timestamp = pos 1735787045000;
  payload = some (record {
    stat_code = codes "kills";
    user_id = codes "u1";
    latest_value = 0;
    inc = 0;
    additional_data = end;
    ignore_additional_data_on_value_rejected = true;
    default_value = 0;
    request_value = 0;
    update_strategy = codes "INCREMENT";
  });
}

abbrev token : OauthTokenGeneratedEvent
token = record {
  id = codes "e2";
  version = pos 1;
  namespace = codes "game";
  name = codes "oauthTokenGenerated";
  user_id = codes "eu:u1";
  session_id = codes "s1";
  trace_id = codes "t1";
  timestamp = codes "2025-01-02T03:04:05Z";
  server_timestamp = pos 1735787045000;
  payload = none;
}

abbrev plain_token : OauthTokenGeneratedEvent
plain_token = record token { user_id = codes "u1" }

-- A printer of floats that prints every float as 0.
abbrev zero_printer : Float64 → Text
zero_printer v = codes "0"

token_keys_clash_example :
    OauthTokenGenerated.deduplication_key token
    ≡ OauthTokenGenerated.deduplication_key
        (record token { namespace = codes "game:eu"; user_id = codes "u1" })
token_keys_clash_example = token_keys_clash token (codes "eu") (codes "u1") refl
