-- ===== src/Delivery/Examples/Replied.antt =====
-- A stat item request, and its event.
use extend_game_telemetry_co.Prelude.{[], Option, none, codes, pos}
use extend_game_telemetry_co.Pb
use extend_game_telemetry_co.Events.{Fields, end}
use extend_game_telemetry_co.Events.StatItemUpdated.{StatItemUpdatedEvent}
use extend_game_telemetry_co.Service.{stat_event}

abbrev pub no_struct : Option (Unit {0}) → Fields
no_struct s = end

abbrev pub request : Pb.StatItemUpdated (Unit {0})
request = record {
  payload = none;
  id = codes "e1";
  version = pos 3;
  name = codes "statItemUpdated";
  namespace = [];
  parent_namespace = [];
  timestamp = codes "2025-01-02T03:04:05Z";
  client_id = [];
  user_id = codes "u1";
  session_id = codes "s1";
}

abbrev pub event : StatItemUpdatedEvent
event = stat_event no_struct (codes "game") 7 request
