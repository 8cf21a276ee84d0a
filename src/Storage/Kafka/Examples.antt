-- ===== src/Storage/Kafka/Examples.antt =====
-- A broker that takes everything, and a batch of two users.
use extend_game_telemetry_co.Prelude.{List, [], ◌∷◌, Option, none, some, Text, codes, pos}
use extend_game_telemetry_co.Events.{Fields, end}
use extend_game_telemetry_co.Storage.{Stored}
use extend_game_telemetry_co.Storage.Kafka.{Message}

-- An event is the name of its user here.
abbrev named : Stored Text
named = record {
  to_document = λ e. end;
  user_id = λ e. e;
  namespace = λ e. codes "game";
  server_timestamp = λ e. pos 1735787045000;
}

abbrev marshal : Fields → Option Text
marshal fields = some (codes "{}")

abbrev batch : List Text
batch = codes "ann" ∷ codes "bob" ∷ codes "ann" ∷ []

abbrev writer : List Message → Option Text
writer messages = none
