-- ===== src/Storage/S3/Examples.antt =====
-- An object store that takes everything, and two moments of one day.
use extend_game_telemetry_co.Prelude.{
  ◌≡◌, ◌↔◌, refl, Bool, true, List, [], ◌∷◌, Option, none, Text, codes, pos,
}
use extend_game_telemetry_co.Events.{Fields, end}
use extend_game_telemetry_co.Storage.{Stored}
use extend_game_telemetry_co.Storage.S3.{PluginConfig, Moment, PutObject, object_key}
use extend_game_telemetry_co.Storage.S3.Objects.{SameTime, keys_agree}

abbrev named : Stored Text
named = record {
  to_document = λ e. end;
  user_id = λ e. e;
  namespace = λ e. codes "game";
  server_timestamp = λ e. pos 1735787045000;
}

abbrev cfg : PluginConfig
cfg = record {
  bucket = codes "b";
  prefix = codes "telemetry";
  region = codes "us-east-1";
  endpoint = [];
}

abbrev noon : Moment
noon = record {
  year = 2025;
  month = 1;
  day = 2;
  unix_milli = 1735819200000;
  rfc3339 = codes "2025-01-02T12:00:00Z";
}

abbrev later : Moment
later = record noon { unix_milli = 1735819200007 }

abbrev marshal_indent : List Fields → Bool × Text
marshal_indent documents = (true, codes "[]")

abbrev store : PutObject → Option Text
store put = none

abbrev batch : List Text
batch = codes "ann" ∷ codes "bob" ∷ []

keys_agree_example :
    (object_key (codes "telemetry") (codes "k") (codes "game") noon
      ≡ object_key (codes "telemetry") (codes "k") (codes "game") later)
    ↔ ((codes "game" ≡ codes "game") × SameTime noon later)
keys_agree_example =
    keys_agree (codes "telemetry") (codes "k") (codes "game") (codes "game") noon later refl refl
