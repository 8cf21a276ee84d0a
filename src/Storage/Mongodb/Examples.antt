-- ===== src/Storage/Mongodb/Examples.antt =====
-- A collection that takes half of a batch, and a document with a payload.
use extend_game_telemetry_co.Prelude.{◌≡◌, refl, List, Option, some, Text, codes, pos, text_eq}
use extend_game_telemetry_co.Events.{Value, str, int, object, Fields, field, end, get, has, put}
use extend_game_telemetry_co.Storage.{Stored}
use extend_game_telemetry_co.Storage.Mongodb.{
  InsertResult, partial, transform, flattened, reencode, set_payload, stamped, put_all,
}

abbrev document : Text → Fields
document user = field (codes "user_id") (str user) (field (codes "payload") (object end) end)

abbrev named : Stored Text
named = record {
  to_document = document;
  user_id = λ e. e;
  namespace = λ e. codes "game";
  server_timestamp = λ e. pos 1735787045000;
}

abbrev marshal : Value → Option Text
marshal v = some (codes "{}")

abbrev unmarshal : Text → Option Fields
unmarshal text = some end

abbrev now : Value
now = int (pos 1735787045000)

abbrev insert_many : List Fields → InsertResult
insert_many documents = partial (some 1) (codes "duplicate key")

abbrev stored_document : Fields
stored_document =
    field (codes "created_at") now
      (field (codes "user_id") (str (codes "ann")) (field (codes "payload") (object end) end))

converted : transform marshal unmarshal now named (codes "ann") ≡ some stored_document
unfolding transform flattened reencode set_payload stamped put_all get has put text_eq
converted = refl
