-- ===== src/Events/StatItemUpdated.antt =====
-- pkg/events/stat_item_updated.go
use extend_game_telemetry_co.Prelude.{Bool, [], ◌++◌, Option, none, some, Text, codes, ℤ}
use extend_game_telemetry_co.Events.Colons.{◌:+◌}
use extend_game_telemetry_co.Events.{
  Float64, Value, str, int, float, boolean, object, Fields, end, field, put,
}

pub record StatItem : Type 0 where
  pub stat_code : Text
  pub user_id : Text
  pub latest_value : Float64
  pub inc : Float64
  pub additional_data : Fields
  pub ignore_additional_data_on_value_rejected : Bool
  pub default_value : Float64
  pub request_value : Float64
  pub update_strategy : Text

pub record StatItemUpdatedEvent : Type 0 where
  pub id : Text
  pub version : ℤ
  pub namespace : Text
  pub name : Text
  pub user_id : Text
  pub session_id : Text
  pub timestamp : Text
  pub server_timestamp : ℤ
  pub payload : Option StatItem

unfoldable pub stat_code_of : Option StatItem → Text
stat_code_of none = []
stat_code_of (some p) = p.stat_code

-- 0.0 has the bit pattern 0.
unfoldable pub latest_value_of : Option StatItem → Float64
latest_value_of none = 0
latest_value_of (some p) = p.latest_value

-- `show_float` is how package fmt prints a float64 under `%v`.
module _ (show_float : Float64 → Text) where
  -- The verb `%s` does not fit a float64: fmt prints `%!s(float64=…)`.
  unfoldable pub bad_verb : Float64 → Text
  bad_verb v = codes "%!s(float64=" ++ (show_float v ++ codes ")")

  unfoldable pub deduplication_key : StatItemUpdatedEvent → Text
  unfolding bad_verb stat_code_of latest_value_of
  deduplication_key e =
      codes "stat_item_updated"
      :+ e.namespace
      :+ e.user_id
      :+ e.timestamp
      :+ bad_verb (latest_value_of e.payload)
      :+ stat_code_of e.payload

payload_document : StatItem → Value
payload_document p = object (
    field (codes "stat_code") (str p.stat_code) (
      field (codes "user_id") (str p.user_id) (
        field (codes "latest_value") (float p.latest_value) (
          field (codes "inc") (float p.inc) (
            field (codes "additional_data") (object p.additional_data) (
              field (codes "ignore_additional_data_on_value_rejected")
                (boolean p.ignore_additional_data_on_value_rejected)
                (field (codes "default_value") (float p.default_value) (
                  field (codes "request_value") (float p.request_value)
                    (field (codes "update_strategy") (str p.update_strategy) end)))))))))

envelope : StatItemUpdatedEvent → Fields
envelope e = field (codes "kind") (str (codes "stat_item_updated")) (
    field (codes "namespace") (str e.namespace) (
      field (codes "user_id") (str e.user_id)
        (field (codes "server_timestamp") (int e.server_timestamp) end)))

-- Without a payload the event's own fields are left out too.
with_payload : Option StatItem → StatItemUpdatedEvent → Fields → Fields
unfolding payload_document
with_payload none e doc = doc
with_payload (some p) e doc = put (codes "payload") (payload_document p) (
    put (codes "session_id") (str e.session_id) (
      put (codes "timestamp") (str e.timestamp) (
        put (codes "version") (int e.version)
          (put (codes "event_name") (str e.name) (put (codes "event_id") (str e.id) doc)))))

unfoldable pub to_document : StatItemUpdatedEvent → Fields
unfolding envelope with_payload
to_document e = with_payload e.payload e (envelope e)
