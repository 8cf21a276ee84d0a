-- ===== src/Events/OauthTokenGenerated.antt =====
-- pkg/events/oauth_token_generated.go
use extend_game_telemetry_co.Prelude.{Option, [], none, some, Text, codes, ℤ}
use extend_game_telemetry_co.Events.Colons.{◌:+◌}
use extend_game_telemetry_co.Events.{Value, str, int, object, Fields, end, field, put}

pub record OauthPayload : Type 0 where
  pub client_id : Text
  pub response_type : Text
  pub platform_id : Text

pub record OauthTokenGeneratedEvent : Type 0 where
  pub id : Text
  pub version : ℤ
  pub namespace : Text
  pub name : Text
  pub user_id : Text
  pub session_id : Text
  pub trace_id : Text
  pub timestamp : Text
  pub server_timestamp : ℤ
  pub payload : Option OauthPayload

unfoldable pub client_id_of : Option OauthPayload → Text
client_id_of none = []
client_id_of (some p) = p.client_id

unfoldable pub deduplication_key : OauthTokenGeneratedEvent → Text
unfolding client_id_of
deduplication_key e =
    codes "oauth_token_generated"
    :+ e.namespace
    :+ e.user_id
    :+ e.timestamp
    :+ client_id_of e.payload

payload_document : OauthPayload → Value
payload_document p = object (
    field (codes "client_id") (str p.client_id) (
      field (codes "response_type") (str p.response_type)
        (field (codes "platform_id") (str p.platform_id) end)))

envelope : OauthTokenGeneratedEvent → Fields
envelope e = field (codes "kind") (str (codes "oauth_token_generated")) (
    field (codes "namespace") (str e.namespace) (
      field (codes "user_id") (str e.user_id) (
        field (codes "server_timestamp") (int e.server_timestamp) (
          field (codes "event_id") (str e.id) (
            field (codes "event_name") (str e.name) (
              field (codes "version") (int e.version) (
                field (codes "timestamp") (str e.timestamp) (
                  field (codes "session_id") (str e.session_id)
                    (field (codes "trace_id") (str e.trace_id) end)))))))))

with_payload : Option OauthPayload → Fields → Fields
unfolding payload_document
with_payload none doc = doc
with_payload (some p) doc = put (codes "payload") (payload_document p) doc

unfoldable pub to_document : OauthTokenGeneratedEvent → Fields
unfolding envelope with_payload
to_document e = with_payload e.payload (envelope e)
