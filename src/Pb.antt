-- ===== src/Pb.antt =====
-- The messages of pkg/pb that the services read, with the getters that they call. The internal
-- fields of the protobuf runtime are left out.
use extend_game_telemetry_co.Prelude.{Bool, false, Option, none, some, [], Text, ℤ}
use extend_game_telemetry_co.Events.{Float64}

-- `Struct` stands for `structpb.Struct` of the protobuf library.
pub record StatItem (Struct : Type 0) : Type 0 where
  pub namespace : Text
  pub stat_code : Text
  pub user_id : Text
  pub latest_value : Float64
  pub inc : Float64
  pub additional_data : Option Struct
  pub ignore_additional_data_on_value_rejected : Bool
  pub default_value : Float64
  pub request_value : Float64
  pub update_strategy : Text

-- The getters of a message, which may be nil.
module _ {Struct : Type 0} where
  unfoldable pub get_stat_code : Option (StatItem Struct) → Text
  get_stat_code none = []
  get_stat_code (some x) = x.stat_code

  unfoldable pub get_user_id : Option (StatItem Struct) → Text
  get_user_id none = []
  get_user_id (some x) = x.user_id

  unfoldable pub get_latest_value : Option (StatItem Struct) → Float64
  get_latest_value none = 0
  get_latest_value (some x) = x.latest_value

  unfoldable pub get_inc : Option (StatItem Struct) → Float64
  get_inc none = 0
  get_inc (some x) = x.inc

  unfoldable pub get_additional_data : Option (StatItem Struct) → Option Struct
  get_additional_data none = none
  get_additional_data (some x) = x.additional_data

  unfoldable pub get_ignore_additional_data_on_value_rejected : Option (StatItem Struct) → Bool
  get_ignore_additional_data_on_value_rejected none = false
  get_ignore_additional_data_on_value_rejected (some x) = x.ignore_additional_data_on_value_rejected

  unfoldable pub get_default_value : Option (StatItem Struct) → Float64
  get_default_value none = 0
  get_default_value (some x) = x.default_value

  unfoldable pub get_request_value : Option (StatItem Struct) → Float64
  get_request_value none = 0
  get_request_value (some x) = x.request_value

  unfoldable pub get_update_strategy : Option (StatItem Struct) → Text
  get_update_strategy none = []
  get_update_strategy (some x) = x.update_strategy

pub record StatItemUpdated (Struct : Type 0) : Type 0 where
  pub payload : Option (StatItem Struct)
  pub id : Text
  pub version : ℤ
  pub name : Text
  pub namespace : Text
  pub parent_namespace : Text
  pub timestamp : Text
  pub client_id : Text
  pub user_id : Text
  pub session_id : Text

pub record Oauth : Type 0 where
  pub client_id : Text
  pub response_type : Text
  pub platform_id : Text

pub record OauthTokenGeneratedPayloadData : Type 0 where
  pub oauth : Option Oauth

pub record OauthTokenGenerated : Type 0 where
  pub payload : Option OauthTokenGeneratedPayloadData
  pub id : Text
  pub version : ℤ
  pub name : Text
  pub namespace : Text
  pub parent_namespace : Text
  pub timestamp : Text
  pub client_id : Text
  pub user_id : Text
  pub trace_id : Text
  pub session_id : Text
