-- ===== src/Events.antt =====
-- pkg/events: the events in memory, and the maps that they are turned into for storage.
pub mod Colons
pub mod StatItemUpdated
pub mod OauthTokenGenerated
pub mod Keys
pub mod Documents
mod Examples
use extend_game_telemetry_co.Prelude.{
  ℕ, ◌≡◌, refl, Bool, true, false, Text, text_eq, ℤ, if◌then◌else◌, text_eq_iff, text_eq_refl,
  arith,
}

-- A float64 is its bit pattern.
abbrev pub Float64 : Type 0
Float64 = ℕ

-- The values that stand in a `map[string]interface{}`: `null` is nil. A Go map has no order and no
-- key twice; `Fields` keeps the order in which the program sets the keys.
mutual
  pub data Value : Type 0 where
    null : Value
    str : Text → Value
    int : ℤ → Value
    float : Float64 → Value
    boolean : Bool → Value
    array : Values → Value
    object : Fields → Value

  pub data Values : Type 0 where
    no_value : Values
    value : Value → Values → Values

  pub data Fields : Type 0 where
    end : Fields
    field : Text → Value → Fields → Fields

-- `doc[key]`: nil for a key that is not there.
unfoldable pub get : Text → Fields → Value
get key end = null
get key (field k v rest) = if text_eq k key then v else get key rest

-- `_, ok := doc[key]`
unfoldable pub has : Text → Fields → Bool
has key end = false
has key (field k v rest) = if text_eq k key then true else has key rest

-- `doc[key] = v`
unfoldable pub put : Text → Value → Fields → Fields
put key v end = field key v end
put key v (field k w rest) = if text_eq k key then field key v rest else field k w (put key v rest)

pub get-put :
    (key k : Text) (v : Value) (doc : Fields)
    → get k (put key v doc) ≡ (if text_eq key k then v else get k doc)
unfolding get put
get-put key k v end = refl
get-put key k v (field j w rest) =
    ground (arith, text_eq_iff key k, text_eq_iff j key, text_eq_iff j k, get-put key k v rest)
