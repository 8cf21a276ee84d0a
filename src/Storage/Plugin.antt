-- ===== src/Storage/Plugin.antt =====
-- pkg/storage/plugin.go: the interface of the storage plugins, with the calls of their backends.
use extend_game_telemetry_co.Prelude.{◌≡◌, Bool, true, List, [], Option, none, some, Text, ℤ, pos}

-- `StoragePlugin[T]`, for events `E` and a backend with calls `C`. `initialize` says whether the
-- plugin holds its connection afterwards, and `close` is told so; `write_batch` and `health_check`
-- are those of a plugin that holds it. An error is its text.
pub record StoragePlugin (E C : Type 0) : Type 0 where
  pub name : Text
  pub initialize : List C × (Bool × Option Text)
  pub filter : E → Bool
  pub write_batch : List E → List C × (ℤ × Option Text)
  pub close : Bool → List C × Option Text
  pub health_check : Option Text

-- The text of an error, if there is one.
abbrev pub texts : {R : Type 0} → (R → Text) → Option R → Option Text
texts error_text none = none
texts error_text (some e) = some (error_text e)

-- What the repository's plugins have in common: they take every event, and do nothing for an
-- empty batch.
pub record TakesAll {E C : Type 0} (plugin : StoragePlugin E C) : Type 0 where
  pub filter : (e : E) → plugin.filter e ≡ true
  pub write_batch : plugin.write_batch [] ≡ ([], (pos 0, none))
