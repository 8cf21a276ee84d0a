-- ===== src/Storage/Retry/Examples.antt =====
-- Delays that double, as the default policy means it.
use extend_game_telemetry_co.Prelude.{◌*◌, ◌≡◌, refl, ℤ, pos, negsuc}
use extend_game_telemetry_co.Events.{Float64}
use extend_game_telemetry_co.Storage.Retry.{default_retry_policy, next_backoff, back_off}

abbrev double : ℤ → Float64 → ℤ
double (pos n) multiplier = pos (n * 2)
double (negsuc n) multiplier = negsuc n

third_delay : next_backoff double default_retry_policy (pos 2) ≡ pos 400000000
unfolding next_backoff back_off
third_delay = refl
