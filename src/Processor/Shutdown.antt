-- ===== src/Processor/Shutdown.antt =====
-- `Shutdown` of pkg/processor/processor.go as a whole: from the close of the channel, over whatever
-- the goroutines do meanwhile, to the return.
pub mod Losses
use extend_game_telemetry_co.Prelude.{◌≡◌, true, false, Option, none, some, Text, codes}
use extend_game_telemetry_co.Processor.{Processor, close_input, cancel}
use extend_game_telemetry_co.Processor.Steps.{Reach}
use extend_game_telemetry_co.Processor.Safety.{AllExited}

-- How the call ends: all workers were done, the timeout came first, or `close` panicked, since the
-- channel was closed already.
pub data Ending : Type 0 where
  completed timed_out panics : Ending

-- What a call that returns gives back.
pub error_of : Ending → Option Text
error_of completed = none
error_of timed_out = some (codes "shutdown timeout exceeded")
error_of panics = none

-- `Shutdown p e q`: a call in the state `p` ends in the state `q`. Only `Shutdown` cancels the
-- context, so the context is as before when one of the two cases of the `select` runs. When both can
-- run, either may.
pub data Shutdown {D T : Type 0} (p : Processor D T) : Ending → Processor D T → Type 0 where
  completes :
      {q : Processor D T}
      → p.input_chan.closed ≡ false
      → Reach (close_input p) q
      → q.cancelled ≡ p.cancelled
      → AllExited q
      → Shutdown p completed q
  times_out :
      {q : Processor D T}
      → p.input_chan.closed ≡ false
      → Reach (close_input p) q
      → q.cancelled ≡ p.cancelled
      → Shutdown p timed_out (cancel q)
  closed_before : p.input_chan.closed ≡ true → Shutdown p panics p
