-- ===== src/Processor/Refines.antt =====
-- Every interleaving of pkg/processor/processor.go is a run of the abstract specification.
pub mod Effects
use extend_game_telemetry_co.Prelude.{
  ℤ, pos, negsuc, ℕ, zero, suc, ◌⊎◌, sym, ◌∙◌, true, false, List, [], ◌++◌, append-nil, Option,
  concat, Bool-cases, ltb, length,
}
use extend_game_telemetry_co.Processor.Bags.{Bag, bag, add_all, Spec}
use extend_game_telemetry_co.Processor.Batcher.{Batcher, Flushing, add, new_batcher}
use extend_game_telemetry_co.Processor.Invariant.{process_batches-Processed}
use extend_game_telemetry_co.Processor.{
  Processor, Worker, Caller, entered, fresh, sending, waiting, sent, count_received, finished, idle,
  receive, leave, timer_expires, timer_fires, settle, set_worker, set_caller, advance, advance_from,
  checked, check, mark_seen, try_send, enqueue, refuse, enter, close_input, cancel, dedup_changes,
}
use extend_game_telemetry_co.Processor.Steps.{
  Step, receives, leaves_closed, leaves_cancelled, expires, fires, enters, advances, refuses,
  closes, cancels, changes,
}
use extend_game_telemetry_co.Processor.Refines.Effects.{Handles, Accepts}

module _ {T : Type 0} where
  -- The events in the batchers of the first workers.
  held_events : ℕ → (ℕ → Worker T) → List T
  held_events zero pool = []
  held_events (suc n) pool = (pool n).batcher.events ++ held_events n pool

module _ {D T : Type 0} where
  -- Waiting are the events in the channel and in the batchers.
  pub abstracted : Processor D T → Spec T
  unfolding held_events
  abstracted p = record {
    waiting = bag (p.input_chan.buf ++ held_events p.workers p.pool);
    processed = bag (concat p.flushed);
  }
