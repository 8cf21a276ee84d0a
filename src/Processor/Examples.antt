-- ===== src/Processor/Examples.antt =====
-- A run of a processor with one worker, from the start to a graceful shutdown, and what the
-- theorems say of it.
mod Shutdown
mod Timeout
mod Duplicate
mod Shared
use extend_game_telemetry_co.Prelude.{
  ℕ, zero, suc, ◌+◌, ◌%◌, ◌^◌, ◌≤◌, ◌≡◌, refl, inl, Bool, true, false, [], ◌∷◌, none, some, arith,
  ltb, ◌&&◌, count, concat, length, total, Each, pos, codes,
}
use extend_game_telemetry_co.Processor.Batcher.{new_batcher, make_cap, add, flush}
use extend_game_telemetry_co.Processor.FanOut.{Plugin, deliveries}
use extend_game_telemetry_co.Processor.Steps.{
  Reach, here, later, receives, leaves_closed, enters, advances, closes,
}
use extend_game_telemetry_co.Processor.{
  Processor, Limits, Config, idle, sending, finished, panicked, start, receive, leave, enter,
  advance, close_input, process_batches,
}
use extend_game_telemetry_co.Processor.Invariant.{held}
use extend_game_telemetry_co.Processor.Closed.{accepts_nothing, late_send_panics}
use extend_game_telemetry_co.Processor.Safety.{
  Reachable, AllExited, events_conserved, graceful_shutdown,
}

abbrev pub limits : Limits
limits = record { chan_cap = λ n. ltb n 100; slice_cap = λ n. ltb n 100 }

abbrev pub config : Config
config = record {
  workers = pos 1;
  channel_buffer = pos 2;
  batch_size = pos 2;
  flush_interval = pos 5;
}

-- A plugin that takes the events above 4.
abbrev pub above : Plugin ℕ
above = record {
  name = codes "above";
  filter = λ e. ltb 4 e;
  write_batch = λ done _ b. (pos (length b), none);
}

abbrev pub first : Processor (Unit {0}) ℕ
first = record {
  workers = 1;
  input_chan = record { buf = []; cap = 2; closed = false };
  plugins = record { plugin = above; written = []; results = [] } ∷ [];
  deduplicator = none;
  dedup_state = tt;
  cancelled = false;
  events_received = 0;
  events_processed = 0;
  events_duplicated = 0;
  events_dropped = 0;
  pool = λ _. record {
    batcher = record {
      events = [];
      max_size = pos 2;
      max_wait = pos 5;
      timer = none;
      running = [];
      fired = 0;
      next_timer = 0;
    };
    exited = false;
  };
  callers = λ _. idle;
  accepted = [];
  flushed = [];
}

pub first_starts : start limits config (above ∷ []) none tt ≡ some first
unfolding start new_batcher make_cap
first_starts = refl

-- Two calls of `Submit`, the check (without a deduplicator), the send and the count of each.
abbrev pub sent : Processor (Unit {0}) ℕ
sent = advance 0 1 (
    advance 0 1
      (advance 0 1 (enter 1 3 (advance 0 0 (advance 0 0 (advance 0 0 (enter 0 5 first)))))))

abbrev drained : Processor (Unit {0}) ℕ
drained = receive 0 3 [] (receive 0 5 (3 ∷ []) sent)

abbrev pub stopped : Processor (Unit {0}) ℕ
stopped = leave 0 (close_input drained)

pub sent-Reach : Reach first sent
unfolding enter advance
sent-Reach =
    later
      (later
        (later
          (later
            (later
              (later (later (later here (enters 0 5 (inl refl))) (advances 0 0)) (advances 0 0))
              (advances 0 0))
            (enters 1 3 (inl refl)))
          (advances 0 1))
        (advances 0 1))
      (advances 0 1)

pub stopped-Reach : Reach first stopped
unfolding enter advance receive add close_input process_batches
stopped-Reach =
    later
      (later
        (later (later sent-Reach (receives 0 5 (3 ∷ []) (omega arith) refl refl))
          (receives 0 3 [] (omega arith) refl refl))
        (closes refl))
      (leaves_closed 0 (omega arith) refl refl refl)

abbrev pub sent_reachable : Reachable sent
sent_reachable = record {
  limits = limits;
  config = config;
  plugins = above ∷ [];
  dedup = none;
  dedup_state = tt;
  first = first;
  starts = first_starts;
  steps = sent-Reach;
}

abbrev pub stopped_reachable : Reachable stopped
stopped_reachable = record {
  limits = limits;
  config = config;
  plugins = above ∷ [];
  dedup = none;
  dedup_state = tt;
  first = first;
  starts = first_starts;
  steps = stopped-Reach;
}

events_conserved_example :
    count (λ e. ltb 4 e) sent.accepted
    ≡ count (λ e. ltb 4 e) sent.input_chan.buf
      + total (held (λ e. ltb 4 e)) sent.workers sent.pool
      + count (λ e. ltb 4 e) (concat sent.flushed)
events_conserved_example = events_conserved sent_reachable (λ e. ltb 4 e)

pub stopped-AllExited : AllExited stopped
unfolding enter advance receive add leave flush close_input process_batches
stopped-AllExited zero lt = refl
stopped-AllExited (suc i) lt = absurd (omega arith)

stopped_counts : (stopped.events_received ≡ 2) × (stopped.flushed ≡ (5 ∷ 3 ∷ []) ∷ [])
unfolding enter advance receive add leave flush close_input process_batches
stopped_counts = (refl, refl)

-- A caller is at its send when the channel is closed.
abbrev caught : Processor (Unit {0}) ℕ
caught = close_input (advance 0 2 (enter 2 9 first))

caught_sends : caught.callers 2 ≡ sending 9
unfolding enter advance close_input
caught_sends = refl

caught_closed : caught.input_chan.closed ≡ true
unfolding close_input
caught_closed = refl

late_send_panics_example : (advance 0 2 caught).callers 2 ≡ finished panicked
late_send_panics_example = late_send_panics caught caught 0 2 9 here caught_closed caught_sends
