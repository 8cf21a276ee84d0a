-- ===== src/Processor/Examples/Timeout.antt =====
-- Calls of `Shutdown` on the processor of the parent, which holds two events: one completes, and one
-- times out while the worker holds the first event.
use extend_game_telemetry_co.Prelude.{
  ℕ, zero, suc, ◌+◌, ◌≤◌, ◌≡◌, refl, Bool, true, false, [], ◌∷◌, arith, ◌&&◌, count, concat, length,
  Each,
}
use extend_game_telemetry_co.Processor.Batcher.{add, flush}
use extend_game_telemetry_co.Processor.Examples.{sent, sent_reachable}
use extend_game_telemetry_co.Processor.Steps.{
  Reach, here, later, receives, leaves_closed, leaves_cancelled,
}
use extend_game_telemetry_co.Processor.{
  Processor, process_batches, receive, leave, advance, enter, close_input, cancel,
}
use extend_game_telemetry_co.Processor.Safety.{AllExited}
use extend_game_telemetry_co.Processor.Shutdown.{
  Shutdown, completed, timed_out, completes, times_out,
}
use extend_game_telemetry_co.Processor.Shutdown.Losses.{completed_shutdown, timed_out_shutdown}

abbrev closing : Processor (Unit {0}) ℕ
closing = close_input sent

abbrev taken : Processor (Unit {0}) ℕ
taken = receive 0 5 (3 ∷ []) closing

taken-Reach : Reach closing taken
unfolding enter advance close_input
taken-Reach = later here (receives 0 5 (3 ∷ []) (omega arith) refl refl)

sent_open : sent.input_chan.closed ≡ false
unfolding enter advance
sent_open = refl

abbrev drained : Processor (Unit {0}) ℕ
drained = leave 0 (receive 0 3 [] taken)

drained-Reach : Reach closing drained
unfolding enter advance receive add close_input process_batches
drained-Reach =
    later (later taken-Reach (receives 0 3 [] (omega arith) refl refl))
      (leaves_closed 0 (omega arith) refl refl refl)

one_exited : (p : Processor (Unit {0}) ℕ) → p.workers ≡ 1 → (p.pool 0).exited ≡ true → AllExited p
one_exited p one gone zero lt = gone
one_exited p one gone (suc i) lt = absurd (omega arith)

drained_state :
    (drained.workers ≡ 1)
    × ((drained.pool 0).exited ≡ true)
    × (drained.cancelled ≡ sent.cancelled)
    × (sent.cancelled ≡ false)
unfolding enter advance receive add leave flush close_input process_batches
drained_state = (refl, refl, refl, refl)

drained-Shutdown : Shutdown sent completed drained
drained-Shutdown =
    completes sent_open drained-Reach drained_state.2
      (one_exited drained drained_state.0 drained_state.1)

completed_shutdown_example :
    (drained.accepted ≡ sent.accepted)
    × (drained.input_chan.buf ≡ [])
    × ((t : ℕ → Bool)
        → Each
            (λ s.
              count t (concat s.written) ≡ count (λ x. s.plugin.filter x && t x) drained.accepted)
            drained.plugins)
completed_shutdown_example =
    completed_shutdown sent_reachable drained-Shutdown drained_state.3
      (omega (arith, drained_state.0))

taken_state :
    (taken.workers ≡ 1)
    × (taken.cancelled ≡ sent.cancelled)
    × ((taken.pool 0).exited ≡ false)
    × ((taken.pool 0).batcher.events ≡ 5 ∷ [])
unfolding enter advance receive add close_input process_batches
taken_state = (refl, refl, refl, refl)

cut_off-Shutdown : Shutdown sent timed_out (cancel taken)
cut_off-Shutdown = times_out sent_open taken-Reach taken_state.1

abbrev gone : Processor (Unit {0}) ℕ
gone = leave 0 (cancel taken)

gone-Reach : Reach (cancel taken) gone
unfolding enter advance receive add close_input process_batches cancel
gone-Reach = later here (leaves_cancelled 0 (omega arith) refl refl)

gone_state : (gone.workers ≡ 1) × ((gone.pool 0).exited ≡ true) × (gone.input_chan.buf ≡ 3 ∷ [])
unfolding enter advance receive add leave flush close_input process_batches cancel
gone_state = (refl, refl, refl)

timed_out_shutdown_example :
    (gone.accepted ≡ sent.accepted)
    × (length gone.input_chan.buf ≤ sent.input_chan.cap)
    × ((t : ℕ → Bool)
        → Each
            (λ s.
              count t (concat s.written) + count (λ x. s.plugin.filter x && t x) gone.input_chan.buf
              ≡ count (λ x. s.plugin.filter x && t x) gone.accepted)
            gone.plugins)
timed_out_shutdown_example =
    timed_out_shutdown sent_reachable cut_off-Shutdown gone-Reach
      (one_exited gone gone_state.0 gone_state.1)
