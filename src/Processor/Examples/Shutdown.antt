-- ===== src/Processor/Examples/Shutdown.antt =====
-- A shutdown of the processor of the parent, which holds two events, and two plugins written to in
-- either order.
use extend_game_telemetry_co.Prelude.{
  ℕ, inr, ◌+◌, ◌≤◌, ◌<◌, ◌≡◌, refl, Bool, true, false, [], ◌∷◌, none, arith, ◌&&◌, count, concat,
  Each,
}
use extend_game_telemetry_co.Processor.Batcher.{add, flush}
use extend_game_telemetry_co.Processor.Steps.{enters, Reach, here, later, receives, closes}
use extend_game_telemetry_co.Processor.{
  Processor, queued, process_batches, receive, leave, advance, enter, close_input,
}
use extend_game_telemetry_co.Processor.Drain.{remaining, work, work_bounded}
use extend_game_telemetry_co.Processor.Drain.Progress.{shutdown_completes}
use extend_game_telemetry_co.Processor.Quiet.{quiet_after_shutdown}
use extend_game_telemetry_co.Processor.Safety.{Reachable, AllExited}
use extend_game_telemetry_co.Processor.Examples.{
  limits, above, config, first, first_starts, sent, sent-Reach, stopped, stopped_reachable,
  stopped-AllExited,
}

abbrev closing : Processor (Unit {0}) ℕ
closing = close_input sent

closing_closed : closing.input_chan.closed ≡ true
unfolding close_input
closing_closed = refl

closing_live : closing.cancelled ≡ false
unfolding enter advance close_input
closing_live = refl

closing_workers : 0 < closing.workers
unfolding enter advance close_input
closing_workers = omega arith

sent_open : sent.input_chan.closed ≡ false
unfolding enter advance
sent_open = refl

abbrev closing_reachable : Reachable closing
closing_reachable = record {
  limits = limits;
  config = config;
  plugins = above ∷ [];
  dedup = none;
  dedup_state = tt;
  first = first;
  starts = first_starts;
  steps = later sent-Reach (closes sent_open);
}

abbrev received : Processor (Unit {0}) ℕ
received = receive 0 5 (3 ∷ []) closing

received-Reach : Reach closing received
unfolding enter advance close_input
received-Reach = later here (receives 0 5 (3 ∷ []) (omega arith) refl refl)

work_bounded_example : remaining received + work received-Reach ≤ remaining closing
work_bounded_example = work_bounded received-Reach closing_closed

shutdown_completes_example :
    (q : Processor (Unit {0}) ℕ) × (run : Reach closing q) × (work run ≡ remaining closing)
    × AllExited q
    × (q.accepted ≡ closing.accepted)
    × ((t : ℕ → Bool)
        → Each
            (λ s. count t (concat s.written) ≡ count (λ x. s.plugin.filter x && t x) q.accepted)
            q.plugins)
shutdown_completes_example =
    shutdown_completes closing_reachable closing_closed closing_live closing_workers

stopped_closed : stopped.input_chan.closed ≡ true
unfolding enter advance receive add leave flush close_input process_batches
stopped_closed = refl

late_calls : Reach stopped (enter 1 9 (enter 0 8 stopped))
unfolding enter advance receive add leave flush close_input process_batches
late_calls = later (later here (enters 0 8 (inr (queued, refl)))) (enters 1 9 (inr (queued, refl)))

quiet_after_shutdown_example : (enter 1 9 (enter 0 8 stopped)).plugins ≡ stopped.plugins
quiet_after_shutdown_example =
    quiet_after_shutdown stopped_reachable stopped_closed stopped-AllExited late_calls
