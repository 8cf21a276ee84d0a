-- ===== src/Processor/Quiet.antt =====
-- What still runs in pkg/processor/processor.go when `Shutdown` has returned nil: callers of `Submit`
-- and timers of the batchers, but nothing that writes to a plugin.
use extend_game_telemetry_co.Prelude.{ℕ, ◌<◌, ◌≡◌, refl, ap, ◌∙◌, true, List, [], arith}
use extend_game_telemetry_co.Processor.FanOut.{Slot}
use extend_game_telemetry_co.Processor.Batcher.{Batcher, expire, fire}
use extend_game_telemetry_co.Processor.Batcher.Contents.{expire-contents, fire-empty, fire-nothing}
use extend_game_telemetry_co.Processor.{
  Processor, entered, timer_expires, timer_fires, settle, set_worker, process_batches, refuse,
  enter, close_input, cancel, dedup_changes,
}
use extend_game_telemetry_co.Processor.Untouched.{Kept, set_caller-Kept, advance-Kept}
use extend_game_telemetry_co.Processor.Steps.{
  Step, receives, leaves_closed, leaves_cancelled, expires, fires, enters, advances, refuses,
  closes, cancels, changes, Reach, here, later,
}
use extend_game_telemetry_co.Processor.Safety.{Reachable, Reachable-Inv, AllExited}

module _ {D T : Type 0} where
  -- The channel is closed, the plugins are as given, and all workers have returned with an empty
  -- batch.
  record Quiet (slots : List (Slot T)) (p : Processor D T) : Type 0 where
    closed : p.input_chan.closed ≡ true
    plugins : p.plugins ≡ slots
    idle : (i : ℕ) → i < p.workers → ((p.pool i).exited ≡ true) × ((p.pool i).batcher.events ≡ [])

  Kept-Quiet :
      (slots : List (Slot T)) {p q : Processor D T} → Kept p q → Quiet slots p → Quiet slots q
  Kept-Quiet slots {p} {q} k h = record {
    closed = ap (λ c. c.closed) k.input_chan ∙ h.closed;
    plugins = k.plugins ∙ h.plugins;
    idle = λ i lt. rw k.pool (h.idle i (omega (arith, k.workers)));
  }

  -- A batcher that hands nothing out and stays empty.
  settle-Quiet :
      (slots : List (Slot T)) (i : ℕ) (b : Batcher T) (batches : List (List T)) (p : Processor D T)
      → i < p.workers
      → batches ≡ []
      → b.events ≡ []
      → Quiet slots p
      → Quiet slots (settle i (p.pool i).exited (b, batches) p)
  unfolding settle set_worker process_batches
  settle-Quiet slots i b batches p lt nothing none_left h = rw nothing (record {
    closed = h.closed;
    plugins = h.plugins;
    idle = λ k k_lt. ground (arith, (h.idle i lt).0, h.idle k k_lt, none_left);
  })

  Step-Quiet :
      (slots : List (Slot T)) {p q : Processor D T} → Step p q → Quiet slots p → Quiet slots q
  unfolding timer_expires timer_fires enter refuse close_input cancel dedup_changes
  Step-Quiet slots (receives i event rest lt up has) h = ground (arith, (h.idle i lt).0, up)
  Step-Quiet slots (leaves_closed i lt up none_left closed) h = ground (arith, (h.idle i lt).0, up)
  Step-Quiet slots (leaves_cancelled i lt up cancelled) h = ground (arith, (h.idle i lt).0, up)
  Step-Quiet slots {p} (expires i lt) h =
      settle-Quiet slots i (expire (p.pool i).batcher) [] p lt refl
        (expire-contents (p.pool i).batcher ∙ (h.idle i lt).1) h
  Step-Quiet slots {p} (fires i lt) h =
      let b = (p.pool i).batcher in
      settle-Quiet slots i (fire b).0 (fire b).1 p lt (fire-nothing b (h.idle i lt).1)
        (fire-empty b (h.idle i lt).1) h
  Step-Quiet slots {p} (enters j event free) h =
      Kept-Quiet slots (set_caller-Kept j (entered event) p) h
  Step-Quiet slots {p} (advances now j) h = Kept-Quiet slots (advance-Kept now j p h.closed) h
  Step-Quiet slots {p} (refuses j event waits cancelled) h = record {
    closed = h.closed;
    plugins = h.plugins;
    idle = h.idle;
  }
  Step-Quiet slots (closes open_chan) h = record {
    closed = refl;
    plugins = h.plugins;
    idle = h.idle;
  }
  Step-Quiet slots (cancels closed) h = record {
    closed = h.closed;
    plugins = h.plugins;
    idle = h.idle;
  }
  Step-Quiet slots (changes d) h = record { closed = h.closed; plugins = h.plugins; idle = h.idle }

  Reach-Quiet :
      (slots : List (Slot T)) {p q : Processor D T} → Reach p q → Quiet slots p → Quiet slots q
  Reach-Quiet slots here h = h
  Reach-Quiet slots (later r s) h = Step-Quiet slots s (Reach-Quiet slots r h)

  -- After the shutdown no plugin is written to. From a reachable state with the channel closed
  -- and all workers returned, whatever timers expire and whatever calls of `Submit` go on, in any
  -- order: no plugin gets a further `WriteBatch` call, so it may be closed.
  pub quiet_after_shutdown :
      {p q : Processor D T}
      → Reachable p
      → p.input_chan.closed ≡ true
      → AllExited p
      → Reach p q
      → q.plugins ≡ p.plugins
  quiet_after_shutdown {p} r closed gone run =
      (Reach-Quiet p.plugins run (record {
        closed = closed;
        plugins = refl;
        idle = λ i lt. (gone i lt, ((Reachable-Inv r).left i lt (gone i lt)).0);
      })).plugins
