-- ===== src/Processor/Shutdown/Losses.antt =====
-- What `Shutdown` of pkg/processor/processor.go hands to the plugins, and what it leaves when the
-- timeout cuts it off.
use extend_game_telemetry_co.Prelude.{
  ℕ, ◌+◌, ◌≤◌, ◌<◌, ◌≡◌, refl, ap, ◌∙◌, Bool, true, false, List, [], ◌∷◌, arith, length,
  total-eq-zero, count, concat, Each, ◌&&◌,
}
use extend_game_telemetry_co.Processor.{
  Processor, entered, finished, refused, receive, leave, timer_expires, timer_fires, refuse, enter,
  close_input, cancel, dedup_changes,
}
use extend_game_telemetry_co.Processor.Batcher.{add, flush, expire, fire}
use extend_game_telemetry_co.Processor.Closed.{accepts_nothing}
use extend_game_telemetry_co.Processor.FanOut.{Slot, UpToDate, count-deliveries}
use extend_game_telemetry_co.Processor.Invariant.{Inv, held}
use extend_game_telemetry_co.Processor.Safety.{
  Reachable, Reachable-Inv, Reach-Inv, Step-Inv, AllExited, graceful_shutdown,
}
use extend_game_telemetry_co.Processor.Shutdown.{
  Shutdown, completed, timed_out, completes, times_out,
}
use extend_game_telemetry_co.Processor.Steps.{
  Step, receives, leaves_closed, leaves_cancelled, expires, fires, enters, advances, refuses,
  closes, cancels, changes, Reach, here, later, continued,
}
use extend_game_telemetry_co.Processor.Untouched.{set_caller-Kept, advance-Kept, settle-Settled}

module _ {D T : Type 0} where
  -- The capacity of the channel stays.
  abbrev Sized : ℕ → Processor D T → Type 0
  Sized cap p = (p.input_chan.closed ≡ true) × (p.input_chan.cap ≡ cap)

  Step-Sized : (cap : ℕ) {p q : Processor D T} → Step p q → Sized cap p → q.input_chan.cap ≡ cap
  unfolding receive leave timer_expires timer_fires enter refuse close_input cancel dedup_changes
  Step-Sized cap {p} (receives i event rest lt up has) h =
      ap (λ c. c.cap)
        (settle-Settled i (p.pool i).exited (add (p.pool i).batcher event)
          (record p { input_chan = record p.input_chan { buf = rest } })).input_chan
      ∙ h.1
  Step-Sized cap {p} (leaves_closed i lt up none_left closed) h =
      ap (λ c. c.cap) (settle-Settled i true (flush (p.pool i).batcher) p).input_chan ∙ h.1
  Step-Sized cap {p} (leaves_cancelled i lt up cancelled) h =
      ap (λ c. c.cap) (settle-Settled i true (flush (p.pool i).batcher) p).input_chan ∙ h.1
  Step-Sized cap {p} (expires i lt) h =
      ap (λ c. c.cap)
        (settle-Settled i (p.pool i).exited (expire (p.pool i).batcher, []) p).input_chan
      ∙ h.1
  Step-Sized cap {p} (fires i lt) h =
      ap (λ c. c.cap) (settle-Settled i (p.pool i).exited (fire (p.pool i).batcher) p).input_chan
      ∙ h.1
  Step-Sized cap {p} (enters j event free) h =
      ap (λ c. c.cap) (set_caller-Kept j (entered event) p).input_chan ∙ h.1
  Step-Sized cap {p} (advances now j) h =
      ap (λ c. c.cap) (advance-Kept now j p h.0).input_chan ∙ h.1
  Step-Sized cap {p} (refuses j event waits cancelled) h =
      ap (λ c. c.cap) (set_caller-Kept j (finished refused) p).input_chan ∙ h.1
  Step-Sized cap (closes open_chan) h = h.1
  Step-Sized cap (cancels closed) h = h.1
  Step-Sized cap (changes d) h = h.1

  Reach-Sized :
      {p q : Processor D T}
      → Reach p q
      → p.input_chan.closed ≡ true
      → q.input_chan.cap ≡ p.input_chan.cap
  Reach-Sized here closed = refl
  Reach-Sized {p} (later {q} r s) closed =
      Step-Sized p.input_chan.cap s ((accepts_nothing p q r closed).0, Reach-Sized r closed)

  -- When all workers have returned, each accepted event is in the channel or was handed on.
  exited-count :
      {q : Processor D T}
      → Inv q
      → AllExited q
      → (t : T → Bool) → count t q.accepted ≡ count t q.input_chan.buf + count t (concat q.flushed)
  exited-count {q} h gone t = omega (
    arith,
    h.conserved t,
    total-eq-zero (held t) q.workers q.pool (λ i lt. ap (count t) (h.left i lt (gone i lt)).0),
  )

  written-count :
      (q : Processor D T) (t : T → Bool)
      → ((u : T → Bool)
          → count u q.accepted ≡ count u q.input_chan.buf + count u (concat q.flushed))
      → (ss : List (Slot T)) → Each (UpToDate q.flushed) ss
      → Each
          (λ s.
            count t (concat s.written) + count (λ x. s.plugin.filter x && t x) q.input_chan.buf
            ≡ count (λ x. s.plugin.filter x && t x) q.accepted)
          ss
  written-count q t balance [] h = tt
  written-count q t balance (s ∷ ss) h = (
    omega (
      arith,
      ap (λ xs. count t (concat xs)) h.0,
      count-deliveries t s.plugin.filter q.flushed,
      balance (λ x. s.plugin.filter x && t x),
    ),
    written-count q t balance ss h.1,
  )

  pub completed-Reachable :
      {p q : Processor D T} → Reachable p → Shutdown p completed q → Reachable q
  completed-Reachable r (completes open_chan run same gone) = record {
    limits = r.limits;
    config = r.config;
    plugins = r.plugins;
    dedup = r.dedup;
    dedup_state = r.dedup_state;
    first = r.first;
    starts = r.starts;
    steps = continued (later r.steps (closes open_chan)) run;
  }

  pub completed-live :
      {p q : Processor D T}
      → Shutdown p completed q
      → p.cancelled ≡ false
      → (q.cancelled ≡ false) × AllExited q
  completed-live (completes open_chan run same gone) live = (same ∙ live, gone)

  -- A `Shutdown` that returns nil has handed over everything. When it is called in a reachable state of a
  -- processor whose context was not cancelled, and returns nil in a state with at least one worker:
  -- nothing was accepted after the call, the channel is empty, and each plugin's `WriteBatch` calls
  -- hold each accepted event that passes the plugin's filter as often as it was accepted.
  pub completed_shutdown :
      {p q : Processor D T}
      → Reachable p
      → Shutdown p completed q
      → p.cancelled ≡ false
      → 0 < q.workers
      → (q.accepted ≡ p.accepted)
        × (q.input_chan.buf ≡ [])
        × ((t : T → Bool)
            → Each
                (λ s. count t (concat s.written) ≡ count (λ x. s.plugin.filter x && t x) q.accepted)
                q.plugins)
  unfolding close_input
  completed_shutdown {p} {q} r (completes open_chan run same gone) live some_worker =
      let reachable = completed-Reachable r (completes open_chan run same gone) in
      let h = Reachable-Inv reachable in
      let done = graceful_shutdown reachable some_worker gone (same ∙ live) in
      (
        (accepts_nothing (close_input p) q run refl).1,
        ground (arith, h.left 0 some_worker (gone 0 some_worker), same, live),
        done,
      )

  -- A `Shutdown` that times out leaves out what the channel holds. When it was called in a reachable
  -- state, and all workers have returned in some later state: nothing was accepted after the call; for
  -- each plugin, the events that its `WriteBatch` was called with and those left in the channel are
  -- together the accepted events that pass its filter (counted by any test); and no more is left in
  -- the channel than its capacity. What the backends make of the calls after the timeout, whose
  -- context is done, is not said.
  pub timed_out_shutdown :
      {p q r : Processor D T}
      → Reachable p
      → Shutdown p timed_out q
      → Reach q r
      → AllExited r
      → (r.accepted ≡ p.accepted)
        × (length r.input_chan.buf ≤ p.input_chan.cap)
        × ((t : T → Bool)
            → Each
                (λ s.
                  count t (concat s.written)
                    + count (λ x. s.plugin.filter x && t x) r.input_chan.buf
                  ≡ count (λ x. s.plugin.filter x && t x) r.accepted)
                r.plugins)
  unfolding close_input
  timed_out_shutdown {p} {q} {r} reachable (times_out {q = late} open_chan run same) rest gone =
      let closed_run : Reach (close_input p) r =
        continued (later run (cancels (accepts_nothing (close_input p) late run refl).0)) rest in
      let h = Reach-Inv (Step-Inv (closes open_chan) (Reachable-Inv reachable)) closed_run in
      (
        (accepts_nothing (close_input p) r closed_run refl).1,
        omega (arith, h.bounded, Reach-Sized closed_run refl),
        λ t. written-count r t (exited-count h gone) r.plugins h.delivered,
      )
