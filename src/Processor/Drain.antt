-- ===== src/Processor/Drain.antt =====
-- The end of a shutdown in pkg/processor/processor.go: the workers drain the closed channel, and
-- return.
pub mod Progress
use extend_game_telemetry_co.Prelude.{
  ℕ, zero, suc, ◌+◌, ◌≤◌, ◌<◌, ◌≡◌, refl, sym, ap, ◌∙◌, Bool, true, false, List, [], ◌∷◌, arith,
  length, update, total, total-update, total-loaded, total-unloaded, if◌then◌else◌, inl, inr,
  Bool-cases, ◌⊎◌, List-cases, ◌==◌, Each, count, concat, ◌&&◌,
}
use extend_game_telemetry_co.Processor.Batcher.{Flushing, add, flush}
use extend_game_telemetry_co.Processor.{
  Processor, Worker, entered, finished, refused, receive, leave, timer_expires, timer_fires, settle,
  set_caller, advance, refuse, enter, close_input, cancel, dedup_changes,
}
use extend_game_telemetry_co.Processor.Invariant.{Inv, Holds, Stopped}
use extend_game_telemetry_co.Processor.Untouched.{
  Kept, Settled, set_caller-Kept, advance-Kept, settle-Settled, kept,
}
use extend_game_telemetry_co.Processor.Steps.{
  Step, receives, leaves_closed, leaves_cancelled, expires, fires, enters, advances, refuses,
  closes, cancels, changes, Reach, here, later,
}
use extend_game_telemetry_co.Processor.Closed.{accepts_nothing}
use extend_game_telemetry_co.Processor.Safety.{
  Step-Inv, Reachable, Reachable-Inv, AllExited, graceful_shutdown,
}

-- 1 for a worker that has not returned.
abbrev pub is_running : {T : Type 0} → Worker T → ℕ
is_running w = if w.exited then 0 else 1

module _ {D T : Type 0} where
  -- What the workers still have to do: the events in the channel, and their own return.
  pub remaining : Processor D T → ℕ
  remaining p = length p.input_chan.buf + total is_running p.workers p.pool

  -- The steps in which a worker takes an event or returns.
  pub is_work : {p q : Processor D T} → Step p q → ℕ
  is_work (receives i event rest lt up has) = 1
  is_work (leaves_closed i lt up none_left closed) = 1
  is_work (leaves_cancelled i lt up cancelled) = 1
  is_work (expires i lt) = 0
  is_work (fires i lt) = 0
  is_work (enters j event free) = 0
  is_work (advances now j) = 0
  is_work (refuses j event waits cancelled) = 0
  is_work (closes open_chan) = 0
  is_work (cancels closed) = 0
  is_work (changes d) = 0

  -- Their number in a run.
  pub work : {p q : Processor D T} → Reach p q → ℕ
  unfolding is_work
  work here = 0
  work (later r s) = work r + is_work s

  Kept-remaining : {p q : Processor D T} → Kept p q → remaining q ≡ remaining p
  unfolding remaining
  Kept-remaining k = rw (k.input_chan, k.workers, k.pool) refl

  pub settle-remaining :
      (i : ℕ) (exited : Bool) (r : Flushing T) (p : Processor D T)
      → i < p.workers
      → remaining (settle i exited r p) + is_running (p.pool i)
        ≡ remaining p + is_running (record { batcher = r.0; exited = exited })
  unfolding remaining
  settle-remaining i exited r p lt =
      let s = settle-Settled i exited r p in
      let w : Worker T = record { batcher = r.0; exited = exited } in
      rw (s.input_chan, s.workers, s.pool)
        (omega (arith, total-update is_running p.workers i p.pool w lt))

  pub taken-remaining :
      (p : Processor D T) (event : T) (rest : List T)
      → p.input_chan.buf ≡ event ∷ rest
      → remaining p ≡ suc (remaining (record p { input_chan = record p.input_chan { buf = rest } }))
  unfolding remaining
  taken-remaining p event rest has = omega (arith, ap length has)

  Step-remaining :
      {p q : Processor D T}
      → (s : Step p q) → p.input_chan.closed ≡ true
      → remaining q + is_work s ≤ remaining p
  unfolding is_work receive leave timer_expires timer_fires remaining enter refuse set_caller
      close_input cancel dedup_changes
  Step-remaining {p} (receives i event rest lt up has) closed = omega (
    arith,
    settle-remaining i (p.pool i).exited (add (p.pool i).batcher event)
        (record p { input_chan = record p.input_chan { buf = rest } }) lt,
    taken-remaining p event rest has,
  )
  Step-remaining {p} (leaves_closed i lt up none_left _) closed =
      ground (arith, up, settle-remaining i true (flush (p.pool i).batcher) p lt)
  Step-remaining {p} (leaves_cancelled i lt up cancelled) closed =
      ground (arith, up, settle-remaining i true (flush (p.pool i).batcher) p lt)
  Step-remaining {p} (expires i lt) closed =
      omega (arith, settle-remaining i (p.pool i).exited _ p lt)
  Step-remaining {p} (fires i lt) closed =
      omega (arith, settle-remaining i (p.pool i).exited _ p lt)
  Step-remaining {p} (enters j event free) closed =
      omega (arith, Kept-remaining (set_caller-Kept j (entered event) p))
  Step-remaining {p} (advances now j) closed =
      omega (arith, Kept-remaining (advance-Kept now j p closed))
  Step-remaining {p} (refuses j event waits cancelled) closed = omega arith
  Step-remaining {p} (closes open_chan) closed = omega arith
  Step-remaining {p} (cancels _) closed = omega arith
  Step-remaining {p} (changes d) closed = omega arith

  -- Shutdown ends. In any run from a state with the channel closed, whatever the order of the
  -- goroutines, the timers and the calls of `Submit`, the workers take events and return at most
  -- as often as there were events in the channel and workers that had not returned; what is left
  -- to do is smaller by each of these steps.
  pub work_bounded :
      {p q : Processor D T}
      → (r : Reach p q) → p.input_chan.closed ≡ true
      → remaining q + work r ≤ remaining p
  unfolding work
  work_bounded here closed = omega arith
  work_bounded {p} (later {q} r s) closed =
      omega (arith, work_bounded r closed, Step-remaining s (accepts_nothing p q r closed).0)
