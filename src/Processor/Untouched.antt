-- ===== src/Processor/Untouched.antt =====
-- What the actions of pkg/processor/processor.go leave alone: a worker's batch and a call of
-- `Submit` on a closed channel.
use extend_game_telemetry_co.Prelude.{ℕ, ◌≡◌, refl, Bool, true, false, Option, none, some, update}
use extend_game_telemetry_co.Dedup.{Deduplicator}
use extend_game_telemetry_co.Processor.{
  Processor, Worker, Caller, entered, fresh, sending, waiting, sent, count_received, finished, idle,
  panicked, settle, set_worker, set_caller, advance, advance_from, checked, check, mark_seen,
  try_send,
}
use extend_game_telemetry_co.Processor.Batcher.{Flushing}
use extend_game_telemetry_co.Processor.Invariant.{process_batches-Processed}

module _ {D T : Type 0} where
  -- After a worker has settled, it alone has changed among the workers.
  pub record Settled (i : ℕ) (w : Worker T) (p q : Processor D T) : Type 0 where
    pub pool : q.pool ≡ update p.pool i w
    pub workers : q.workers ≡ p.workers
    pub input_chan : q.input_chan ≡ p.input_chan
    pub cancelled : q.cancelled ≡ p.cancelled
    pub accepted : q.accepted ≡ p.accepted

  pub settle-Settled :
      (i : ℕ) (exited : Bool) (r : Flushing T) (p : Processor D T)
      → Settled i (record { batcher = r.0; exited = exited }) p (settle i exited r p)
  unfolding settle set_worker
  settle-Settled i exited r p =
      let done =
        process_batches-Processed r.1
          (set_worker i (record { batcher = r.0; exited = exited }) p) in
      record {
        pool = done.pool;
        workers = done.workers;
        input_chan = done.input_chan;
        cancelled = done.cancelled;
        accepted = done.accepted;
      }

  -- The channel, the workers, the plugins and the history of accepted events are as before.
  pub record Kept (p q : Processor D T) : Type 0 where
    pub pool : q.pool ≡ p.pool
    pub workers : q.workers ≡ p.workers
    pub input_chan : q.input_chan ≡ p.input_chan
    pub cancelled : q.cancelled ≡ p.cancelled
    pub accepted : q.accepted ≡ p.accepted
    pub plugins : q.plugins ≡ p.plugins

  abbrev pub kept : {p : Processor D T} → Kept p p
  kept = record {
    pool = refl;
    workers = refl;
    input_chan = refl;
    cancelled = refl;
    accepted = refl;
    plugins = refl;
  }

  pub set_caller-Kept : (j : ℕ) (c : Caller T) (p : Processor D T) → Kept p (set_caller j c p)
  unfolding set_caller
  set_caller-Kept j c p = record {
    pool = refl;
    workers = refl;
    input_chan = refl;
    cancelled = refl;
    accepted = refl;
    plugins = refl;
  }

  -- A send on a closed channel panics.
  pub try_send-closed :
      (j : ℕ) (event : T) (blocked : Caller T) (p : Processor D T)
      → p.input_chan.closed ≡ true
      → try_send j event blocked p ≡ set_caller j (finished panicked) p
  unfolding try_send
  try_send-closed j event blocked p closed = rw closed refl

  try_send-Kept :
      (j : ℕ) (event : T) (blocked : Caller T) (p : Processor D T)
      → p.input_chan.closed ≡ true
      → Kept p (try_send j event blocked p)
  try_send-Kept j event blocked p closed =
      rw (try_send-closed j event blocked p closed) (set_caller-Kept j (finished panicked) p)

  checked-Kept :
      (o : Option Bool) (j : ℕ) (event : T) (p : Processor D T) → Kept p (checked o j event p)
  unfolding checked set_caller
  checked-Kept none j event p = set_caller-Kept j (fresh event) p
  checked-Kept (some false) j event p = set_caller-Kept j (fresh event) p
  checked-Kept (some true) j event p = record {
    pool = refl;
    workers = refl;
    input_chan = refl;
    cancelled = refl;
    accepted = refl;
    plugins = refl;
  }

  check-Kept :
      (o : Option (Deduplicator D T)) (now j : ℕ) (event : T) (p : Processor D T)
      → Kept p (check o now j event p)
  unfolding check
  check-Kept none now j event p = set_caller-Kept j (sending event) p
  check-Kept (some d) now j event p =
      checked-Kept (d.is_duplicate p.cancelled now p.dedup_state event) j event p

  mark_seen-Kept :
      (o : Option (Deduplicator D T)) (now j : ℕ) (event : T) (p : Processor D T)
      → Kept p (mark_seen o now j event p)
  unfolding mark_seen set_caller
  mark_seen-Kept none now j event p = set_caller-Kept j (sending event) p
  mark_seen-Kept (some d) now j event p = record {
    pool = refl;
    workers = refl;
    input_chan = refl;
    cancelled = refl;
    accepted = refl;
    plugins = refl;
  }

  advance_from-Kept :
      (c : Caller T) (now j : ℕ) (p : Processor D T)
      → p.input_chan.closed ≡ true
      → Kept p (advance_from c now j p)
  unfolding advance_from count_received set_caller
  advance_from-Kept (entered event) now j p closed = check-Kept p.deduplicator now j event p
  advance_from-Kept (fresh event) now j p closed = mark_seen-Kept p.deduplicator now j event p
  advance_from-Kept (sending event) now j p closed = try_send-Kept j event (waiting event) p closed
  advance_from-Kept (waiting event) now j p closed = try_send-Kept j event (waiting event) p closed
  advance_from-Kept sent now j p closed = record {
    pool = refl;
    workers = refl;
    input_chan = refl;
    cancelled = refl;
    accepted = refl;
    plugins = refl;
  }
  advance_from-Kept (finished o) now j p closed = kept
  advance_from-Kept idle now j p closed = kept

  -- No action of a caller of `Submit` changes a closed channel, or the workers.
  pub advance-Kept :
      (now j : ℕ) (p : Processor D T) → p.input_chan.closed ≡ true → Kept p (advance now j p)
  unfolding advance
  advance-Kept now j p closed = advance_from-Kept (p.callers j) now j p closed
