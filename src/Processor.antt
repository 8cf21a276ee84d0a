-- ===== src/Processor.antt =====
-- pkg/processor/processor.go: the state of a processor, each atomic action of its goroutines as a
-- function, and the interleavings of these actions as a step relation.
pub mod Batcher
pub mod FanOut
pub mod Steps
pub mod Invariant
pub mod Moves
pub mod Calls
pub mod Safety
pub mod Untouched
pub mod Closed
pub mod Drain
pub mod Duplicates
pub mod Quiet
pub mod Installed
pub mod Callers
pub mod Acknowledged
pub mod Bags
pub mod Refines
pub mod Launch
pub mod Report
pub mod Shutdown
pub mod Unskipped
mod Examples
use extend_game_telemetry_co.Prelude.{
  ℕ, zero, suc, ◌+◌, ◌%◌, ◌^◌, ◌<◌, ◌≡◌, Bool, true, false, List, [], ◌∷◌, ◌++◌, Option, none, some,
  ltb, ◌==◌, if◌then◌else◌, length, ℤ, pos, negsuc, pos_part, Text, update, map,
}
use extend_game_telemetry_co.Dedup.{Deduplicator}
use Batcher.{Flushing, make_cap, new_batcher, add, flush, expire, fire}
use FanOut.{Plugin, Slot, fresh_slot, fan_out}

-- A buffered Go channel.
pub record Chan (T : Type 0) : Type 0 where
  pub buf : List T
  pub cap : ℕ
  pub closed : Bool

pub record Config : Type 0 where
  pub workers : ℤ
  pub channel_buffer : ℤ
  pub batch_size : ℤ
  pub flush_interval : ℤ

-- How a call of `Submit` ended: `return nil` after the send, `return nil` for a duplicate, the
-- error, or the panic of a send on a closed channel.
pub data Outcome : Type 0 where
  queued skipped refused panicked : Outcome

-- Where a goroutine that calls `Submit` stands: before the duplicate check, before `Mark`, before
-- the first `select`, in the second `select`, between the send and `eventsReceived.Add(1)`, or after
-- the call.
pub data Caller (T : Type 0) : Type 0 where
  entered fresh sending waiting : T → Caller T
  sent : Caller T
  finished : Outcome → Caller T
  idle : Caller T

-- A worker goroutine: its batcher, and whether it has returned.
pub record Worker (T : Type 0) : Type 0 where
  pub batcher : Batcher.Batcher T
  pub exited : Bool

-- `accepted` and `flushed` are the history: the events sent into the channel, and the batches
-- that `processBatch` was called with, both oldest first. The program does not keep them.
pub record Processor (D T : Type 0) : Type 0 where
  pub workers : ℕ
  pub input_chan : Chan T
  pub plugins : List (Slot T)
  pub deduplicator : Option (Deduplicator D T)
  pub dedup_state : D
  pub cancelled : Bool
  pub events_received : ℕ
  pub events_processed : ℕ
  pub events_duplicated : ℕ
  pub events_dropped : ℕ
  pub pool : ℕ → Worker T
  pub callers : ℕ → Caller T
  pub accepted : List T
  pub flushed : List (List T)

-- `atomic.Uint64.Add`
abbrev pub add_uint64 : ℕ → ℕ → ℕ
add_uint64 counter n = (counter + n) % 2 ^ 64

-- Which capacities `make` allows for a channel and for a slice of events, which the runtime decides.
pub record Limits : Type 0 where
  pub chan_cap : ℕ → Bool
  pub slice_cap : ℕ → Bool

-- Without workers nobody makes a batcher.
worker_slices : Limits → Config → ℕ → Bool
worker_slices limits config = if pos_part config.workers == 0 then (λ _. true) else limits.slice_cap

worker_batch_size : Config → ℤ
worker_batch_size config = if pos_part config.workers == 0 then pos 0 else config.batch_size

module _ {D T : Type 0} where
  -- `NewProcessor` and `Start`: `none` where `make` panics, for the channel or, in a worker, for
  -- its batcher. Without workers nobody makes a batcher, and any stands for the unused ones.
  started :
      ℕ → ℕ → List (Plugin T) → Option (Deduplicator D T) → D → Batcher.Batcher T → Processor D T
  started workers size plugins deduplicator state batcher = record {
    workers = workers;
    input_chan = record { buf = []; cap = size; closed = false };
    plugins = map fresh_slot plugins;
    deduplicator = deduplicator;
    dedup_state = state;
    cancelled = false;
    events_received = 0;
    events_processed = 0;
    events_duplicated = 0;
    events_dropped = 0;
    pool = λ _. record { batcher = batcher; exited = false };
    callers = λ _. idle;
    accepted = [];
    flushed = [];
  }

  launch :
      Option ℕ
      → Option (Batcher.Batcher T)
      → ℕ
      → List (Plugin T)
      → Option (Deduplicator D T)
      → D
      → Option (Processor D T)
  unfolding started
  launch none made workers plugins deduplicator state = none
  launch (some size) none workers plugins deduplicator state = none
  launch (some size) (some b) workers plugins deduplicator state =
      some (started workers size plugins deduplicator state b)

  unfoldable pub start :
      Limits → Config → List (Plugin T) → Option (Deduplicator D T) → D → Option (Processor D T)
  unfolding launch worker_batch_size worker_slices make_cap
  start limits config plugins deduplicator state =
      launch (make_cap limits.chan_cap config.channel_buffer)
        (new_batcher (worker_slices limits config) (worker_batch_size config) config.flush_interval)
        (pos_part config.workers) plugins deduplicator state

  -- `processBatch`, whose plugins are told whether the processor is cancelled
  pub process_batch : List T → Processor D T → Processor D T
  process_batch [] p = p
  process_batch (e ∷ es) p = record p {
    plugins = fan_out p.cancelled (e ∷ es) p.plugins;
    events_processed = add_uint64 p.events_processed (length (e ∷ es));
    flushed = p.flushed ++ (e ∷ es) ∷ [];
  }

  unfoldable pub process_batches : List (List T) → Processor D T → Processor D T
  unfolding process_batch
  process_batches [] p = p
  process_batches (b ∷ bs) p = process_batches bs (process_batch b p)

  set_worker : ℕ → Worker T → Processor D T → Processor D T
  set_worker i w p = record p { pool = update p.pool i w }

  pub set_caller : ℕ → Caller T → Processor D T → Processor D T
  set_caller j c p = record p { callers = update p.callers j c }

  -- A method of worker `i`'s batcher has run: its `flushFunc` is `processBatch`.
  pub settle : ℕ → Bool → Flushing T → Processor D T → Processor D T
  unfolding set_worker
  settle i exited r p =
      process_batches r.1 (set_worker i (record { batcher = r.0; exited = exited }) p)

  -- `event, ok := <-p.inputChan` with an event, then `batcher.Add(event)`
  unfoldable pub receive : ℕ → T → List T → Processor D T → Processor D T
  unfolding settle
  receive i event rest p =
      settle i (p.pool i).exited (add (p.pool i).batcher event)
        (record p { input_chan = record p.input_chan { buf = rest } })

  -- `batcher.Flush()` and `return`
  unfoldable pub leave : ℕ → Processor D T → Processor D T
  unfolding settle
  leave i p = settle i true (flush (p.pool i).batcher) p

  -- The timer of worker `i`'s batcher expires, and later its callback runs.
  pub timer_expires : ℕ → Processor D T → Processor D T
  unfolding settle
  timer_expires i p = settle i (p.pool i).exited (expire (p.pool i).batcher, []) p

  pub timer_fires : ℕ → Processor D T → Processor D T
  unfolding settle
  timer_fires i p = settle i (p.pool i).exited (fire (p.pool i).batcher) p

  -- A send that succeeds. The counter follows in an action of its own.
  enqueue : ℕ → T → Processor D T → Processor D T
  unfolding set_caller
  enqueue j event p = set_caller j sent (record p {
    input_chan = record p.input_chan { buf = p.input_chan.buf ++ event ∷ [] };
    accepted = p.accepted ++ event ∷ [];
  })

  -- `p.eventsReceived.Add(1)` and `return nil`
  pub count_received : ℕ → Processor D T → Processor D T
  unfolding set_caller
  count_received j p =
      set_caller j (finished queued) (record p { events_received = add_uint64 p.events_received 1 })

  -- The duplicate check of `Submit`; an error is logged, and the event goes on.
  pub checked : Option Bool → ℕ → T → Processor D T → Processor D T
  unfolding set_caller
  checked none j event p = set_caller j (fresh event) p
  checked (some false) j event p = set_caller j (fresh event) p
  checked (some true) j event p =
      set_caller j (finished skipped)
        (record p { events_duplicated = add_uint64 p.events_duplicated 1 })

  pub check : Option (Deduplicator D T) → ℕ → ℕ → T → Processor D T → Processor D T
  unfolding checked set_caller
  check none now j event p = set_caller j (sending event) p
  check (some d) now j event p =
      checked (d.is_duplicate p.cancelled now p.dedup_state event) j event p

  -- `Mark`; an error is logged, and the event goes on.
  mark_seen : Option (Deduplicator D T) → ℕ → ℕ → T → Processor D T → Processor D T
  unfolding set_caller
  mark_seen none now j event p = set_caller j (sending event) p
  mark_seen (some d) now j event p =
      set_caller j (sending event)
        (record p { dedup_state = (d.mark p.cancelled now p.dedup_state event).0 })

  -- A `select` with the send as its case; `blocked` is where the caller stands if it cannot run.
  pub try_send : ℕ → T → Caller T → Processor D T → Processor D T
  unfolding set_caller enqueue
  try_send j event blocked p =
      if p.input_chan.closed
      then set_caller j (finished panicked) p
      else if ltb (length p.input_chan.buf) p.input_chan.cap
      then enqueue j event p
      else set_caller j blocked p

  -- The next action of a caller, at time `now`, but for the case `<-p.ctx.Done()`.
  advance_from : Caller T → ℕ → ℕ → Processor D T → Processor D T
  unfolding check mark_seen try_send count_received
  advance_from (entered event) now j p = check p.deduplicator now j event p
  advance_from (fresh event) now j p = mark_seen p.deduplicator now j event p
  advance_from (sending event) now j p = try_send j event (waiting event) p
  advance_from (waiting event) now j p = try_send j event (waiting event) p
  advance_from sent now j p = count_received j p
  advance_from (finished o) now j p = p
  advance_from idle now j p = p

  unfoldable pub advance : ℕ → ℕ → Processor D T → Processor D T
  unfolding advance_from
  advance now j p = advance_from (p.callers j) now j p

  -- The case `<-p.ctx.Done()` of the second `select`.
  pub refuse : ℕ → Processor D T → Processor D T
  unfolding set_caller
  refuse j p =
      set_caller j (finished refused) (record p { events_dropped = add_uint64 p.events_dropped 1 })

  unfoldable pub enter : ℕ → T → Processor D T → Processor D T
  unfolding set_caller
  enter j event p = set_caller j (entered event) p

  -- `Shutdown`: `close(p.inputChan)`, and after the timeout `p.cancel()`.
  unfoldable pub close_input : Processor D T → Processor D T
  close_input p = record p { input_chan = record p.input_chan { closed = true } }

  pub cancel : Processor D T → Processor D T
  cancel p = record p { cancelled = true }

  -- The state of the deduplicator changes by itself: clean-up, expiry, other instances.
  pub dedup_changes : D → Processor D T → Processor D T
  dedup_changes d p = record p { dedup_state = d }
