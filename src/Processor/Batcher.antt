-- ===== src/Processor/Batcher.antt =====
-- pkg/processor/batcher.go. Each method runs under the mutex and is one function here. The timers
-- of the runtime are part of the state: `running` holds those that have not expired, `fired` counts
-- the `timeoutFlush` goroutines that were started and still wait for the mutex.
pub mod Contents
pub mod Sizes
pub mod Timers
mod Examples
use mathlib.Core.Option
use extend_game_telemetry_co.Prelude.{
  ℕ, suc, ◌+◌, Bool, true, false, List, [], ◌∷◌, ◌++◌, Option, none, some, ◌==◌, if◌then◌else◌,
  length, ℤ, pos, negsuc, leℤ, not, keep,
}

pub record Batcher (T : Type 0) : Type 0 where
  pub events : List T
  pub max_size : ℤ
  pub max_wait : ℤ
  pub timer : Option ℕ
  pub running : List ℕ
  pub fired : ℕ
  pub next_timer : ℕ

-- What a method call leaves: the batcher, and the batches that it gave to `flushFunc`, in order.
abbrev pub Flushing : Type 0 → Type 0
Flushing T = Batcher T × List (List T)

-- `timer.Stop()`: an expired timer stays expired, and its goroutine goes on.
stop : ℕ → List ℕ → List ℕ
stop i running = keep (λ j. not (j == i)) running

-- The capacity of a `make`, which panics on one that is negative or larger than the runtime allows.
unfoldable pub make_cap : (ℕ → Bool) → ℤ → Option ℕ
make_cap allowed (negsuc n) = none
make_cap allowed (pos n) = if allowed n then some n else none

module _ {T : Type 0} where
  unfoldable pub empty_batcher : ℤ → ℤ → ℕ → Batcher T
  empty_batcher max_size max_wait cap = record {
    events = [];
    max_size = max_size;
    max_wait = max_wait;
    timer = none;
    running = [];
    fired = 0;
    next_timer = 0;
  }

  -- `make([]T, 0, maxSize)` may panic: `none`. The first argument says which capacities the runtime
  -- allows.
  unfoldable pub new_batcher : (ℕ → Bool) → ℤ → ℤ → Option (Batcher T)
  unfolding make_cap empty_batcher
  new_batcher allowed max_size max_wait =
      Option.map (empty_batcher max_size max_wait) (make_cap allowed max_size)

  -- `b.timer = time.AfterFunc(...)`
  arm : Batcher T → Batcher T
  arm b = record b {
    timer = some b.next_timer;
    running = b.next_timer ∷ b.running;
    next_timer = suc b.next_timer;
  }

  stop_timer : Batcher T → Batcher T
  unfolding stop
  stop_timer b = elim b.timer [
    | none ↦ b
    | some i ↦ record b { timer = none; running = stop i b.running }
  ]

  -- With the mutex held.
  flush_locked : Batcher T → Flushing T
  unfolding stop_timer
  flush_locked b = elim b.events [
    | [] ↦ (b, [])
    | x ∷ xs ↦ (record (stop_timer b) { events = [] }, b.events ∷ [])
  ]

  unfoldable pub add : Batcher T → T → Flushing T
  unfolding arm flush_locked
  add b event =
      let appended = record b { events = b.events ++ event ∷ [] } in
      let timed = if length appended.events == 1 then arm appended else appended in
      if leℤ timed.max_size (pos (length timed.events)) then flush_locked timed else (timed, [])

  unfoldable pub timeout_flush : Batcher T → Flushing T
  unfolding flush_locked
  timeout_flush b = flush_locked b

  unfoldable pub flush : Batcher T → Flushing T
  unfolding flush_locked
  flush b = flush_locked b

  pub size : Batcher T → ℕ
  size b = length b.events

  -- The runtime: a running timer expires and starts its goroutine.
  expire_first : List ℕ → Batcher T → Batcher T
  expire_first [] b = b
  expire_first (i ∷ rest) b = record b { running = rest; fired = suc b.fired }

  unfoldable pub expire : Batcher T → Batcher T
  unfolding expire_first
  expire b = expire_first b.running b

  -- The runtime: a goroutine that was started gets the mutex and runs `timeoutFlush`.
  fire_one : ℕ → Batcher T → Flushing T
  fire_one ℕ.zero b = (b, [])
  fire_one (suc n) b = timeout_flush (record b { fired = n })

  unfoldable pub fire : Batcher T → Flushing T
  unfolding fire_one timeout_flush
  fire b = fire_one b.fired b

-- What can happen to a batcher, in any order.
pub data Call (T : Type 0) : Type 0 where
  adds : T → Call T
  flushes expires fires : Call T

module _ {T : Type 0} where
  unfoldable pub step : Batcher T → Call T → Flushing T
  step b (adds e) = add b e
  step b flushes = flush b
  step b expires = (expire b, [])
  step b fires = fire b

  -- A history of calls, with all batches that it hands out.
  unfoldable pub run : Batcher T → List (Call T) → Flushing T
  run b [] = (b, [])
  run b (c ∷ cs) =
      let (b', batches) = step b c in let (b'', rest) = run b' cs in (b'', batches ++ rest)
