-- ===== src/Processor/Batcher/Timers.antt =====
-- The timer of a batcher: while events are held, a flush by timeout is on its way.
use extend_game_telemetry_co.Prelude.{
  Bool, ℕ, ◌<◌, ◌≡◌, ◌≢◌, ◌⊎◌, List, [], ◌∷◌, none, some, arith, length-append, ℤ,
}
use extend_game_telemetry_co.Processor.Batcher.{
  Batcher, Call, adds, flushes, expires, fires, stop, flush_locked, add, flush, timeout_flush,
  expire, fire, step, run, new_batcher,
}

module _ {T : Type 0} where
  -- Nothing is held and no timer runs; or something is held, `b.timer` is set, and that timer
  -- is the only one that runs, or it has expired and its goroutine waits for the mutex.
  abbrev pub Idle : Batcher T → Type 0
  Idle b = (b.events ≡ []) × (b.timer ≡ none) × (b.running ≡ [])

  abbrev pub Scheduled : Batcher T → Type 0
  Scheduled b =
      (i : ℕ) × (b.timer ≡ some i)
      × (b.events ≢ [])
      × ((b.running ≡ i ∷ []) ⊎ ((b.running ≡ []) × (0 < b.fired)))

  abbrev pub Timed : Batcher T → Type 0
  Timed b = Idle b ⊎ Scheduled b

  flush-Timed : (b : Batcher T) → Timed b → Timed (flush_locked b).0
  unfolding flush_locked stop
  flush-Timed b h = ground arith

  add-Timed : (b : Batcher T) (e : T) → Timed b → Timed (add b e).0
  unfolding add flush_locked stop
  add-Timed b e h = ground (arith, length-append b.events (e ∷ []))

  expire-Timed : (b : Batcher T) → Timed b → Timed (expire b)
  unfolding expire
  expire-Timed b h = ground arith

  fire-Timed : (b : Batcher T) → Timed b → Timed (fire b).0
  unfolding fire timeout_flush flush_locked stop
  fire-Timed b h = ground arith

  step-Timed : (b : Batcher T) (c : Call T) → Timed b → Timed (step b c).0
  unfolding step flush
  step-Timed b (adds e) h = add-Timed b e h
  step-Timed b flushes h = flush-Timed b h
  step-Timed b expires h = expire-Timed b h
  step-Timed b fires h = fire-Timed b h

  run-Timed : (b : Batcher T) (cs : List (Call T)) → Timed b → Timed (run b cs).0
  unfolding run
  run-Timed b [] h = h
  run-Timed b (c ∷ cs) h = run-Timed (step b c).0 cs (step-Timed b c h)

  new_batcher-Timed :
      (allowed : ℕ → Bool) (max_size max_wait : ℤ) (b : Batcher T)
      → new_batcher allowed max_size max_wait ≡ some b
      → Timed b
  unfolding new_batcher
  new_batcher-Timed allowed max_size max_wait b e = ground arith

  -- After any history of a new batcher: either it holds nothing and has no timer, or it holds
  -- events, `b.timer` is set, and that timer is the only one running, or it has expired and a
  -- started `timeoutFlush` waits for the mutex.
  pub run-new-Timed :
      (allowed : ℕ → Bool) (max_size max_wait : ℤ) (b : Batcher T) (cs : List (Call T))
      → new_batcher allowed max_size max_wait ≡ some b
      → Timed (run b cs).0
  run-new-Timed allowed max_size max_wait b cs e =
      run-Timed b cs (new_batcher-Timed allowed max_size max_wait b e)

  -- What is held goes out whole: if the timer expires (where it still runs) and then one waiting
  -- callback gets the mutex, a batcher that holds events in such a state hands out exactly one
  -- batch, the events it held, and is empty.
  timeout_hands_out :
      (b : Batcher T)
      → Scheduled b
      → ((fire (expire b)).1 ≡ b.events ∷ []) × ((fire (expire b)).0.events ≡ [])
  unfolding fire expire timeout_flush flush_locked
  timeout_hands_out b h = ground arith
