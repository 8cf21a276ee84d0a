-- ===== src/Processor/Launch.antt =====
-- When `NewProcessor` and `Start` of pkg/processor/processor.go panic.
use mathlib.Core.Option
use extend_game_telemetry_co.Prelude.{
  some, if◌then◌else◌, ℕ, suc, ◌≡◌, ◌↔◌, ◌⊎◌, List, Option, none, ℤ, pos, negsuc, Bool, true, false,
  pos_part, ◌==◌, arith, refl, inl, inr,
}
use extend_game_telemetry_co.Dedup.{Deduplicator}
use extend_game_telemetry_co.Processor.{
  Limits, Config, start, launch, worker_batch_size, worker_slices,
}
use extend_game_telemetry_co.Processor.Batcher.{Batcher, new_batcher, make_cap, empty_batcher}
use extend_game_telemetry_co.Processor.FanOut.{Plugin}

-- A capacity that is negative, or that the runtime does not allow.
abbrev pub Refused : (ℕ → Bool) → ℤ → Type 0
Refused allowed (negsuc n) = Unit
Refused allowed (pos n) = allowed n ≡ false

module _ {D T : Type 0} (plugins : List (Plugin T)) (dedup : Option (Deduplicator D T)) (state : D)
    (limits : Limits) where
  no_batcher :
      (room : Option ℕ) (workers : ℕ) → launch {T = T} room none workers plugins dedup state ≡ none
  unfolding launch
  no_batcher none workers = refl
  no_batcher (some size) workers = refl

  both_made :
      (size n workers : ℕ) (b : Batcher T) (room fits : Bool)
      → (launch
            (if room then some size else none)
            (Option.map (λ (cap : ℕ). b) (if fits then some n else none))
            workers
            plugins
            dedup
            state
          ≡ none)
        ↔ ((room ≡ false) ⊎ (fits ≡ false))
  unfolding launch
  both_made size n workers b true true = ((λ e. cc), (λ e. ground arith))
  both_made size n workers b true false = ((λ _. inr refl), (λ _. refl))
  both_made size n workers b false fits = ((λ _. inl refl), (λ _. refl))

  launch-Refused :
      (buffer size wait : ℤ) (workers : ℕ)
      → (launch {T = T}
            (make_cap limits.chan_cap buffer)
            (new_batcher limits.slice_cap size wait)
            workers
            plugins
            dedup
            state
          ≡ none)
        ↔ (Refused limits.chan_cap buffer ⊎ Refused limits.slice_cap size)
  unfolding launch new_batcher make_cap empty_batcher
  launch-Refused (negsuc b) size wait workers = ((λ _. inl tt), (λ _. refl))
  launch-Refused (pos b) (negsuc n) wait workers =
      ((λ _. inr tt), (λ _. no_batcher (make_cap limits.chan_cap (pos b)) workers))
  launch-Refused (pos b) (pos n) wait workers =
      both_made b n workers (empty_batcher (pos n) wait n) (limits.chan_cap b) (limits.slice_cap n)

  -- With at least one worker, the capacities of the channel and of a batch decide.
  pub start_panics :
      (config : Config) (w : ℕ)
      → config.workers ≡ pos (suc w)
      → (start limits config plugins dedup state ≡ none) ↔ (
          Refused limits.chan_cap config.channel_buffer
          ⊎ Refused limits.slice_cap config.batch_size)
  unfolding start worker_batch_size worker_slices
  start_panics config w workers =
      let some_worker : pos_part (pos (suc w)) == 0 ≡ false = ground arith in
      rw (workers, some_worker)
        (launch-Refused config.channel_buffer config.batch_size config.flush_interval (suc w))
