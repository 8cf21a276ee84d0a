-- ===== src/Processor/Batcher/Sizes.antt =====
-- How large a batch gets.
use extend_game_telemetry_co.Prelude.{
  Bool, ℕ, ◌≤◌, ◌<◌, ◌≡◌, List, [], ◌∷◌, some, arith, length, length-append, Each, Each-append, ℤ,
  pos_part,
}
use Prim.Native.Nat.{max}
use extend_game_telemetry_co.Processor.Batcher.{
  Batcher, Flushing, Call, adds, flushes, expires, fires, flush_locked, add, flush, timeout_flush,
  expire, fire, step, run, new_batcher,
}

-- A size below 1 flushes on every event, as size 1 does.
abbrev pub bound : ℤ → ℕ
bound max_size = max 1 (pos_part max_size)

module _ {T : Type 0} (max_size : ℤ) where
  -- A batch handed out is not empty and not too large.
  abbrev pub FitsIn : List T → Type 0
  FitsIn batch = (0 < length batch) × (length batch ≤ bound max_size)

  pub record HasRoom (b : Batcher T) : Type 0 where
    pub same : b.max_size ≡ max_size
    pub room : length b.events < bound max_size

  abbrev Sized : Flushing T → Type 0
  Sized r = HasRoom r.0 × Each FitsIn r.1

  add-Sized : (b : Batcher T) (e : T) → HasRoom b → Sized (add b e)
  unfolding add flush_locked
  add-Sized b e h = ground (arith, length-append b.events (e ∷ []))

  step-Sized : (b : Batcher T) (c : Call T) → HasRoom b → Sized (step b c)
  unfolding step flush fire expire timeout_flush flush_locked
  step-Sized b (adds e) h = add-Sized b e h
  step-Sized b flushes h = ground arith
  step-Sized b expires h = ground arith
  step-Sized b fires h = ground arith

  run-Sized : (b : Batcher T) (cs : List (Call T)) → HasRoom b → Sized (run b cs)
  unfolding run
  run-Sized b [] h = (h, tt)
  run-Sized b (c ∷ cs) h =
      let first = step-Sized b c h in
      let rest = run-Sized (step b c).0 cs first.0 in
      (rest.0, Each-append FitsIn (step b c).1 _ first.1 rest.1)

  new_batcher-HasRoom :
      (allowed : ℕ → Bool) (max_wait : ℤ) (b : Batcher T)
      → new_batcher allowed max_size max_wait ≡ some b
      → HasRoom b
  unfolding new_batcher
  new_batcher-HasRoom allowed max_wait b e = ground arith

  -- A batcher that `NewBatcher(maxSize, maxWait, _)` returned hands out, over any history of
  -- calls, only batches of at least one and at most `max 1 maxSize` events, and holds fewer
  -- than `max 1 maxSize` between calls.
  pub run-new-fits :
      (allowed : ℕ → Bool) (max_wait : ℤ) (b : Batcher T) (cs : List (Call T))
      → new_batcher allowed max_size max_wait ≡ some b
      → Each FitsIn (run b cs).1 × (length (run b cs).0.events < bound max_size)
  run-new-fits allowed max_wait b cs e =
      let sized = run-Sized b cs (new_batcher-HasRoom allowed max_wait b e) in
      (sized.1, sized.0.room)
