-- ===== src/Processor/Batcher/Contents.antt =====
-- What a batcher hands out: nothing is lost, doubled or reordered, and no batch is too large.
use extend_game_telemetry_co.Prelude.{
  Bool, ℕ, ◌≡◌, refl, sym, ◌∙◌, List, [], ◌∷◌, ◌++◌, some, arith, concat, concat-append, append-nil,
  append_assoc, ℤ,
}
use extend_game_telemetry_co.Processor.Batcher.{
  Batcher, Flushing, Call, adds, flushes, expires, fires, arm, flush_locked, add, flush,
  timeout_flush, expire, fire, step, run, new_batcher,
}

module _ {T : Type 0} where
  -- Each that a call leaves: the batches handed out, then what is still held.
  abbrev pub contents : Flushing T → List T
  contents r = concat r.1 ++ r.0.events

  -- The events that a history adds, in order.
  abbrev pub added : List (Call T) → List T
  added [] = []
  added (adds e ∷ cs) = e ∷ added cs
  added (flushes ∷ cs) = added cs
  added (expires ∷ cs) = added cs
  added (fires ∷ cs) = added cs

  flush_locked-contents : (b : Batcher T) → contents (flush_locked b) ≡ b.events
  unfolding flush_locked
  flush_locked-contents b = ground (arith, append-nil b.events)

  pub new_batcher-empty :
      (allowed : ℕ → Bool) (max_size max_wait : ℤ) (b : Batcher T)
      → new_batcher allowed max_size max_wait ≡ some b
      → b.events ≡ []
  unfolding new_batcher
  new_batcher-empty allowed max_size max_wait b e = ground arith

  pub flush-contents : (b : Batcher T) → contents (flush b) ≡ b.events
  unfolding flush
  flush-contents b = flush_locked-contents b

  pub flush-whole :
      (b : Batcher T) (e : T) (es : List T) → b.events ≡ e ∷ es → (flush b).1 ≡ (e ∷ es) ∷ []
  unfolding flush flush_locked
  flush-whole b e es holds = ground arith

  pub flush-empties : (b : Batcher T) → (flush b).0.events ≡ []
  unfolding flush flush_locked
  flush-empties b = ground arith

  pub add-contents : (b : Batcher T) (e : T) → contents (add b e) ≡ b.events ++ e ∷ []
  unfolding add
  add-contents b e =
      let appended : Batcher T = record b { events = b.events ++ e ∷ [] } in
      ground (arith, flush_locked-contents appended, flush_locked-contents (arm appended))

  pub fire-contents : (b : Batcher T) → contents (fire b) ≡ b.events
  unfolding fire timeout_flush
  fire-contents b = ground (arith, append-nil b.events)

  pub fire-empty : (b : Batcher T) → b.events ≡ [] → (fire b).0.events ≡ []
  unfolding fire timeout_flush flush_locked
  fire-empty b h = ground arith

  pub fire-nothing : (b : Batcher T) → b.events ≡ [] → (fire b).1 ≡ []
  unfolding fire timeout_flush flush_locked
  fire-nothing b h = ground arith

  pub expire-contents : (b : Batcher T) → (expire b).events ≡ b.events
  unfolding expire
  expire-contents b = ground arith

  step-contents : (b : Batcher T) (c : Call T) → contents (step b c) ≡ b.events ++ added (c ∷ [])
  unfolding step
  step-contents b (adds e) = add-contents b e
  step-contents b flushes = flush-contents b ∙ sym (append-nil b.events)
  step-contents b expires = expire-contents b ∙ sym (append-nil b.events)
  step-contents b fires = fire-contents b ∙ sym (append-nil b.events)

  added-cons : (c : Call T) (cs : List (Call T)) → added (c ∷ []) ++ added cs ≡ added (c ∷ cs)
  added-cons (adds e) cs = refl
  added-cons flushes cs = refl
  added-cons expires cs = refl
  added-cons fires cs = refl

  -- Over any history of adds, flushes, timer expiries and timeout callbacks, the batches handed
  -- out, followed by what is still held, are the events held before followed by the added ones.
  pub run-contents :
      (b : Batcher T) (cs : List (Call T))
      → concat (run b cs).1 ++ (run b cs).0.events ≡ b.events ++ added cs
  unfolding run
  run-contents b [] = sym (append-nil b.events)
  run-contents b (c ∷ cs) =
      let b' = (step b c).0 in
      let now = (step b c).1 in
      let later = (run b' cs).1 in
      cc (
        concat-append now later,
        append_assoc (concat now) (concat later) (run b' cs).0.events,
        run-contents b' cs,
        append_assoc (concat now) b'.events (added cs),
        step-contents b c,
        append_assoc b.events (added (c ∷ [])) (added cs),
        added-cons c cs,
      )
