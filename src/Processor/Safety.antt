-- ===== src/Processor/Safety.antt =====
-- What holds in every state that a processor can reach.
use mathlib.Core.Option.{some-injective}
use mathlib.Core.Path.{subst}
use extend_game_telemetry_co.Prelude.{
  ℕ, ◌+◌, ◌<◌, ◌≡◌, refl, sym, ap, ◌∙◌, inl, inr, Bool, true, false, List, [], ◌∷◌, Option, none,
  some, arith, total, total-eq-zero, count, ◌&&◌, concat, Each,
}
use extend_game_telemetry_co.Dedup.{Deduplicator}
use extend_game_telemetry_co.Processor.Batcher.{make_cap, Flushing, add, flush, expire, fire}
use extend_game_telemetry_co.Processor.Batcher.Contents.{new_batcher-empty}
use extend_game_telemetry_co.Processor.FanOut.{Plugin, Slot, UpToDate, fresh-UpToDate}
use extend_game_telemetry_co.Processor.{Processor, Limits, Config, start, started, launch}
use extend_game_telemetry_co.Processor.Invariant.{held, Inv}
use extend_game_telemetry_co.Processor.Steps.{
  Step, receives, leaves_closed, leaves_cancelled, expires, fires, enters, advances, refuses,
  closes, cancels, changes, Reach, here, later,
}
use extend_game_telemetry_co.Processor.Batcher.{new_batcher}
use extend_game_telemetry_co.Processor.Batcher
use extend_game_telemetry_co.Processor.FanOut.{count-deliveries}
use extend_game_telemetry_co.Processor.Moves.{
  receive-Inv, leave-Inv, timer_expires-Inv, timer_fires-Inv,
}
use extend_game_telemetry_co.Processor.Calls.{
  enter-Inv, advance-Inv, refuse-Inv, close_input-Inv, cancel-Inv, dedup_changes-Inv,
}

module _ {D T : Type 0} where
  -- Every step of a worker, its timer, a caller of `Submit`, `Shutdown` or the deduplicator's
  -- environment keeps the invariant.
  pub Step-Inv : {p q : Processor D T} → Step p q → Inv p → Inv q
  Step-Inv {p} (receives i event rest lt stays e) h = receive-Inv i event rest p lt stays e h
  Step-Inv {p} (leaves_closed i lt stays e c) h = leave-Inv i p lt (inr (c, e)) h
  Step-Inv {p} (leaves_cancelled i lt stays c) h = leave-Inv i p lt (inl c) h
  Step-Inv {p} (expires i lt) h = timer_expires-Inv i p lt h
  Step-Inv {p} (fires i lt) h = timer_fires-Inv i p lt h
  Step-Inv {p} (enters j event _) h = enter-Inv j event p h
  Step-Inv {p} (advances now j) h = advance-Inv now j p h
  Step-Inv {p} (refuses j event _ _) h = refuse-Inv j p h
  Step-Inv {p} (closes _) h = close_input-Inv p h
  Step-Inv {p} (cancels _) h = cancel-Inv p h
  Step-Inv {p} (changes d) h = dedup_changes-Inv d p h

  pub Reach-Inv : {p q : Processor D T} → Inv p → Reach p q → Inv q
  Reach-Inv h here = h
  Reach-Inv h (later r s) = Step-Inv s (Reach-Inv h r)

  started-Inv :
      (workers size : ℕ) (plugins : List (Plugin T)) (dedup : Option (Deduplicator D T)) (d : D)
      (b : Batcher.Batcher T)
      → b.events ≡ []
      → Inv (started workers size plugins dedup d b)
  unfolding started
  started-Inv workers size plugins dedup d b e = record {
    conserved = λ t. omega (
      arith,
      total-eq-zero (held t) workers (λ _. record { batcher = b; exited = false })
          (λ i _. ap (count t) e),
    );
    bounded = omega arith;
    delivered = fresh-UpToDate plugins;
    left = λ i lt x. cc;
  }

  launch-Inv :
      (buffer : Option ℕ) (made : Option (Batcher.Batcher T)) (workers : ℕ)
      (plugins : List (Plugin T)) (dedup : Option (Deduplicator D T)) (d : D) (p : Processor D T)
      → ((b : Batcher.Batcher T) → made ≡ some b → b.events ≡ [])
      → launch buffer made workers plugins dedup d ≡ some p
      → Inv p
  unfolding launch
  launch-Inv none made workers plugins dedup d p empty e = cc
  launch-Inv (some size) none workers plugins dedup d p empty e = cc
  launch-Inv (some size) (some b) workers plugins dedup d p empty e =
      subst Inv (some-injective _ _ e) (started-Inv workers size plugins dedup d b (empty b refl))

  pub start-Inv :
      (limits : Limits) (config : Config) (plugins : List (Plugin T))
      (dedup : Option (Deduplicator D T)) (d : D) (p : Processor D T)
      → start limits config plugins dedup d ≡ some p
      → Inv p
  unfolding start
  start-Inv limits config plugins dedup d p e =
      launch-Inv (make_cap limits.chan_cap config.channel_buffer) _ _ plugins dedup d p
        (λ b. new_batcher-empty _ _ _ b) e

  -- A state that some interleaving reaches after `NewProcessor` and `Start`.
  pub record Reachable (q : Processor D T) : Type 0 where
    pub limits : Limits
    pub config : Config
    pub plugins : List (Plugin T)
    pub dedup : Option (Deduplicator D T)
    pub dedup_state : D
    pub first : Processor D T
    pub starts : start limits config plugins dedup dedup_state ≡ some first
    pub steps : Reach first q

  pub Reachable-Inv : {q : Processor D T} → Reachable q → Inv q
  Reachable-Inv r =
      Reach-Inv (start-Inv r.limits r.config r.plugins r.dedup r.dedup_state r.first r.starts)
        r.steps

  -- No event is lost or doubled inside the processor. In every reachable state, and for every
  -- test on events: the accepted events that pass are as many as those in the channel, those in
  -- the batchers of the workers and those in the batches given to `processBatch` together.
  pub events_conserved :
      {q : Processor D T}
      → Reachable q
      → (t : T → Bool)
      → count t q.accepted
        ≡ count t q.input_chan.buf + total (held t) q.workers q.pool + count t (concat q.flushed)
  events_conserved r t = omega (arith, (Reachable-Inv r).conserved t)

  -- All workers have returned.
  abbrev pub AllExited : Processor D T → Type 0
  AllExited q = (i : ℕ) → i < q.workers → (q.pool i).exited ≡ true

  drained-count :
      {q : Processor D T}
      → Inv q
      → 0 < q.workers
      → AllExited q
      → q.cancelled ≡ false
      → (t : T → Bool) → count t q.accepted ≡ count t (concat q.flushed)
  drained-count {q} h some_worker gone live t = omega (
    arith,
    h.conserved t,
    ap (count t) drained,
    total-eq-zero (held t) q.workers q.pool (λ i lt. ap (count t) (h.left i lt (gone i lt)).0),
  )
    where
      drained : q.input_chan.buf ≡ []
      drained = ground (arith, h.left 0 some_worker (gone 0 some_worker))

  delivered-count :
      (q : Processor D T) (t : T → Bool)
      → ((u : T → Bool) → count u q.accepted ≡ count u (concat q.flushed))
      → (ss : List (Slot T)) → Each (UpToDate q.flushed) ss
      → Each (λ s. count t (concat s.written) ≡ count (λ x. s.plugin.filter x && t x) q.accepted) ss
  delivered-count q t same [] h = tt
  delivered-count q t same (s ∷ ss) h = (
    ap (λ xs. count t (concat xs)) h.0
        ∙ count-deliveries t s.plugin.filter q.flushed
        ∙ sym (same (λ x. s.plugin.filter x && t x)),
    delivered-count q t same ss h.1,
  )

  -- Graceful shutdown loses nothing. In a reachable state of a processor with at least one
  -- worker, where all workers have returned and the context was not cancelled: each plugin's
  -- `WriteBatch` calls hold each accepted event that passes the plugin's filter as often as it
  -- was accepted (counted by any test).
  pub graceful_shutdown :
      {q : Processor D T}
      → Reachable q
      → 0 < q.workers
      → AllExited q
      → q.cancelled ≡ false
      → (t : T → Bool)
      → Each
          (λ s. count t (concat s.written) ≡ count (λ x. s.plugin.filter x && t x) q.accepted)
          q.plugins
  graceful_shutdown {q} r some_worker gone live t =
      let h = Reachable-Inv r in
      delivered-count q t (drained-count h some_worker gone live) q.plugins h.delivered
