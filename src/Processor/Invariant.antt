-- ===== src/Processor/Invariant.antt =====
-- The invariant of every interleaving of a processor.
use extend_game_telemetry_co.Prelude.{
  ℕ, ◌+◌, ◌≤◌, ◌<◌, ◌≡◌, refl, sym, ◌∙◌, ◌⊎◌, Bool, true, List, [], ◌∷◌, ◌++◌, length, total, count,
  concat, concat-append, Each, append-nil, append_assoc,
}
use extend_game_telemetry_co.Processor.FanOut.{UpToDate, fan_out-UpToDate}
use extend_game_telemetry_co.Processor.{Processor, Worker, process_batch, process_batches}

-- The number of events in a worker's hands that pass a test.
abbrev pub held : {T : Type 0} → (T → Bool) → Worker T → ℕ
held t w = count t w.batcher.events

module _ {D T : Type 0} where
  -- What `processBatch` leaves alone, and what it does to the history and the plugins.
  pub record Processed (batches : List (List T)) (p q : Processor D T) : Type 0 where
    pub pool : q.pool ≡ p.pool
    pub workers : q.workers ≡ p.workers
    pub input_chan : q.input_chan ≡ p.input_chan
    pub cancelled : q.cancelled ≡ p.cancelled
    pub accepted : q.accepted ≡ p.accepted
    pub flushed : concat q.flushed ≡ concat p.flushed ++ concat batches
    pub delivered : Each (UpToDate p.flushed) p.plugins → Each (UpToDate q.flushed) q.plugins

  Processed-none : (bs : List (List T)) (p : Processor D T) → concat bs ≡ [] → Processed bs p p
  Processed-none bs p e = record {
    pool = refl;
    workers = refl;
    input_chan = refl;
    cancelled = refl;
    accepted = refl;
    flushed = rw e (sym (append-nil (concat p.flushed)));
    delivered = λ h. h;
  }

  Processed-trans :
      {bs cs : List (List T)} {p q r : Processor D T}
      → Processed bs p q
      → Processed cs q r
      → Processed (bs ++ cs) p r
  Processed-trans {bs} {cs} {p} {q} {r} f g = record {
    pool = g.pool ∙ f.pool;
    workers = g.workers ∙ f.workers;
    input_chan = g.input_chan ∙ f.input_chan;
    cancelled = g.cancelled ∙ f.cancelled;
    accepted = g.accepted ∙ f.accepted;
    flushed = cc (
      g.flushed,
      f.flushed,
      concat-append bs cs,
      append_assoc (concat p.flushed) (concat bs) (concat cs),
    );
    delivered = λ h. g.delivered (f.delivered h);
  }

  process_batch-Processed :
      (b : List T) (p : Processor D T) → Processed (b ∷ []) p (process_batch b p)
  unfolding process_batch
  process_batch-Processed [] p = Processed-none _ p refl
  process_batch-Processed (e ∷ es) p = record {
    pool = refl;
    workers = refl;
    input_chan = refl;
    cancelled = refl;
    accepted = refl;
    flushed = concat-append p.flushed ((e ∷ es) ∷ []);
    delivered = fan_out-UpToDate p.cancelled p.flushed (e ∷ es) p.plugins;
  }

  pub process_batches-Processed :
      (bs : List (List T)) (p : Processor D T) → Processed bs p (process_batches bs p)
  unfolding process_batches
  process_batches-Processed [] p = Processed-none _ p refl
  process_batches-Processed (b ∷ bs) p =
      Processed-trans (process_batch-Processed b p)
        (process_batches-Processed bs (process_batch b p))

  -- A worker may be gone when the context is cancelled, or the channel closed and drained.
  abbrev pub Stopped : Processor D T → Type 0
  Stopped p = (p.cancelled ≡ true) ⊎ ((p.input_chan.closed ≡ true) × (p.input_chan.buf ≡ []))

  -- `loose` are the events that a worker has taken from the channel and not yet batched.
  pub record Holds (loose : List T) (p : Processor D T) : Type 0 where
    pub conserved :
        (t : T → Bool)
        → count t p.accepted
          ≡ count t p.input_chan.buf
            + count t loose
            + total (held t) p.workers p.pool
            + count t (concat p.flushed)
    pub bounded : length p.input_chan.buf ≤ p.input_chan.cap
    pub delivered : Each (UpToDate p.flushed) p.plugins
    pub left :
        (i : ℕ)
        → i < p.workers
        → (p.pool i).exited ≡ true
        → ((p.pool i).batcher.events ≡ []) × Stopped p

  abbrev pub Inv : Processor D T → Type 0
  Inv p = Holds [] p
