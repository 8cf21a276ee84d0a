-- ===== src/Processor/Moves.antt =====
-- Every action of a worker and of its timer keeps the invariant.
use extend_game_telemetry_co.Prelude.{
  ℕ, ◌+◌, ◌<◌, ◌≡◌, sym, ap, ◌∙◌, Bool, true, false, List, [], ◌∷◌, ◌++◌, arith, length, update,
  total, total-update, count, count-append, concat, append-nil,
}
use extend_game_telemetry_co.Processor.Batcher.{Flushing, add, flush, expire, fire}
use extend_game_telemetry_co.Processor.Batcher.Contents.{
  contents, add-contents, flush-contents, flush-empties, expire-contents, fire-contents, fire-empty,
}
use extend_game_telemetry_co.Processor.{
  Processor, Worker, settle, set_worker, receive, leave, timer_expires, timer_fires,
}
use extend_game_telemetry_co.Processor.Invariant.{
  held, Stopped, Holds, Inv, process_batches-Processed,
}

module _ {D T : Type 0} where
  module _ (i : ℕ) (exited : Bool) (r : Flushing T) (loose : List T) (p : Processor D T)
      (lt : i < p.workers) (kept : contents r ≡ (p.pool i).batcher.events ++ loose)
      (h : Holds loose p) (gone : exited ≡ true → (r.0.events ≡ []) × Stopped p) where
    abbrev worker : Worker T
    worker = record { batcher = r.0; exited = exited }

    settle-conserved :
        (t : T → Bool)
        → count t p.accepted
          ≡ count t p.input_chan.buf
            + 0
            + total (held t) p.workers (update p.pool i worker)
            + count t (concat p.flushed ++ concat r.1)
    settle-conserved t = omega (
      arith,
      h.conserved t,
      total-update (held t) p.workers i p.pool worker lt,
      count-append t (concat r.1) r.0.events,
      count-append t (p.pool i).batcher.events loose,
      count-append t (concat p.flushed) (concat r.1),
      ap (count t) kept,
    )

    settle-left :
        (j : ℕ)
        → j < p.workers
        → (update p.pool i worker j).exited ≡ true
        → ((update p.pool i worker j).batcher.events ≡ []) × Stopped p
    settle-left j jlt e = ground (arith, h.left j jlt, gone)

    settle-Inv : Inv (settle i exited r p)
    unfolding settle set_worker
    settle-Inv =
        let q : Processor D T = set_worker i worker p in
        let done = process_batches-Processed r.1 q in
        record {
          conserved = λ t.
              rw (done.accepted, done.input_chan, done.workers, done.pool, done.flushed)
                (settle-conserved t);
          bounded = rw done.input_chan h.bounded;
          delivered = done.delivered h.delivered;
          left = λ j. rw (done.workers, done.pool, done.cancelled, done.input_chan) (settle-left j);
        }

  pub receive-Inv :
      (i : ℕ) (event : T) (rest : List T) (p : Processor D T)
      → i < p.workers
      → (p.pool i).exited ≡ false
      → p.input_chan.buf ≡ event ∷ rest
      → Inv p
      → Inv (receive i event rest p)
  unfolding receive
  receive-Inv i event rest p lt stays e h =
      settle-Inv i (p.pool i).exited (add (p.pool i).batcher event) (event ∷ [])
        (record p { input_chan = record p.input_chan { buf = rest } }) lt
        (add-contents (p.pool i).batcher event)
        (record {
          conserved = λ t. omega (arith, h.conserved t, ap (count t) e);
          bounded = omega (arith, h.bounded, ap length e);
          delivered = h.delivered;
          left = λ j jlt x. ground (arith, h.left j jlt x);
        })
        (λ x. cc)

  pub leave-Inv : (i : ℕ) (p : Processor D T) → i < p.workers → Stopped p → Inv p → Inv (leave i p)
  unfolding leave
  leave-Inv i p lt stopped h =
      let b = (p.pool i).batcher in
      settle-Inv i true (flush b) [] p lt (flush-contents b ∙ sym (append-nil b.events)) h
        (λ _. (flush-empties b, stopped))

  pub timer_expires-Inv :
      (i : ℕ) (p : Processor D T) → i < p.workers → Inv p → Inv (timer_expires i p)
  unfolding timer_expires
  timer_expires-Inv i p lt h =
      let b = (p.pool i).batcher in
      settle-Inv i (p.pool i).exited (expire b, []) [] p lt
        (expire-contents b ∙ sym (append-nil b.events)) h
        (λ x. (expire-contents b ∙ (h.left i lt x).0, (h.left i lt x).1))

  pub timer_fires-Inv : (i : ℕ) (p : Processor D T) → i < p.workers → Inv p → Inv (timer_fires i p)
  unfolding timer_fires
  timer_fires-Inv i p lt h =
      let b = (p.pool i).batcher in
      settle-Inv i (p.pool i).exited (fire b) [] p lt (fire-contents b ∙ sym (append-nil b.events))
        h (λ x. (fire-empty b (h.left i lt x).0, (h.left i lt x).1))
