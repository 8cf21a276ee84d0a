-- ===== src/Processor/Refines/Effects.antt =====
-- What each step of pkg/processor/processor.go does to the history of events.
use extend_game_telemetry_co.Prelude.{
  ℕ, ◌≡◌, ◌⊎◌, inl, inr, refl, sym, ap, ◌∙◌, Bool, true, false, List, [], ◌∷◌, ◌++◌, append-nil,
  Option, none, some, concat, Bool-cases, ltb, length,
}
use extend_game_telemetry_co.Dedup.{Deduplicator}
use extend_game_telemetry_co.Processor.Batcher.{Flushing, add}
use extend_game_telemetry_co.Processor.Invariant.{process_batches-Processed}
use extend_game_telemetry_co.Processor.{
  Processor, Caller, entered, fresh, sending, waiting, sent, count_received, finished, idle,
  receive, leave, timer_expires, timer_fires, settle, set_worker, set_caller, advance, advance_from,
  checked, check, mark_seen, try_send, enqueue, refuse, enter, close_input, cancel, dedup_changes,
}
use extend_game_telemetry_co.Processor.Steps.{
  Step, receives, leaves_closed, leaves_cancelled, expires, fires, enters, advances, refuses,
  closes, cancels, changes,
}

module _ {D T : Type 0} where
  -- What a step does to the history: it accepts one event, or processes some.
  pub record Handles (events : List T) (p q : Processor D T) : Type 0 where
    pub accepted : q.accepted ≡ p.accepted
    pub flushed : concat q.flushed ≡ concat p.flushed ++ events

  pub record Accepts (event : T) (p q : Processor D T) : Type 0 where
    pub accepted : q.accepted ≡ p.accepted ++ event ∷ []
    pub flushed : q.flushed ≡ p.flushed

  abbrev pub Moved : Processor D T → Processor D T → Type 0
  Moved p q = ((events : List T) × Handles events p q) ⊎ ((event : T) × Accepts event p q)

  abbrev unmoved :
      {p q : Processor D T} → q.accepted ≡ p.accepted → q.flushed ≡ p.flushed → Moved p q
  unmoved {p} same same' = inl (
    [],
    record { accepted = same; flushed = ap concat same' ∙ sym (append-nil (concat p.flushed)) },
  )

  settle-Moved :
      (i : ℕ) (exited : Bool) (r : Flushing T) (p : Processor D T) → Moved p (settle i exited r p)
  unfolding settle set_worker
  settle-Moved i exited r p =
      let done =
        process_batches-Processed r.1
          (set_worker i (record { batcher = r.0; exited = exited }) p) in
      inl (concat r.1, record { accepted = done.accepted; flushed = done.flushed })

  try_send-Moved :
      (j : ℕ) (event : T) (blocked : Caller T) (p : Processor D T)
      → Moved p (try_send j event blocked p)
  unfolding try_send enqueue set_caller
  try_send-Moved j event blocked p = elim (Bool-cases p.input_chan.closed) [
    | inl closed ↦ rw closed (unmoved refl refl)
    | inr open_chan ↦ elim (Bool-cases (ltb (length p.input_chan.buf) p.input_chan.cap)) [
      | inl room ↦ rw (open_chan, room) (inr (event, record { accepted = refl; flushed = refl }))
      | inr full ↦ rw (open_chan, full) (unmoved refl refl)
    ]
  ]

  checked-Moved :
      (o : Option Bool) (j : ℕ) (event : T) (p : Processor D T) → Moved p (checked o j event p)
  unfolding checked set_caller
  checked-Moved none j event p = unmoved refl refl
  checked-Moved (some false) j event p = unmoved refl refl
  checked-Moved (some true) j event p = unmoved refl refl

  check-Moved :
      (o : Option (Deduplicator D T)) (now j : ℕ) (event : T) (p : Processor D T)
      → Moved p (check o now j event p)
  unfolding check set_caller
  check-Moved none now j event p = unmoved refl refl
  check-Moved (some d) now j event p =
      checked-Moved (d.is_duplicate p.cancelled now p.dedup_state event) j event p

  mark_seen-Moved :
      (o : Option (Deduplicator D T)) (now j : ℕ) (event : T) (p : Processor D T)
      → Moved p (mark_seen o now j event p)
  unfolding mark_seen set_caller
  mark_seen-Moved none now j event p = unmoved refl refl
  mark_seen-Moved (some d) now j event p = unmoved refl refl

  advance_from-Moved :
      (c : Caller T) (now j : ℕ) (p : Processor D T) → Moved p (advance_from c now j p)
  unfolding advance_from count_received set_caller
  advance_from-Moved (entered event) now j p = check-Moved p.deduplicator now j event p
  advance_from-Moved (fresh event) now j p = mark_seen-Moved p.deduplicator now j event p
  advance_from-Moved (sending event) now j p = try_send-Moved j event (waiting event) p
  advance_from-Moved (waiting event) now j p = try_send-Moved j event (waiting event) p
  advance_from-Moved sent now j p = unmoved refl refl
  advance_from-Moved (finished o) now j p = unmoved refl refl
  advance_from-Moved idle now j p = unmoved refl refl

  pub Step-Moved : {p q : Processor D T} → Step p q → Moved p q
  unfolding receive leave timer_expires timer_fires enter refuse set_caller close_input cancel
      dedup_changes advance
  Step-Moved {p} (receives i event rest lt up has) =
      elim (settle-Moved i (p.pool i).exited (add (p.pool i).batcher event)
        (record p { input_chan = record p.input_chan { buf = rest } })) [
          | inl (events, m) ↦ inl (events, record { accepted = m.accepted; flushed = m.flushed })
          | inr (e, m) ↦ inr (e, record { accepted = m.accepted; flushed = m.flushed })
        ]
  Step-Moved {p} (leaves_closed i lt up none_left closed) = settle-Moved i true _ p
  Step-Moved {p} (leaves_cancelled i lt up cancelled) = settle-Moved i true _ p
  Step-Moved {p} (expires i lt) = settle-Moved i (p.pool i).exited _ p
  Step-Moved {p} (fires i lt) = settle-Moved i (p.pool i).exited _ p
  Step-Moved (enters j event free) = unmoved refl refl
  Step-Moved {p} (advances now j) = advance_from-Moved (p.callers j) now j p
  Step-Moved (refuses j event waits cancelled) = unmoved refl refl
  Step-Moved (closes open_chan) = unmoved refl refl
  Step-Moved (cancels closed) = unmoved refl refl
  Step-Moved (changes d) = unmoved refl refl
