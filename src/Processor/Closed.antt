-- ===== src/Processor/Closed.antt =====
-- What `Submit` and the workers of pkg/processor/processor.go do once `Shutdown` closed the channel.
use extend_game_telemetry_co.Prelude.{ℕ, ap, ◌∙◌, ◌≡◌, refl, Bool, true, List, arith, ==_iff}
use extend_game_telemetry_co.Processor.{
  Processor, entered, sending, waiting, finished, panicked, refused, receive, leave, timer_expires,
  timer_fires, settle, set_caller, advance, advance_from, refuse, enter, close_input, cancel,
  dedup_changes,
}
use extend_game_telemetry_co.Processor.Batcher.{Flushing}
use extend_game_telemetry_co.Processor.Untouched.{
  Kept, set_caller-Kept, advance-Kept, settle-Settled, try_send-closed,
}
use extend_game_telemetry_co.Processor.Steps.{
  Step, receives, leaves_closed, leaves_cancelled, expires, fires, enters, advances, refuses,
  closes, cancels, changes, Reach, here, later,
}

module _ {D T : Type 0} where
  -- The channel is closed, and what was accepted before is all that is accepted.
  abbrev pub Shut : List T → Processor D T → Type 0
  Shut accepted p = (p.input_chan.closed ≡ true) × (p.accepted ≡ accepted)

  Kept-Shut :
      (accepted : List T) {p q : Processor D T} → Kept p q → Shut accepted p → Shut accepted q
  Kept-Shut accepted k h = (ap (λ c. c.closed) k.input_chan ∙ h.0, k.accepted ∙ h.1)

  settle-Shut :
      (accepted : List T) (i : ℕ) (exited : Bool) (r : Flushing T) (p : Processor D T)
      → Shut accepted p
      → Shut accepted (settle i exited r p)
  settle-Shut accepted i exited r p h =
      let s = settle-Settled i exited r p in
      (ap (λ c. c.closed) s.input_chan ∙ h.0, s.accepted ∙ h.1)

  Step-Shut :
      (accepted : List T) {p q : Processor D T} → Step p q → Shut accepted p → Shut accepted q
  unfolding receive leave timer_expires timer_fires enter refuse close_input cancel dedup_changes
  Step-Shut accepted {p} (receives i event rest lt up has) h =
      settle-Shut accepted i (p.pool i).exited _
        (record p { input_chan = record p.input_chan { buf = rest } }) h
  Step-Shut accepted {p} (leaves_closed i lt up none_left closed) h =
      settle-Shut accepted i true _ p h
  Step-Shut accepted {p} (leaves_cancelled i lt up cancelled) h = settle-Shut accepted i true _ p h
  Step-Shut accepted {p} (expires i lt) h = settle-Shut accepted i (p.pool i).exited _ p h
  Step-Shut accepted {p} (fires i lt) h = settle-Shut accepted i (p.pool i).exited _ p h
  Step-Shut accepted {p} (enters j event free) h =
      Kept-Shut accepted (set_caller-Kept j (entered event) p) h
  Step-Shut accepted {p} (advances now j) h = Kept-Shut accepted (advance-Kept now j p h.0) h
  Step-Shut accepted {p} (refuses j event waits cancelled) h =
      Kept-Shut accepted (set_caller-Kept j (finished refused) p) h
  Step-Shut accepted (closes open_chan) h = (refl, h.1)
  Step-Shut accepted (cancels closed) h = h
  Step-Shut accepted (changes d) h = h

  -- Once the channel is closed it stays closed, and no further event is accepted, whatever the
  -- goroutines do in whatever order.
  pub accepts_nothing :
      (p q : Processor D T)
      → Reach p q
      → p.input_chan.closed ≡ true
      → (q.input_chan.closed ≡ true) × (q.accepted ≡ p.accepted)
  accepts_nothing p _ here closed = (closed, refl)
  accepts_nothing p r (later {q} reached step) closed =
      Step-Shut p.accepted step (accepts_nothing p q reached closed)

  -- A call of `Submit` that comes to its send after the channel was closed panics.
  pub late_send_panics :
      (p q : Processor D T) (now j : ℕ) (event : T)
      → Reach p q
      → p.input_chan.closed ≡ true
      → q.callers j ≡ sending event
      → (advance now j q).callers j ≡ finished panicked
  unfolding advance advance_from set_caller
  late_send_panics p q now j event reached closed at_send = rw at_send (
      rw (try_send-closed j event (waiting event) q (accepts_nothing p q reached closed).0)
        (ground (arith, ==_iff j j)))
