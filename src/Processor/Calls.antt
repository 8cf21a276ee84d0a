-- ===== src/Processor/Calls.antt =====
-- Every action of a caller of `Submit`, and `Shutdown`, keeps the invariant.
use extend_game_telemetry_co.Prelude.{
  ℕ, ◌<◌, ◌≡◌, refl, inl, Bool, true, false, [], ◌∷◌, Option, none, some, arith, length,
  length-append, count-append, ltb, ltb→lt, if◌then◌else◌,
}
use extend_game_telemetry_co.Dedup.{Deduplicator}
use extend_game_telemetry_co.Processor.{
  queued, Processor, Caller, entered, fresh, sending, waiting, sent, count_received, finished, idle,
  skipped, refused, panicked, set_caller, advance, advance_from, checked, check, mark_seen,
  try_send, enqueue, refuse, enter, close_input, cancel, dedup_changes,
}
use extend_game_telemetry_co.Processor.Invariant.{Inv}

module _ {D T : Type 0} where
  set_caller-Inv : (j : ℕ) (c : Caller T) (p : Processor D T) → Inv p → Inv (set_caller j c p)
  unfolding set_caller
  set_caller-Inv j c p h = record {
    conserved = h.conserved;
    bounded = h.bounded;
    delivered = h.delivered;
    left = h.left;
  }

  pub enter-Inv : (j : ℕ) (event : T) (p : Processor D T) → Inv p → Inv (enter j event p)
  unfolding enter
  enter-Inv j event p h = set_caller-Inv j (entered event) p h

  enqueue-Inv :
      (j : ℕ) (event : T) (p : Processor D T)
      → length p.input_chan.buf < p.input_chan.cap
      → p.input_chan.closed ≡ false
      → Inv p
      → Inv (enqueue j event p)
  unfolding enqueue set_caller
  enqueue-Inv j event p room open_chan h = record {
    conserved = λ t. omega (
      arith,
      h.conserved t,
      count-append t p.accepted (event ∷ []),
      count-append t p.input_chan.buf (event ∷ []),
    );
    bounded = omega (arith, room, length-append p.input_chan.buf (event ∷ []));
    delivered = h.delivered;
    left = λ i lt x. ground (arith, h.left i lt x);
  }

  count_received-Inv : (j : ℕ) (p : Processor D T) → Inv p → Inv (count_received j p)
  unfolding count_received
  count_received-Inv j p h = set_caller-Inv j (finished queued) _ (record {
    conserved = h.conserved;
    bounded = h.bounded;
    delivered = h.delivered;
    left = h.left;
  })

  if-Inv :
      (b : Bool) (p q : Processor D T)
      → (b ≡ true → Inv p)
      → (b ≡ false → Inv q)
      → Inv (if b then p else q)
  if-Inv true p q hp hq = hp refl
  if-Inv false p q hp hq = hq refl

  try_send-Inv :
      (j : ℕ) (event : T) (blocked : Caller T) (p : Processor D T)
      → Inv p
      → Inv (try_send j event blocked p)
  unfolding try_send
  try_send-Inv j event blocked p h =
      if-Inv p.input_chan.closed _ _ (λ _. set_caller-Inv j (finished panicked) p h)
        λ open_chan.
          if-Inv (ltb (length p.input_chan.buf) p.input_chan.cap) _ _
            (λ room. enqueue-Inv j event p (ltb→lt _ _ room) open_chan h)
            (λ _. set_caller-Inv j blocked p h)

  -- The counter of duplicates and the state of the deduplicator are not in the invariant.
  duplicated-Inv : (n : ℕ) (p : Processor D T) → Inv p → Inv (record p { events_duplicated = n })
  duplicated-Inv n p h = record {
    conserved = h.conserved;
    bounded = h.bounded;
    delivered = h.delivered;
    left = h.left;
  }

  pub dedup_changes-Inv : (d : D) (p : Processor D T) → Inv p → Inv (dedup_changes d p)
  unfolding dedup_changes
  dedup_changes-Inv d p h = record {
    conserved = h.conserved;
    bounded = h.bounded;
    delivered = h.delivered;
    left = h.left;
  }

  checked-Inv :
      (o : Option Bool) (j : ℕ) (event : T) (p : Processor D T) → Inv p → Inv (checked o j event p)
  unfolding checked
  checked-Inv none j event p h = set_caller-Inv j (fresh event) p h
  checked-Inv (some false) j event p h = set_caller-Inv j (fresh event) p h
  checked-Inv (some true) j event p h = set_caller-Inv j (finished skipped) _ (duplicated-Inv _ p h)

  check-Inv :
      (o : Option (Deduplicator D T)) (now j : ℕ) (event : T) (p : Processor D T)
      → Inv p
      → Inv (check o now j event p)
  unfolding check
  check-Inv none now j event p h = set_caller-Inv j (sending event) p h
  check-Inv (some d) now j event p h =
      checked-Inv (d.is_duplicate p.cancelled now p.dedup_state event) j event p h

  mark_seen-Inv :
      (o : Option (Deduplicator D T)) (now j : ℕ) (event : T) (p : Processor D T)
      → Inv p
      → Inv (mark_seen o now j event p)
  unfolding mark_seen dedup_changes
  mark_seen-Inv none now j event p h = set_caller-Inv j (sending event) p h
  mark_seen-Inv (some d) now j event p h =
      set_caller-Inv j (sending event) _
        (dedup_changes-Inv (d.mark p.cancelled now p.dedup_state event).0 p h)

  advance_from-Inv :
      (c : Caller T) (now j : ℕ) (p : Processor D T) → Inv p → Inv (advance_from c now j p)
  unfolding advance_from
  advance_from-Inv (entered event) now j p h = check-Inv p.deduplicator now j event p h
  advance_from-Inv (fresh event) now j p h = mark_seen-Inv p.deduplicator now j event p h
  advance_from-Inv (sending event) now j p h = try_send-Inv j event (waiting event) p h
  advance_from-Inv (waiting event) now j p h = try_send-Inv j event (waiting event) p h
  advance_from-Inv sent now j p h = count_received-Inv j p h
  advance_from-Inv (finished o) now j p h = h
  advance_from-Inv idle now j p h = h

  pub advance-Inv : (now j : ℕ) (p : Processor D T) → Inv p → Inv (advance now j p)
  unfolding advance
  advance-Inv now j p h = advance_from-Inv (p.callers j) now j p h

  pub refuse-Inv : (j : ℕ) (p : Processor D T) → Inv p → Inv (refuse j p)
  unfolding refuse
  refuse-Inv j p h = set_caller-Inv j (finished refused) _ (record {
    conserved = h.conserved;
    bounded = h.bounded;
    delivered = h.delivered;
    left = h.left;
  })

  pub close_input-Inv : (p : Processor D T) → Inv p → Inv (close_input p)
  unfolding close_input
  close_input-Inv p h = record {
    conserved = h.conserved;
    bounded = h.bounded;
    delivered = h.delivered;
    left = λ i lt x. ground (arith, h.left i lt x);
  }

  pub cancel-Inv : (p : Processor D T) → Inv p → Inv (cancel p)
  unfolding cancel
  cancel-Inv p h = record {
    conserved = h.conserved;
    bounded = h.bounded;
    delivered = h.delivered;
    left = λ i lt x. ((h.left i lt x).0, inl refl);
  }
