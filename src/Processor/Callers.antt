-- ===== src/Processor/Callers.antt =====
-- Which steps of pkg/processor/processor.go concern a given caller of `Submit`.
use extend_game_telemetry_co.Prelude.{
  ℕ, ◌≡◌, ◌⊎◌, inl, inr, refl, ap, ◌∙◌, Bool, true, false, List, [], ◌∷◌, Option, none, some, arith,
  ◌==◌, ==_iff, Bool-cases,
}
use extend_game_telemetry_co.Dedup.{Deduplicator}
use extend_game_telemetry_co.Processor.Batcher.{Flushing, add}
use extend_game_telemetry_co.Processor.{
  Processor, Caller, entered, fresh, sending, waiting, sent, count_received, finished, idle,
  refused, receive, leave, timer_expires, timer_fires, settle, set_worker, process_batches,
  process_batch, set_caller, advance, advance_from, checked, check, mark_seen, try_send, enqueue,
  refuse, enter, close_input, cancel, dedup_changes,
}
use extend_game_telemetry_co.Processor.Steps.{
  Step, receives, leaves_closed, leaves_cancelled, expires, fires, enters, advances, refuses,
  closes, cancels, changes,
}

module _ {D T : Type 0} where
  process_batch-callers : (b : List T) (p : Processor D T) → (process_batch b p).callers ≡ p.callers
  unfolding process_batch
  process_batch-callers [] p = refl
  process_batch-callers (e ∷ es) p = refl

  process_batches-callers :
      (bs : List (List T)) (p : Processor D T) → (process_batches bs p).callers ≡ p.callers
  unfolding process_batches
  process_batches-callers [] p = refl
  process_batches-callers (b ∷ bs) p =
      process_batches-callers bs (process_batch b p) ∙ process_batch-callers b p

  pub settle-callers :
      (i : ℕ) (exited : Bool) (r : Flushing T) (p : Processor D T)
      → (settle i exited r p).callers ≡ p.callers
  unfolding settle set_worker
  settle-callers i exited r p =
      process_batches-callers r.1 (set_worker i (record { batcher = r.0; exited = exited }) p)

  module _ (k j : ℕ) (apart : (k == j) ≡ false) where
    pub set_caller-other :
        (c : Caller T) (p : Processor D T) → (set_caller k c p).callers j ≡ p.callers j
    unfolding set_caller
    set_caller-other c p = rw apart refl

    try_send-other :
        (event : T) (blocked : Caller T) (p : Processor D T)
        → (try_send k event blocked p).callers j ≡ p.callers j
    unfolding try_send enqueue set_caller
    try_send-other event blocked p = ground (arith, apart)

    checked-other :
        (o : Option Bool) (event : T) (p : Processor D T)
        → (checked o k event p).callers j ≡ p.callers j
    unfolding checked set_caller
    checked-other none event p = rw apart refl
    checked-other (some false) event p = rw apart refl
    checked-other (some true) event p = rw apart refl

    check-other :
        (o : Option (Deduplicator D T)) (now : ℕ) (event : T) (p : Processor D T)
        → (check o now k event p).callers j ≡ p.callers j
    unfolding check set_caller
    check-other none now event p = rw apart refl
    check-other (some d) now event p =
        checked-other (d.is_duplicate p.cancelled now p.dedup_state event) event p

    mark_seen-other :
        (o : Option (Deduplicator D T)) (now : ℕ) (event : T) (p : Processor D T)
        → (mark_seen o now k event p).callers j ≡ p.callers j
    unfolding mark_seen set_caller
    mark_seen-other none now event p = rw apart refl
    mark_seen-other (some d) now event p = rw apart refl

    advance_from-other :
        (c : Caller T) (now : ℕ) (p : Processor D T)
        → (advance_from c now k p).callers j ≡ p.callers j
    unfolding advance_from count_received set_caller
    advance_from-other (entered event) now p = check-other p.deduplicator now event p
    advance_from-other (fresh event) now p = mark_seen-other p.deduplicator now event p
    advance_from-other (sending event) now p = try_send-other event (waiting event) p
    advance_from-other (waiting event) now p = try_send-other event (waiting event) p
    advance_from-other sent now p = rw apart refl
    advance_from-other (finished o) now p = refl
    advance_from-other idle now p = refl

  -- A step that does not start a call of caller `j`.
  abbrev pub NoCall : ℕ → {p q : Processor D T} → Step p q → Type 0
  NoCall j (enters k event free) = (k == j) ≡ false
  NoCall j (receives i event rest lt up has) = Unit
  NoCall j (leaves_closed i lt up none_left closed) = Unit
  NoCall j (leaves_cancelled i lt up cancelled) = Unit
  NoCall j (expires i lt) = Unit
  NoCall j (fires i lt) = Unit
  NoCall j (advances now k) = Unit
  NoCall j (refuses k event waits cancelled) = Unit
  NoCall j (closes open_chan) = Unit
  NoCall j (cancels closed) = Unit
  NoCall j (changes d) = Unit

  -- Caller `j` stands where it stood, or makes its next action, or gives up at the shutdown.
  abbrev pub Acts : ℕ → Processor D T → Processor D T → Type 0
  Acts j p q =
      (q.callers j ≡ p.callers j)
      ⊎ (((now : ℕ) × (q ≡ advance now j p)) ⊎ (q.callers j ≡ finished refused))

  pub Step-Acts : (j : ℕ) {p q : Processor D T} (s : Step p q) → NoCall j s → Acts j p q
  unfolding receive leave timer_expires timer_fires enter refuse set_caller close_input cancel
      dedup_changes advance
  Step-Acts j {p} (receives i event rest lt up has) other = inl (
      ap (λ c. c j)
        (settle-callers i (p.pool i).exited (add (p.pool i).batcher event)
          (record p { input_chan = record p.input_chan { buf = rest } })))
  Step-Acts j {p} (leaves_closed i lt up none_left closed) other =
      inl (ap (λ c. c j) (settle-callers i true _ p))
  Step-Acts j {p} (leaves_cancelled i lt up cancelled) other =
      inl (ap (λ c. c j) (settle-callers i true _ p))
  Step-Acts j {p} (expires i lt) other =
      inl (ap (λ c. c j) (settle-callers i (p.pool i).exited _ p))
  Step-Acts j {p} (fires i lt) other = inl (ap (λ c. c j) (settle-callers i (p.pool i).exited _ p))
  Step-Acts j {p} (enters k event free) other = inl (rw other refl)
  Step-Acts j {p} (advances now k) other = elim (Bool-cases (k == j)) [
    | inl same ↦ inr (inl (now, ap (λ i. advance now i p) ((==_iff k j).0 same)))
    | inr apart ↦ inl (advance_from-other k j apart (p.callers k) now p)
  ]
  Step-Acts j {p} (refuses k event waits cancelled) other = elim (Bool-cases (k == j)) [
    | inl same ↦ inr (inr (rw same refl))
    | inr apart ↦ inl (rw apart refl)
  ]
  Step-Acts j (closes open_chan) other = inl refl
  Step-Acts j (cancels closed) other = inl refl
  Step-Acts j (changes d) other = inl refl
