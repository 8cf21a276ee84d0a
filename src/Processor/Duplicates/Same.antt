-- ===== src/Processor/Duplicates/Same.antt =====
-- The operations of pkg/processor/processor.go that leave the deduplicator as it is, and the duplicate
-- check when it finds a duplicate.
use mathlib.Core.Path.{subst}
use extend_game_telemetry_co.Prelude.{
  ℕ, ◌+◌, ◌%◌, ◌^◌, ap, sym, ==_iff, ◌≡◌, refl, ◌∙◌, Bool, true, false, List, [], ◌∷◌, Option, none,
  some, arith,
}
use extend_game_telemetry_co.Dedup.{Deduplicator}
use extend_game_telemetry_co.Processor.{
  Processor, Caller, settle, set_worker, process_batches, process_batch, set_caller, checked, check,
  try_send, enqueue, count_received, entered, finished, skipped, advance, advance_from,
}
use extend_game_telemetry_co.Processor.Batcher.{Flushing}

module _ {D T : Type 0} where
  -- The deduplicator and its state are as before.
  pub record SameDedup (p q : Processor D T) : Type 0 where
    pub deduplicator : q.deduplicator ≡ p.deduplicator
    pub dedup_state : q.dedup_state ≡ p.dedup_state

  process_batch-SameDedup : (b : List T) (p : Processor D T) → SameDedup p (process_batch b p)
  unfolding process_batch
  process_batch-SameDedup [] p = record { deduplicator = refl; dedup_state = refl }
  process_batch-SameDedup (e ∷ es) p = record { deduplicator = refl; dedup_state = refl }

  process_batches-SameDedup :
      (bs : List (List T)) (p : Processor D T) → SameDedup p (process_batches bs p)
  unfolding process_batches
  process_batches-SameDedup [] p = record { deduplicator = refl; dedup_state = refl }
  process_batches-SameDedup (b ∷ bs) p =
      let one = process_batch-SameDedup b p in
      let more = process_batches-SameDedup bs (process_batch b p) in
      record {
        deduplicator = more.deduplicator ∙ one.deduplicator;
        dedup_state = more.dedup_state ∙ one.dedup_state;
      }

  pub settle-SameDedup :
      (i : ℕ) (exited : Bool) (r : Flushing T) (p : Processor D T)
      → SameDedup p (settle i exited r p)
  unfolding settle set_worker
  settle-SameDedup i exited r p =
      let same =
        process_batches-SameDedup r.1
          (set_worker i (record { batcher = r.0; exited = exited }) p) in
      record { deduplicator = same.deduplicator; dedup_state = same.dedup_state }

  pub checked-SameDedup :
      (o : Option Bool) (j : ℕ) (event : T) (p : Processor D T) → SameDedup p (checked o j event p)
  unfolding checked set_caller
  checked-SameDedup none j event p = record { deduplicator = refl; dedup_state = refl }
  checked-SameDedup (some false) j event p = record { deduplicator = refl; dedup_state = refl }
  checked-SameDedup (some true) j event p = record { deduplicator = refl; dedup_state = refl }

  pub try_send-SameDedup :
      (j : ℕ) (event : T) (blocked : Caller T) (p : Processor D T)
      → SameDedup p (try_send j event blocked p)
  unfolding try_send enqueue set_caller
  try_send-SameDedup j event blocked p = record {
    deduplicator = ground arith;
    dedup_state = ground arith;
  }

  pub count_received-SameDedup : (j : ℕ) (p : Processor D T) → SameDedup p (count_received j p)
  unfolding count_received set_caller
  count_received-SameDedup j p = record { deduplicator = refl; dedup_state = refl }

  pub check-SameDedup :
      (o : Option (Deduplicator D T)) (now j : ℕ) (event : T) (p : Processor D T)
      → SameDedup p (check o now j event p)
  unfolding check set_caller
  check-SameDedup none now j event p = record { deduplicator = refl; dedup_state = refl }
  check-SameDedup (some d) now j event p =
      checked-SameDedup (d.is_duplicate p.cancelled now p.dedup_state event) j event p

  -- What a skipped duplicate leaves.
  abbrev pub Skipped : Processor D T → ℕ → Processor D T → Type 0
  Skipped p j q =
      (q.callers j ≡ finished skipped)
      × (q.input_chan ≡ p.input_chan)
      × (q.accepted ≡ p.accepted)
      × (q.events_duplicated ≡ (p.events_duplicated + 1) % 2 ^ 64)

  check-found :
      (o : Option (Deduplicator D T)) (d : Deduplicator D T) (now j : ℕ) (event : T)
      (p : Processor D T)
      → o ≡ some d
      → d.is_duplicate p.cancelled now p.dedup_state event ≡ some true
      → check o now j event p ≡ checked (some true) j event p
  unfolding check
  check-found o d now j event p e found = rw e (rw found refl)

  -- A call that comes to its duplicate check is skipped if the check finds a duplicate.
  pub found-Skipped :
      (now j : ℕ) (event : T) (d : Deduplicator D T) (p : Processor D T)
      → p.deduplicator ≡ some d
      → d.is_duplicate p.cancelled now p.dedup_state event ≡ some true
      → p.callers j ≡ entered event
      → Skipped p j (advance now j p)
  unfolding advance advance_from checked set_caller
  found-Skipped now j event d p has found enters_now =
      subst (Skipped p j)
        (sym (
          ap (λ c. advance_from c now j p) enters_now
          ∙ check-found p.deduplicator d now j event p has found))
        (ground (arith, ==_iff j j), refl, refl, refl)
