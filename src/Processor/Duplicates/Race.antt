-- ===== src/Processor/Duplicates/Race.antt =====
-- Two calls of `Submit` of pkg/processor/processor.go that overlap: the check and the mark of the
-- deduplicator are two calls, and nothing holds them together.
use mathlib.Core.Path.{subst}
use extend_game_telemetry_co.Prelude.{
  ℕ, ◌+◌, ◌<◌, ◌≡◌, ◌≢◌, refl, ◌∙◌, false, [], ◌∷◌, ◌++◌, append_assoc, some, arith, length,
  length-append, lt→ltb, ◌==◌, ==_iff,
}
use extend_game_telemetry_co.Dedup.{Deduplicator}
use extend_game_telemetry_co.Processor.{
  Processor, Caller, entered, fresh, sending, sent, count_received, finished, queued, advance,
  advance_from, check, checked, mark_seen, try_send, enqueue, set_caller,
}
use extend_game_telemetry_co.Processor.Callers.{set_caller-other}
use extend_game_telemetry_co.Processor.Steps.{Reach, here, later, advances}

module _ {D T : Type 0} where
  set_caller-own : (j : ℕ) (c : Caller T) (p : Processor D T) → (set_caller j c p).callers j ≡ c
  unfolding set_caller
  set_caller-own j c p = ground (arith, ==_iff j j)

  -- The three actions of a call that ends in a send.
  checks_new :
      (now j : ℕ) (e : T) (d : Deduplicator D T) (p : Processor D T)
      → p.deduplicator ≡ some d
      → d.is_duplicate p.cancelled now p.dedup_state e ≡ some false
      → p.callers j ≡ entered e
      → advance now j p ≡ set_caller j (fresh e) p
  unfolding advance advance_from check checked
  checks_new now j e d p has new_key stands = rw stands (rw has (rw new_key refl))

  marked_by : ℕ → T → Deduplicator D T → Processor D T → Processor D T
  marked_by now e d p = record p { dedup_state = (d.mark p.cancelled now p.dedup_state e).0 }

  marks_it :
      (now j : ℕ) (e : T) (d : Deduplicator D T) (p : Processor D T)
      → p.deduplicator ≡ some d
      → p.callers j ≡ fresh e
      → advance now j p ≡ set_caller j (sending e) (marked_by now e d p)
  unfolding advance advance_from mark_seen marked_by
  marks_it now j e d p has stands = rw stands (rw has refl)

  sends_it :
      (now j : ℕ) (e : T) (p : Processor D T)
      → p.input_chan.closed ≡ false
      → length p.input_chan.buf < p.input_chan.cap
      → p.callers j ≡ sending e
      → advance now j p ≡ enqueue j e p
  unfolding advance advance_from try_send
  sends_it now j e p open_chan space stands = rw stands (rw open_chan (rw (lt→ltb _ _ space) refl))

  then_to : {p q r : Processor D T} (now j : ℕ) → Reach p q → advance now j q ≡ r → Reach p r
  then_to {p} now j run same = subst (Reach p) same (later run (advances now j))

  -- Both calls have checked and marked.
  both_marked : (now j k : ℕ) (e e' : T) (d : Deduplicator D T) → Processor D T → Processor D T
  unfolding marked_by
  both_marked now j k e e' d p = set_caller k (sending e') (
      marked_by now e' d (
        set_caller j (sending e)
          (marked_by now e d (set_caller k (fresh e') (set_caller j (fresh e) p)))))

  both_mark :
      (now j k : ℕ) (e e' : T) (d : Deduplicator D T) (p : Processor D T)
      → (j == k) ≡ false
      → (k == j) ≡ false
      → p.deduplicator ≡ some d
      → d.is_duplicate p.cancelled now p.dedup_state e ≡ some false
      → d.is_duplicate p.cancelled now p.dedup_state e' ≡ some false
      → p.callers j ≡ entered e
      → p.callers k ≡ entered e'
      → Reach p (both_marked now j k e e' d p)
  unfolding both_marked marked_by set_caller
  both_mark now j k e e' d p apart apart' has new_key new_key' stands stands' =
      let p1 = set_caller j (fresh e) p in
      let p2 = set_caller k (fresh e') p1 in
      let p3 = set_caller j (sending e) (marked_by now e d p2) in
      then_to now k
        (then_to now j
          (then_to now k (then_to now j here (checks_new now j e d p has new_key stands)) (
            checks_new now k e' d p1 has new_key'
              (set_caller-other j k apart (fresh e) p ∙ stands')))
          (marks_it now j e d p2 has
            (set_caller-other k j apart' (fresh e') p1 ∙ set_caller-own j (fresh e) p)))
        (marks_it now k e' d p3 has (
          set_caller-other j k apart (sending e) (marked_by now e d p2)
          ∙ set_caller-own k (fresh e') p1))

  counts_it :
      (now j : ℕ) (p : Processor D T) → p.callers j ≡ sent → advance now j p ≡ count_received j p
  unfolding advance advance_from
  counts_it now j p stands = rw stands refl

  both_send :
      (now j k : ℕ) (e e' : T) (d : Deduplicator D T) (p : Processor D T)
      → (j == k) ≡ false
      → (k == j) ≡ false
      → p.input_chan.closed ≡ false
      → length p.input_chan.buf + 1 < p.input_chan.cap
      → Reach p (both_marked now j k e e' d p)
      → Reach p (
          count_received k
            (count_received j (enqueue k e' (enqueue j e (both_marked now j k e e' d p)))))
  unfolding both_marked marked_by enqueue set_caller count_received
  both_send now j k e e' d p apart apart' open_chan space run =
      let m = both_marked now j k e e' d p in
      let both = enqueue k e' (enqueue j e m) in
      then_to now k
        (then_to now j
          (then_to now k
            (then_to now j run (
              sends_it now j e m open_chan (omega (arith, space))
                (ground (arith, ==_iff j j, apart'))))
            (sends_it now k e' (enqueue j e m) open_chan
              (omega (arith, space, length-append p.input_chan.buf (e ∷ [])))
              (ground (arith, ==_iff k k, apart))))
          (counts_it now j both (ground (arith, ==_iff j j, apart'))))
        (counts_it now k (count_received j both) (ground (arith, ==_iff k k, apart)))

  -- Overlapping calls let a duplicate through. For every deduplicator: when two calls of `Submit`
  -- stand at their checks, the deduplicator knows neither event, whether or not their keys are the
  -- same, and the channel is open with room for two events, then there is an order of their actions
  -- in which both calls end with their event queued.
  pub race_queues_both :
      (now j k : ℕ) (e e' : T) (d : Deduplicator D T) (p : Processor D T)
      → j ≢ k
      → p.deduplicator ≡ some d
      → d.is_duplicate p.cancelled now p.dedup_state e ≡ some false
      → d.is_duplicate p.cancelled now p.dedup_state e' ≡ some false
      → p.callers j ≡ entered e
      → p.callers k ≡ entered e'
      → p.input_chan.closed ≡ false
      → length p.input_chan.buf + 1 < p.input_chan.cap
      → (q : Processor D T) × Reach p q
        × (q.callers j ≡ finished queued)
        × (q.callers k ≡ finished queued)
        × (q.accepted ≡ p.accepted ++ e ∷ e' ∷ [])
  unfolding enqueue set_caller both_marked marked_by count_received
  race_queues_both now j k e e' d p different has new_key new_key' stands stands' open_chan space =
      let apart : (j == k) ≡ false = ground (arith, ==_iff j k, different) in
      let apart' : (k == j) ≡ false = ground (arith, ==_iff k j, different) in
      (
        count_received k
            (count_received j (enqueue k e' (enqueue j e (both_marked now j k e e' d p)))),
        both_send now j k e e' d p apart apart' open_chan space
            (both_mark now j k e e' d p apart apart' has new_key new_key' stands stands'),
        ground (arith, apart', ==_iff j j),
        ground (arith, ==_iff k k),
        append_assoc p.accepted (e ∷ []) (e' ∷ []),
      )
