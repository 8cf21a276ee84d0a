-- ===== src/Processor/Unskipped.antt =====
-- `Submit` of pkg/processor/processor.go with a deduplicator that never finds a duplicate: one that is
-- switched off, or one whose checks all fail.
use mathlib.Core.Option.{some-injective}
use mathlib.Core.Path.{subst}
use extend_game_telemetry_co.Prelude.{
  ℕ, ◌≡◌, ◌≢◌, refl, ap, sym, ◌∙◌, Bool, true, false, List, [], ◌∷◌, Option, none, some, ◌==◌, ltb,
  length, if-both,
}
use extend_game_telemetry_co.Dedup.{Deduplicator}
use extend_game_telemetry_co.Processor.Batcher.{make_cap, Batcher, Flushing}
use extend_game_telemetry_co.Processor.FanOut.{Plugin}
use extend_game_telemetry_co.Processor.Callers.{settle-callers}
use extend_game_telemetry_co.Processor.Duplicates.Same.{settle-SameDedup}
use extend_game_telemetry_co.Processor.{
  Limits, Config, start, launch, started, Processor, Caller, entered, fresh, sending, waiting, sent,
  count_received, finished, idle, queued, skipped, refused, panicked, receive, leave, timer_expires,
  timer_fires, settle, set_worker, process_batches, process_batch, set_caller, advance,
  advance_from, checked, check, mark_seen, try_send, enqueue, refuse, enter, close_input, cancel,
  dedup_changes,
}
use extend_game_telemetry_co.Processor.Steps.{
  Step, receives, leaves_closed, leaves_cancelled, expires, fires, enters, advances, refuses,
  closes, cancels, changes, Reach, here, later, continued,
}
use extend_game_telemetry_co.Processor.Safety.{Reachable}

unfoldable pub NotSkipped : {T : Type 0} → Caller T → Type 0
NotSkipped (finished skipped) = ⊥
NotSkipped (finished queued) = Unit
NotSkipped (finished refused) = Unit
NotSkipped (finished panicked) = Unit
NotSkipped (entered e) = Unit
NotSkipped (fresh e) = Unit
NotSkipped (sending e) = Unit
NotSkipped (waiting e) = Unit
NotSkipped sent = Unit
NotSkipped idle = Unit

module _ {D T : Type 0} where
  -- No check of the deduplicator ends with "duplicate", in whatever state and at whatever time.
  unfoldable pub NeverFinds : Deduplicator D T → Type 0
  NeverFinds d =
      (done : Bool) (now : ℕ) (state : D) (e : T) → d.is_duplicate done now state e ≢ some true

  -- The processor has the deduplicator, and no call was skipped.
  pub record Unskipped (d : Deduplicator D T) (p : Processor D T) : Type 0 where
    pub deduplicator : p.deduplicator ≡ some d
    pub callers : (j : ℕ) → NotSkipped (p.callers j)
    pub none_counted : p.events_duplicated ≡ 0

  process_batches-duplicated :
      (bs : List (List T)) (p : Processor D T)
      → (process_batches bs p).events_duplicated ≡ p.events_duplicated
  unfolding process_batches process_batch
  process_batches-duplicated [] p = refl
  process_batches-duplicated ([] ∷ bs) p = process_batches-duplicated bs p
  process_batches-duplicated ((e ∷ es) ∷ bs) p =
      process_batches-duplicated bs (process_batch (e ∷ es) p)

  module _ (d : Deduplicator D T) where
    same-Unskipped :
        {p q : Processor D T}
        → q.deduplicator ≡ p.deduplicator
        → q.callers ≡ p.callers
        → q.events_duplicated ≡ p.events_duplicated
        → Unskipped d p
        → Unskipped d q
    same-Unskipped same_dedup same_callers same_count h = record {
      deduplicator = same_dedup ∙ h.deduplicator;
      callers = λ j. subst (λ c. NotSkipped (c j)) (sym same_callers) (h.callers j);
      none_counted = same_count ∙ h.none_counted;
    }

    settle-Unskipped :
        (i : ℕ) (exited : Bool) (r : Flushing T) (p : Processor D T)
        → Unskipped d p
        → Unskipped d (settle i exited r p)
    unfolding settle set_worker
    settle-Unskipped i exited r p h =
        same-Unskipped (settle-SameDedup i exited r p).deduplicator (settle-callers i exited r p)
          (process_batches-duplicated r.1
            (set_worker i (record { batcher = r.0; exited = exited }) p))
          h

    set_caller-Unskipped :
        (j : ℕ) (c : Caller T) (p : Processor D T)
        → NotSkipped c
        → Unskipped d p
        → Unskipped d (set_caller j c p)
    unfolding set_caller
    set_caller-Unskipped j c p fine h = record {
      deduplicator = h.deduplicator;
      callers = λ i. if-both NotSkipped (j == i) fine (h.callers i);
      none_counted = h.none_counted;
    }

    checked-Unskipped :
        (o : Option Bool) (j : ℕ) (event : T) (p : Processor D T)
        → o ≢ some true
        → Unskipped d p
        → Unskipped d (checked o j event p)
    unfolding checked NotSkipped
    checked-Unskipped none j event p other h = set_caller-Unskipped j (fresh event) p tt h
    checked-Unskipped (some false) j event p other h = set_caller-Unskipped j (fresh event) p tt h
    checked-Unskipped (some true) j event p other h = absurd (other refl)

    mark_seen-Unskipped :
        (o : Option (Deduplicator D T)) (now j : ℕ) (event : T) (p : Processor D T)
        → Unskipped d p
        → Unskipped d (mark_seen o now j event p)
    unfolding mark_seen NotSkipped
    mark_seen-Unskipped none now j event p h = set_caller-Unskipped j (sending event) p tt h
    mark_seen-Unskipped (some other) now j event p h =
        set_caller-Unskipped j (sending event)
          (record p { dedup_state = (other.mark p.cancelled now p.dedup_state event).0 }) tt
          (same-Unskipped refl refl refl h)

    try_send-Unskipped :
        (j : ℕ) (event : T) (p : Processor D T)
        → Unskipped d p
        → Unskipped d (try_send j event (waiting event) p)
    unfolding try_send enqueue NotSkipped
    try_send-Unskipped j event p h =
        if-both (Unskipped d) p.input_chan.closed
          (set_caller-Unskipped j (finished panicked) p tt h)
          (if-both (Unskipped d) (ltb (length p.input_chan.buf) p.input_chan.cap)
            (set_caller-Unskipped j sent _ tt (same-Unskipped refl refl refl h))
            (set_caller-Unskipped j (waiting event) p tt h))

    module _ (never : NeverFinds d) where
      check-Unskipped :
          (o : Option (Deduplicator D T)) (now j : ℕ) (event : T) (p : Processor D T)
          → o ≡ some d
          → Unskipped d p
          → Unskipped d (check o now j event p)
      unfolding check NeverFinds
      check-Unskipped none now j event p same h = cc
      check-Unskipped (some other) now j event p same h =
          checked-Unskipped (other.is_duplicate p.cancelled now p.dedup_state event) j event p
            (subst (λ x. x.is_duplicate p.cancelled now p.dedup_state event ≢ some true)
              (sym (some-injective _ _ same)) (never p.cancelled now p.dedup_state event))
            h

      advance_from-Unskipped :
          (c : Caller T) (now j : ℕ) (p : Processor D T)
          → Unskipped d p
          → Unskipped d (advance_from c now j p)
      unfolding advance_from count_received NotSkipped
      advance_from-Unskipped (entered event) now j p h =
          check-Unskipped p.deduplicator now j event p h.deduplicator h
      advance_from-Unskipped (fresh event) now j p h =
          mark_seen-Unskipped p.deduplicator now j event p h
      advance_from-Unskipped (sending event) now j p h = try_send-Unskipped j event p h
      advance_from-Unskipped (waiting event) now j p h = try_send-Unskipped j event p h
      advance_from-Unskipped sent now j p h =
          set_caller-Unskipped j (finished queued) _ tt (same-Unskipped refl refl refl h)
      advance_from-Unskipped (finished o) now j p h = h
      advance_from-Unskipped idle now j p h = h

      Step-Unskipped : {p q : Processor D T} → Step p q → Unskipped d p → Unskipped d q
      unfolding receive leave timer_expires timer_fires enter refuse close_input cancel
          dedup_changes advance NotSkipped
      Step-Unskipped {p} (receives i event rest lt up has) h =
          settle-Unskipped i (p.pool i).exited _
            (record p { input_chan = record p.input_chan { buf = rest } })
            (same-Unskipped refl refl refl h)
      Step-Unskipped {p} (leaves_closed i lt up none_left closed) h = settle-Unskipped i true _ p h
      Step-Unskipped {p} (leaves_cancelled i lt up cancelled) h = settle-Unskipped i true _ p h
      Step-Unskipped {p} (expires i lt) h = settle-Unskipped i (p.pool i).exited _ p h
      Step-Unskipped {p} (fires i lt) h = settle-Unskipped i (p.pool i).exited _ p h
      Step-Unskipped {p} (enters j event free) h = set_caller-Unskipped j (entered event) p tt h
      Step-Unskipped {p} (advances now j) h = advance_from-Unskipped (p.callers j) now j p h
      Step-Unskipped {p} (refuses j event waits cancelled) h =
          set_caller-Unskipped j (finished refused) _ tt (same-Unskipped refl refl refl h)
      Step-Unskipped {p} (closes open_chan) h = same-Unskipped refl refl refl h
      Step-Unskipped {p} (cancels closed) h = same-Unskipped refl refl refl h
      Step-Unskipped {p} (changes s) h = same-Unskipped refl refl refl h

      Reach-Unskipped : {p q : Processor D T} → Reach p q → Unskipped d p → Unskipped d q
      Reach-Unskipped here h = h
      Reach-Unskipped (later r s) h = Step-Unskipped s (Reach-Unskipped r h)

      launch-Unskipped :
          (buffer : Option ℕ) (made : Option (Batcher T)) (workers : ℕ) (plugins : List (Plugin T))
          (state : D) (p : Processor D T)
          → launch buffer made workers plugins (some d) state ≡ some p
          → Unskipped d p
      unfolding launch started NotSkipped
      launch-Unskipped none made workers plugins state p e = cc
      launch-Unskipped (some size) none workers plugins state p e = cc
      launch-Unskipped (some size) (some b) workers plugins state p e =
          subst (Unskipped d) (some-injective _ _ e)
            (record { deduplicator = refl; callers = λ j. tt; none_counted = refl })

      start-Unskipped :
          (limits : Limits) (config : Config) (plugins : List (Plugin T)) (state : D)
          (p : Processor D T)
          → start limits config plugins (some d) state ≡ some p
          → Unskipped d p
      unfolding start
      start-Unskipped limits config plugins state p e =
          launch-Unskipped (make_cap limits.chan_cap config.channel_buffer) _ _ plugins state p e

      -- With such a deduplicator, in every reachable state no call of `Submit` was skipped as a
      -- duplicate, and the counter of duplicates is 0.
      pub nothing_skipped :
          {p q : Processor D T} (r : Reachable p) → r.dedup ≡ some d → Reach p q → Unskipped d q
      nothing_skipped r same run = Reach-Unskipped (continued r.steps run) (
          start-Unskipped r.limits r.config r.plugins r.dedup_state r.first
            (ap (λ o. start r.limits r.config r.plugins o r.dedup_state) (sym same) ∙ r.starts))
