-- ===== src/Processor/Duplicates.antt =====
-- `Submit` of pkg/processor/processor.go with the memory deduplicator of pkg/dedup/memory.go: an
-- event that was marked keeps later events with its key out.
pub mod Same
pub mod Timed
pub mod Shared
pub mod Race
use mathlib.Core.Path.{subst}
use extend_game_telemetry_co.Prelude.{
  ℕ, ◌+◌, ◌%◌, ◌^◌, ◌≡◌, refl, ap, ◌∙◌, sym, Bool, true, false, List, [], ◌∷◌, Option, none, some,
  Text, arith, ==_iff,
}
use extend_game_telemetry_co.Dedup.{Deduplicator, event_fingerprint}
use extend_game_telemetry_co.Dedup.Memory.{
  MemoryDeduplicator, memory_deduplicator, is_seen, is_seen-marked, is_seen-kept,
}
use extend_game_telemetry_co.Processor.{
  queued, Processor, Worker, Caller, entered, fresh, sending, waiting, sent, count_received,
  finished, idle, skipped, receive, leave, timer_expires, timer_fires, settle, set_worker,
  process_batches, process_batch, set_caller, advance, advance_from, checked, check, mark_seen,
  try_send, enqueue, refuse, enter, close_input, cancel, dedup_changes, add_uint64,
}
use extend_game_telemetry_co.Processor.Batcher.{Flushing}
use extend_game_telemetry_co.Processor.Steps.{
  Step, receives, leaves_closed, leaves_cancelled, expires, fires, enters, advances, refuses,
  closes, cancels, changes, Reach, here, later,
}
use extend_game_telemetry_co.Processor.Duplicates.Same.{
  SameDedup, settle-SameDedup, try_send-SameDedup, count_received-SameDedup, check-SameDedup,
  Skipped, found-Skipped,
}

module _ {T : Type 0} (sha256 : Text → List ℕ) (key_of : T → Text) where
  -- The processor has the memory deduplicator, which has seen the key.
  abbrev pub Knows : Text → Processor MemoryDeduplicator T → Type 0
  Knows key p =
      (p.deduplicator ≡ some (memory_deduplicator sha256 key_of))
      × (is_seen (event_fingerprint sha256 key) p.dedup_state ≡ true)

  SameDedup-Knows :
      (key : Text) {p q : Processor MemoryDeduplicator T}
      → SameDedup p q
      → Knows key p
      → Knows key q
  SameDedup-Knows key same h =
      (same.deduplicator ∙ h.0, ap (is_seen (event_fingerprint sha256 key)) same.dedup_state ∙ h.1)

  mark_seen-Knows :
      (key : Text) (o : Option (Deduplicator MemoryDeduplicator T)) (now j : ℕ) (event : T)
      (p : Processor MemoryDeduplicator T)
      → o ≡ some (memory_deduplicator sha256 key_of)
      → Knows key p
      → Knows key (mark_seen o now j event p)
  unfolding mark_seen set_caller
  mark_seen-Knows key o now j event p e h = rw e (
    h.0,
    is_seen-kept now (event_fingerprint sha256 key) (event_fingerprint sha256 (key_of event))
        p.dedup_state h.1,
  )

  mark_seen-marks :
      (o : Option (Deduplicator MemoryDeduplicator T)) (now j : ℕ) (event : T)
      (p : Processor MemoryDeduplicator T)
      → o ≡ some (memory_deduplicator sha256 key_of)
      → p.deduplicator ≡ some (memory_deduplicator sha256 key_of)
      → Knows (key_of event) (mark_seen o now j event p)
  unfolding mark_seen set_caller
  mark_seen-marks o now j event p e has =
      rw e (has, is_seen-marked now (event_fingerprint sha256 (key_of event)) p.dedup_state)

  advance_from-Knows :
      (key : Text) (c : Caller T) (now j : ℕ) (p : Processor MemoryDeduplicator T)
      → Knows key p
      → Knows key (advance_from c now j p)
  unfolding advance_from
  advance_from-Knows key (entered event) now j p h =
      SameDedup-Knows key (check-SameDedup p.deduplicator now j event p) h
  advance_from-Knows key (fresh event) now j p h =
      mark_seen-Knows key p.deduplicator now j event p h.0 h
  advance_from-Knows key (sending event) now j p h =
      SameDedup-Knows key (try_send-SameDedup j event (waiting event) p) h
  advance_from-Knows key (waiting event) now j p h =
      SameDedup-Knows key (try_send-SameDedup j event (waiting event) p) h
  advance_from-Knows key sent now j p h = SameDedup-Knows key (count_received-SameDedup j p) h
  advance_from-Knows key (finished o) now j p h = h
  advance_from-Knows key idle now j p h = h

  -- A step that is no clean-up, or a clean-up that keeps the key.
  abbrev pub Spares : (key : Text) {p q : Processor MemoryDeduplicator T} → Step p q → Type 0
  Spares key (changes d) = is_seen (event_fingerprint sha256 key) d ≡ true
  Spares key (receives i event rest lt up has) = Unit
  Spares key (leaves_closed i lt up none_left closed) = Unit
  Spares key (leaves_cancelled i lt up cancelled) = Unit
  Spares key (expires i lt) = Unit
  Spares key (fires i lt) = Unit
  Spares key (enters j event free) = Unit
  Spares key (advances now j) = Unit
  Spares key (refuses j event waits cancelled) = Unit
  Spares key (closes open_chan) = Unit
  Spares key (cancels closed) = Unit

  Step-Knows :
      (key : Text) {p q : Processor MemoryDeduplicator T} (s : Step p q)
      → Spares key s
      → Knows key p
      → Knows key q
  unfolding receive leave timer_expires timer_fires enter refuse set_caller close_input cancel
      dedup_changes advance
  Step-Knows key {p} (receives i event rest lt up has) spared h =
      SameDedup-Knows key
        (settle-SameDedup i (p.pool i).exited _
          (record p { input_chan = record p.input_chan { buf = rest } }))
        h
  Step-Knows key {p} (leaves_closed i lt up none_left closed) spared h =
      SameDedup-Knows key (settle-SameDedup i true _ p) h
  Step-Knows key {p} (leaves_cancelled i lt up cancelled) spared h =
      SameDedup-Knows key (settle-SameDedup i true _ p) h
  Step-Knows key {p} (expires i lt) spared h =
      SameDedup-Knows key (settle-SameDedup i (p.pool i).exited _ p) h
  Step-Knows key {p} (fires i lt) spared h =
      SameDedup-Knows key (settle-SameDedup i (p.pool i).exited _ p) h
  Step-Knows key (enters j event free) spared h = h
  Step-Knows key {p} (advances now j) spared h = advance_from-Knows key (p.callers j) now j p h
  Step-Knows key (refuses j event waits cancelled) spared h = h
  Step-Knows key (closes open_chan) spared h = h
  Step-Knows key (cancels closed) spared h = h
  Step-Knows key (changes d) spared h = (h.0, spared)

  -- A run in which no clean-up forgets the key.
  abbrev pub Remembers : (key : Text) {p q : Processor MemoryDeduplicator T} → Reach p q → Type 0
  Remembers key here = Unit
  Remembers key (later r s) = Remembers key r × Spares key s

  Reach-Knows :
      (key : Text) {p q : Processor MemoryDeduplicator T} (r : Reach p q)
      → Remembers key r
      → Knows key p
      → Knows key q
  Reach-Knows key here kept h = h
  Reach-Knows key (later r s) kept h = Step-Knows key s kept.1 (Reach-Knows key r kept.0 h)

  marked-Knows :
      (now j : ℕ) (event : T) (p : Processor MemoryDeduplicator T)
      → p.deduplicator ≡ some (memory_deduplicator sha256 key_of)
      → p.callers j ≡ fresh event
      → Knows (key_of event) (advance now j p)
  unfolding advance advance_from
  marked-Knows now j event p has at_mark =
      subst (λ c. Knows (key_of event) (advance_from c now j p)) (sym at_mark)
        (mark_seen-marks p.deduplicator now j event p has has)

  pub known-Skipped :
      (now j : ℕ) (event : T) (p : Processor MemoryDeduplicator T)
      → Knows (key_of event) p
      → p.callers j ≡ entered event
      → Skipped p j (advance now j p)
  known-Skipped now j event p known enters_now =
      found-Skipped now j event (memory_deduplicator sha256 key_of) p known.0 (ap some known.1)
        enters_now

  -- A duplicate is skipped. With the memory deduplicator: after a call of `Submit` has marked its
  -- event, and whatever runs then in whatever order, a call that comes to its duplicate check with
  -- an event of the same key ends as a duplicate, adds one to the counter of duplicates (modulo
  -- 2 ^ 64), and leaves channel and accepted events alone; provided that no change of the
  -- deduplicator's state from outside, such as a clean-up, has forgotten the key in between.
  pub duplicate_skipped :
      (p q : Processor MemoryDeduplicator T) (now now' j j' : ℕ) (event event' : T)
      (run : Reach (advance now j p) q)
      → p.deduplicator ≡ some (memory_deduplicator sha256 key_of)
      → p.callers j ≡ fresh event
      → key_of event ≡ key_of event'
      → Remembers (key_of event) run
      → q.callers j' ≡ entered event'
      → ((advance now' j' q).callers j' ≡ finished skipped)
        × ((advance now' j' q).input_chan ≡ q.input_chan)
        × ((advance now' j' q).accepted ≡ q.accepted)
        × ((advance now' j' q).events_duplicated ≡ (q.events_duplicated + 1) % 2 ^ 64)
  duplicate_skipped p q now now' j j' event event' run has at_mark same kept at_check =
      known-Skipped now' j' event' q
        (subst (λ key. Knows key q) same
          (Reach-Knows (key_of event) run kept (marked-Knows now j event p has at_mark)))
        at_check
