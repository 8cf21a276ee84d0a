-- ===== src/Processor/Duplicates/Timed.antt =====
-- `Submit` of pkg/processor/processor.go with the memory deduplicator of pkg/dedup/memory.go, whose
-- clean-up runs in between: the calls that reach the deduplicator as a history, and the time to live.
use mathlib.Core.Path.{subst}
use extend_game_telemetry_co.Prelude.{
  ℕ, ◌+◌, ◌≤◌, ◌%◌, ◌^◌, ◌≡◌, refl, ap, ◌∙◌, sym, true, List, [], ◌∷◌, ◌++◌, Option, none, some,
  Text, pos,
}
use extend_game_telemetry_co.Dedup.{Deduplicator, event_fingerprint}
use extend_game_telemetry_co.Dedup.Memory.{
  MemoryDeduplicator, new_memory_deduplicator, memory_deduplicator, is_seen, remove_expired,
}
use extend_game_telemetry_co.Dedup.Memory.History.{
  Event, marks, sweeps, apply, run, Timely, seen_within_ttl, run-append, Timely-append,
}
use extend_game_telemetry_co.Processor.Duplicates.{known-Skipped}
use extend_game_telemetry_co.Processor.Duplicates.Same.{
  SameDedup, settle-SameDedup, try_send-SameDedup, count_received-SameDedup, check-SameDedup,
}
use extend_game_telemetry_co.Processor.{
  Processor, Caller, entered, fresh, sending, waiting, sent, finished, idle, skipped, receive,
  leave, timer_expires, timer_fires, set_caller, advance, advance_from, mark_seen, refuse, enter,
  close_input, cancel, dedup_changes,
}
use extend_game_telemetry_co.Processor.Steps.{
  Step, receives, leaves_closed, leaves_cancelled, expires, fires, enters, advances, refuses,
  closes, cancels, changes, Reach, here, later,
}

module _ {T : Type 0} (sha256 : Text → List ℕ) (key_of : T → Text) (ttl t : ℕ) where
  -- A step at a time from `t` on; a change of the deduplicator's state is a clean-up, not later than
  -- `t + ttl`.
  abbrev pub OnTime : {p q : Processor MemoryDeduplicator T} → Step p q → Type 0
  OnTime {p} (changes d) = (now : ℕ) × (d ≡ remove_expired now p.dedup_state) × (now ≤ t + ttl)
  OnTime (advances now j) = t ≤ now
  OnTime (receives i event rest lt up has) = Unit
  OnTime (leaves_closed i lt up none_left closed) = Unit
  OnTime (leaves_cancelled i lt up cancelled) = Unit
  OnTime (expires i lt) = Unit
  OnTime (fires i lt) = Unit
  OnTime (enters j event free) = Unit
  OnTime (refuses j event waits cancelled) = Unit
  OnTime (closes open_chan) = Unit
  OnTime (cancels closed) = Unit

  abbrev pub AllOnTime : {p q : Processor MemoryDeduplicator T} → Reach p q → Type 0
  AllOnTime here = Unit
  AllOnTime (later r s) = AllOnTime r × OnTime s

  abbrev Has : Processor MemoryDeduplicator T → Type 0
  Has p = p.deduplicator ≡ some (memory_deduplicator sha256 key_of)

  -- What a step does to the memory deduplicator is a history in time.
  record Logged (p q : Processor MemoryDeduplicator T) : Type 0 where
    has : Has q
    events : List Event
    state : q.dedup_state ≡ run p.dedup_state events
    timely : Timely ttl t events

  SameDedup-Logged : {p q : Processor MemoryDeduplicator T} → Has p → SameDedup p q → Logged p q
  unfolding run
  SameDedup-Logged has same = record {
    has = same.deduplicator ∙ has;
    events = [];
    state = same.dedup_state;
    timely = tt;
  }

  abbrev same_as : (p : Processor MemoryDeduplicator T) → SameDedup p p
  same_as p = record { deduplicator = refl; dedup_state = refl }

  marked-state :
      (o : Option (Deduplicator MemoryDeduplicator T)) (now j : ℕ) (event : T)
      (p : Processor MemoryDeduplicator T)
      → o ≡ some (memory_deduplicator sha256 key_of)
      → (mark_seen o now j event p).dedup_state
        ≡ run p.dedup_state (marks now (event_fingerprint sha256 (key_of event)) ∷ [])
  unfolding mark_seen set_caller run apply
  marked-state o now j event p e = rw e refl

  marked-deduplicator :
      (o : Option (Deduplicator MemoryDeduplicator T)) (now j : ℕ) (event : T)
      (p : Processor MemoryDeduplicator T)
      → (mark_seen o now j event p).deduplicator ≡ p.deduplicator
  unfolding mark_seen set_caller
  marked-deduplicator none now j event p = refl
  marked-deduplicator (some d) now j event p = refl

  mark_seen-Logged :
      (now j : ℕ) (event : T) (p : Processor MemoryDeduplicator T)
      → Has p
      → t ≤ now
      → Logged p (mark_seen p.deduplicator now j event p)
  mark_seen-Logged now j event p has on_time = record {
    has = marked-deduplicator p.deduplicator now j event p ∙ has;
    events = marks now (event_fingerprint sha256 (key_of event)) ∷ [];
    state = marked-state p.deduplicator now j event p has;
    timely = (on_time, tt);
  }

  advance_from-Logged :
      (c : Caller T) (now j : ℕ) (p : Processor MemoryDeduplicator T)
      → Has p
      → t ≤ now
      → Logged p (advance_from c now j p)
  unfolding advance_from
  advance_from-Logged (entered event) now j p has on_time =
      SameDedup-Logged has (check-SameDedup p.deduplicator now j event p)
  advance_from-Logged (fresh event) now j p has on_time = mark_seen-Logged now j event p has on_time
  advance_from-Logged (sending event) now j p has on_time =
      SameDedup-Logged has (try_send-SameDedup j event (waiting event) p)
  advance_from-Logged (waiting event) now j p has on_time =
      SameDedup-Logged has (try_send-SameDedup j event (waiting event) p)
  advance_from-Logged sent now j p has on_time = SameDedup-Logged has (count_received-SameDedup j p)
  advance_from-Logged (finished o) now j p has on_time = SameDedup-Logged has (same_as p)
  advance_from-Logged idle now j p has on_time = SameDedup-Logged has (same_as p)

  Step-Logged :
      {p q : Processor MemoryDeduplicator T} (s : Step p q) → OnTime s → Has p → Logged p q
  unfolding receive leave timer_expires timer_fires enter refuse set_caller close_input cancel
      dedup_changes advance run apply
  Step-Logged {p} (receives i event rest lt up has) on_time h =
      let moved =
        settle-SameDedup i (p.pool i).exited _
          (record p { input_chan = record p.input_chan { buf = rest } }) in
      SameDedup-Logged h
        (record { deduplicator = moved.deduplicator; dedup_state = moved.dedup_state })
  Step-Logged {p} (leaves_closed i lt up none_left closed) on_time h =
      SameDedup-Logged h (settle-SameDedup i true _ p)
  Step-Logged {p} (leaves_cancelled i lt up cancelled) on_time h =
      SameDedup-Logged h (settle-SameDedup i true _ p)
  Step-Logged {p} (expires i lt) on_time h =
      SameDedup-Logged h (settle-SameDedup i (p.pool i).exited _ p)
  Step-Logged {p} (fires i lt) on_time h =
      SameDedup-Logged h (settle-SameDedup i (p.pool i).exited _ p)
  Step-Logged (enters j event free) on_time h =
      SameDedup-Logged h (record { deduplicator = refl; dedup_state = refl })
  Step-Logged {p} (advances now j) on_time h = advance_from-Logged (p.callers j) now j p h on_time
  Step-Logged (refuses j event waits cancelled) on_time h =
      SameDedup-Logged h (record { deduplicator = refl; dedup_state = refl })
  Step-Logged (closes open_chan) on_time h =
      SameDedup-Logged h (record { deduplicator = refl; dedup_state = refl })
  Step-Logged (cancels closed) on_time h =
      SameDedup-Logged h (record { deduplicator = refl; dedup_state = refl })
  Step-Logged (changes d) on_time h = record {
    has = h;
    events = sweeps on_time.0 ∷ [];
    state = on_time.1;
    timely = (on_time.2, tt);
  }

  Reach-Logged :
      {p q : Processor MemoryDeduplicator T} (r : Reach p q) → AllOnTime r → Has p → Logged p q
  Reach-Logged {p} here on_time h = SameDedup-Logged h (same_as p)
  Reach-Logged {p} (later {q} r s) on_time h =
      let before = Reach-Logged r on_time.0 h in
      let now = Step-Logged s on_time.1 before.has in
      record {
        has = now.has;
        events = before.events ++ now.events;
        state =
            now.state
            ∙ ap (λ d. run d now.events) before.state
            ∙ sym (run-append p.dedup_state before.events now.events);
        timely = Timely-append ttl t before.events now.events before.timely now.timely;
      }

  marked-log :
      (now j : ℕ) (event : T) (p : Processor MemoryDeduplicator T)
      → Has p
      → p.callers j ≡ fresh event
      → Has (advance now j p)
        × ((advance now j p).dedup_state
            ≡ run p.dedup_state (marks now (event_fingerprint sha256 (key_of event)) ∷ []))
  unfolding advance advance_from
  marked-log now j event p has at_mark = rw at_mark (
    marked-deduplicator p.deduplicator now j event p ∙ has,
    marked-state p.deduplicator now j event p has,
  )

  -- The deduplicator works for its time to live. With a memory deduplicator that a history of marks
  -- and clean-ups of a new one has left, with the time to live `ttl`: when a call of `Submit` marks
  -- its event at time `t`, and then anything runs in any order, at times from `t` on and with
  -- clean-ups not later than `t + ttl`, a call that comes to its duplicate check with an event of the
  -- same key ends as a duplicate, adds one to the counter of duplicates (modulo 2 ^ 64), and leaves
  -- channel and accepted events alone.
  pub duplicate_within_ttl :
      (p q : Processor MemoryDeduplicator T) (now' j j' : ℕ) (event event' : T)
      (history : List Event) (r : Reach (advance t j p) q)
      → p.deduplicator ≡ some (memory_deduplicator sha256 key_of)
      → p.dedup_state ≡ run (new_memory_deduplicator (pos ttl)) history
      → p.callers j ≡ fresh event
      → key_of event ≡ key_of event'
      → AllOnTime r
      → q.callers j' ≡ entered event'
      → ((advance now' j' q).callers j' ≡ finished skipped)
        × ((advance now' j' q).input_chan ≡ q.input_chan)
        × ((advance now' j' q).accepted ≡ q.accepted)
        × ((advance now' j' q).events_duplicated ≡ (q.events_duplicated + 1) % 2 ^ 64)
  duplicate_within_ttl p q now' j j' event event' history r has began at_mark same on_time
        at_check =
      let key = event_fingerprint sha256 (key_of event) in
      let first = marked-log t j event p has at_mark in
      let rest = Reach-Logged r on_time first.0 in
      known-Skipped sha256 key_of now' j' event' q
        (
          rest.has,
          subst (λ key. is_seen (event_fingerprint sha256 key) q.dedup_state ≡ true) same
              (ap (is_seen key) (
                  rest.state
                  ∙ ap (λ d. run d rest.events) (first.1 ∙ ap (λ d. run d (marks t key ∷ [])) began)
                  ∙ sym (run-append _ (marks t key ∷ []) rest.events)
                  ∙ sym (run-append _ history (marks t key ∷ rest.events)))
                ∙ seen_within_ttl ttl t key history rest.events rest.timely),
        )
        at_check
