-- ===== src/Dedup/Memory/Cleanup.antt =====
-- The goroutine `cleanup` of pkg/dedup/memory.go beside the calls of `Mark` and `Close`, under one
-- clock.
use extend_game_telemetry_co.Prelude.{
  ℕ, ◌+◌, ◌≤◌, ◌≡◌, refl, ap, sym, ◌∙◌, ◌⊎◌, inl, inr, Bool-cases, Bool, true, false, List, [], ◌∷◌,
  ◌++◌, Option, none, some, arith, Text, ℤ, pos,
}
use extend_game_telemetry_co.Dedup.Memory.{
  MemoryDeduplicator, new_memory_deduplicator, is_seen, mark_key, remove_expired, close, lookup,
  older, drop_older, lookup-sweep,
}
use extend_game_telemetry_co.Dedup.Memory.History.{
  Event, marks, sweeps, apply, run, Timely, seen_within_ttl, run-append, ttl-run, run-Distinct,
}

-- `ticked`: the ticker's channel, which holds one tick, is full. `returned`: the goroutine has
-- returned and stopped its ticker.
pub record Running : Type 0 where
  pub dedup : MemoryDeduplicator
  pub now : ℕ
  pub ticked : Bool
  pub returned : Bool

-- `NewMemoryDeduplicator`, which starts the goroutine.
unfoldable pub new_running : ℤ → ℕ → Running
new_running ttl now = record {
  dedup = new_memory_deduplicator ttl;
  now = now;
  ticked = false;
  returned = false;
}

-- The clock goes on, the ticker ticks, the goroutine takes a tick or the signal to stop (either, when
-- both are there), and callers mark keys and close. A second `Close` panics.
pub data CleanupStep (s : Running) : Running → Type 0 where
  passes : (time : ℕ) → s.now ≤ time → CleanupStep s (record s { now = time })
  ticks : s.returned ≡ false → CleanupStep s (record s { ticked = true })
  cleans :
      s.returned ≡ false
      → s.ticked ≡ true
      → CleanupStep s (record s { dedup = remove_expired s.now s.dedup; ticked = false })
  stops : s.returned ≡ false → s.dedup.stopped ≡ true → CleanupStep s (record s { returned = true })
  marks_key : (key : Text) → CleanupStep s (record s { dedup = mark_key s.now key s.dedup })
  closes :
      (d : MemoryDeduplicator) (ok : Bool)
      → close s.dedup ≡ some (d, ok)
      → CleanupStep s (record s { dedup = d })

pub data CleanupRun (s : Running) : Running → Type 0 where
  here : CleanupRun s s
  later : {t u : Running} → CleanupRun s t → CleanupStep t u → CleanupRun s u

-- All times of a history are between two.
abbrev Between : ℕ → ℕ → List Event → Type 0
Between lo hi [] = Unit
Between lo hi (marks now key ∷ es) = (lo ≤ now) × (now ≤ hi) × Between lo hi es
Between lo hi (sweeps now ∷ es) = (lo ≤ now) × (now ≤ hi) × Between lo hi es

Between-later : (lo hi hi' : ℕ) (es : List Event) → hi ≤ hi' → Between lo hi es → Between lo hi' es
Between-later lo hi hi' [] le b = tt
Between-later lo hi hi' (marks now key ∷ es) le b =
    (b.0, omega (arith, b.1), Between-later lo hi hi' es le b.2)
Between-later lo hi hi' (sweeps now ∷ es) le b =
    (b.0, omega (arith, b.1), Between-later lo hi hi' es le b.2)

Between-earlier :
    (lo' lo hi : ℕ) (es : List Event) → lo' ≤ lo → Between lo hi es → Between lo' hi es
Between-earlier lo' lo hi [] le b = tt
Between-earlier lo' lo hi (marks now key ∷ es) le b =
    (omega (arith, b.0), b.1, Between-earlier lo' lo hi es le b.2)
Between-earlier lo' lo hi (sweeps now ∷ es) le b =
    (omega (arith, b.0), b.1, Between-earlier lo' lo hi es le b.2)

Between-append :
    (lo hi : ℕ) (xs ys : List Event)
    → Between lo hi xs
    → Between lo hi ys
    → Between lo hi (xs ++ ys)
Between-append lo hi [] ys b c = c
Between-append lo hi (marks now key ∷ xs) ys b c = (b.0, b.1, Between-append lo hi xs ys b.2 c)
Between-append lo hi (sweeps now ∷ xs) ys b c = (b.0, b.1, Between-append lo hi xs ys b.2 c)

Between-Timely :
    (ttl lo hi : ℕ) (es : List Event) → hi ≤ lo + ttl → Between lo hi es → Timely ttl lo es
Between-Timely ttl lo hi [] le b = tt
Between-Timely ttl lo hi (marks now key ∷ es) le b = (b.0, Between-Timely ttl lo hi es le b.2)
Between-Timely ttl lo hi (sweeps now ∷ es) le b =
    (omega (arith, b.1), Between-Timely ttl lo hi es le b.2)

-- What the steps from `s` to `u` did, as a history in time.
record Logged (s u : Running) : Type 0 where
  events : List Event
  state : u.dedup ≡ run s.dedup events
  times : Between s.now u.now events
  forward : s.now ≤ u.now
  stopped : s.dedup.stopped ≡ u.dedup.stopped

as_history :
    {s u : Running} (es : List Event)
    → u.dedup ≡ run s.dedup es
    → Between s.now u.now es
    → s.now ≤ u.now
    → s.dedup.stopped ≡ u.dedup.stopped
    → Logged s u
as_history es state times forward stopped = record {
  events = es;
  state = state;
  times = times;
  forward = forward;
  stopped = stopped;
}

-- Unless it closes the deduplicator, a step is a history.
CleanupStep-Logged : {s u : Running} → CleanupStep s u → u.dedup.stopped ≡ false → Logged s u
unfolding run apply mark_key remove_expired close
CleanupStep-Logged (passes time le) up = as_history [] refl tt le refl
CleanupStep-Logged (ticks live) up = as_history [] refl tt (omega arith) refl
CleanupStep-Logged {s} (cleans live tick) up =
    as_history (sweeps s.now ∷ []) refl (omega arith, omega arith, tt) (omega arith) refl
CleanupStep-Logged (stops live told) up = as_history [] refl tt (omega arith) refl
CleanupStep-Logged {s} (marks_key key) up =
    as_history (marks s.now key ∷ []) refl (omega arith, omega arith, tt) (omega arith) refl
CleanupStep-Logged (closes d ok done) up = ground (arith, done, up)

CleanupRun-Logged : {s u : Running} → CleanupRun s u → u.dedup.stopped ≡ false → Logged s u
unfolding run
CleanupRun-Logged here up = as_history [] refl tt (omega arith) refl
CleanupRun-Logged {s} {u} (later {t} r step) up =
    let last = CleanupStep-Logged step up in
    let before = CleanupRun-Logged r (last.stopped ∙ up) in
    as_history (before.events ++ last.events)
      (last.state
        ∙ ap (λ d. run d last.events) before.state
        ∙ sym (run-append s.dedup before.events last.events))
      (Between-append s.now u.now before.events last.events
        (Between-later s.now t.now u.now before.events last.forward before.times)
        (Between-earlier s.now t.now u.now last.events before.forward last.times))
      (omega (arith, before.forward, last.forward)) (before.stopped ∙ last.stopped)

-- A marked key lives for its time to live. When a key is marked in any state that the deduplicator
-- can come to, then as long as the clock is not past the time of the mark plus `ttl`, and the
-- deduplicator is not closed, the key is seen: whatever the goroutine `cleanup` and the other callers
-- do in between.
pub marked_lives :
    (ttl began : ℕ) (key : Text) {s u : Running}
    → CleanupRun (new_running (pos ttl) began) s
    → CleanupRun (record s { dedup = mark_key s.now key s.dedup }) u
    → u.dedup.stopped ≡ false
    → u.now ≤ s.now + ttl
    → is_seen key u.dedup ≡ true
unfolding new_running mark_key run apply
marked_lives ttl began key {s} {u} before since up within =
    let rest = CleanupRun-Logged since up in
    let first = CleanupRun-Logged before (rest.stopped ∙ up) in
    ap (is_seen key) (
      rest.state
      ∙ ap (λ d. run (mark_key s.now key d) rest.events) first.state
      ∙ sym (
          run-append (new_memory_deduplicator (pos ttl)) first.events
            (marks s.now key ∷ rest.events)))
    ∙ seen_within_ttl ttl s.now key first.events rest.events
        (Between-Timely ttl s.now u.now rest.events within rest.times)

young :
    (ttl now time : ℕ) (o : Option ℕ) → drop_older now (pos ttl) o ≡ some time → now ≤ time + ttl
unfolding older
young ttl now time none h = cc
young ttl now time (some m) h = ground arith

-- A clean-up leaves nothing that is older than the time to live, so the cache never holds more than
-- the keys that were marked since `ttl` before the last clean-up.
cleaned_is_young :
    (ttl began : ℕ) (key : Text) (time : ℕ) {s : Running}
    → CleanupRun (new_running (pos ttl) began) s
    → s.dedup.stopped ≡ false
    → lookup key (remove_expired s.now s.dedup).cache ≡ some time
    → s.now ≤ time + ttl
unfolding new_running remove_expired new_memory_deduplicator
cleaned_is_young ttl began key time {s} r up found =
    let log = CleanupRun-Logged r up in
    young ttl s.now time (lookup key s.dedup.cache) (
      ap (λ z. drop_older s.now z (lookup key s.dedup.cache))
        (sym (ap (λ d. d.ttl) log.state ∙ ttl-run _ log.events))
      ∙ sym (
          lookup-sweep s.now s.dedup.ttl key s.dedup.cache
            (rw log.state (run-Distinct (new_memory_deduplicator (pos ttl)) log.events tt)))
      ∙ found)

CleanupStep-stopped :
    {s u : Running} → CleanupStep s u → s.dedup.stopped ≡ true → u.dedup.stopped ≡ true
unfolding mark_key remove_expired close
CleanupStep-stopped (passes time le) closed = closed
CleanupStep-stopped (ticks live) closed = closed
CleanupStep-stopped (cleans live tick) closed = closed
CleanupStep-stopped (stops live told) closed = closed
CleanupStep-stopped (marks_key key) closed = closed
CleanupStep-stopped (closes d ok done) closed = ground (arith, done, closed)

CleanupRun-stopped :
    {s u : Running} → CleanupRun s u → s.dedup.stopped ≡ true → u.dedup.stopped ≡ true
CleanupRun-stopped here closed = closed
CleanupRun-stopped (later r step) closed = CleanupStep-stopped step (CleanupRun-stopped r closed)

-- After `Close` the goroutine has returned, or it can return now.
pub closed_returns :
    {s u : Running}
    → CleanupRun s u
    → s.dedup.stopped ≡ true
    → (u.returned ≡ true) ⊎ ((v : Running) × CleanupStep u v × (v.returned ≡ true))
closed_returns {s} {u} r closed = elim (Bool-cases u.returned) [
  | inl gone ↦ inl gone
  | inr live ↦ inr (record u { returned = true }, stops live (CleanupRun-stopped r closed), refl)
]
