-- ===== src/Dedup/Memory/Examples.antt =====
-- A memory deduplicator with a time to live of 10.
use extend_game_telemetry_co.Prelude.{◌↔◌, ◌≡◌, refl, true, false, [], ◌∷◌, arith, codes, pos, List}
use extend_game_telemetry_co.Dedup.Memory.{
  new_memory_deduplicator, is_seen, mark_key, remove_expired,
}
use extend_game_telemetry_co.Dedup.Memory.Cleanup.{
  Running, new_running, CleanupRun, here, later, passes, ticks, cleans, marked_lives,
}
use extend_game_telemetry_co.Dedup.Memory.History.{
  Event, marks, sweeps, run, MarkedLast, is_seen_iff,
}

abbrev history : List Event
history = marks 1 (codes "a") ∷ marks 2 (codes "b") ∷ sweeps 12 ∷ []

is_seen_iff_example :
    (is_seen (codes "a") (run (new_memory_deduplicator (pos 10)) history) ≡ true)
    ↔ MarkedLast 10 (codes "a") history
is_seen_iff_example = is_seen_iff 10 (codes "a") history

-- The key "a" is marked at 3, and the goroutine cleans at 8.
abbrev first : Running
first = record (new_running (pos 10) 0) { now = 3 }

first-Reach : CleanupRun (new_running (pos 10) 0) first
unfolding new_running
first-Reach = later here (passes 3 (omega arith))

abbrev marked : Running
marked = record first { dedup = mark_key 3 (codes "a") first.dedup }

abbrev cleaned : Running
cleaned = record marked { now = 8; dedup = remove_expired 8 marked.dedup }

cleaned-Reach : CleanupRun marked cleaned
unfolding new_running
cleaned-Reach = later (later (later here (passes 8 (omega arith))) (ticks refl)) (cleans refl refl)

cleaned_open : cleaned.dedup.stopped ≡ false
unfolding new_running mark_key remove_expired new_memory_deduplicator
cleaned_open = refl

marked_lives_example : is_seen (codes "a") cleaned.dedup ≡ true
marked_lives_example =
    marked_lives 10 0 (codes "a") first-Reach cleaned-Reach cleaned_open (omega arith)
