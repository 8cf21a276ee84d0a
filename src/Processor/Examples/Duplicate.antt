-- ===== src/Processor/Examples/Duplicate.antt =====
-- Two calls of `Submit` with one key, with the memory deduplicator.
use extend_game_telemetry_co.Prelude.{
  ℕ, ◌+◌, ◌<◌, ◌%◌, ◌^◌, ◌≡◌, ◌++◌, length, refl, List, [], ◌∷◌, some, Text, pos, inl, false, arith,
}
use extend_game_telemetry_co.Dedup.Memory.{
  MemoryDeduplicator, new_memory_deduplicator, memory_deduplicator, is_seen, remove_expired,
}
use extend_game_telemetry_co.Dedup.Memory.History.{run}
use extend_game_telemetry_co.Processor.Duplicates.Race.{race_queues_both}
use extend_game_telemetry_co.Processor.Duplicates.Timed.{AllOnTime, duplicate_within_ttl}
use extend_game_telemetry_co.Processor.{
  Processor, fresh, entered, finished, skipped, queued, idle, advance, enter, dedup_changes,
}
use extend_game_telemetry_co.Processor.Steps.{Reach, here, later, advances, enters, changes}
use extend_game_telemetry_co.Processor.Duplicates.{Remembers}
use extend_game_telemetry_co.Processor.Examples.{first}

-- In place of the digest, its input.
abbrev digest : Text → List ℕ
digest t = t

-- The key of a number is its text as one character.
abbrev key_of : ℕ → Text
key_of n = n ∷ []

abbrev ready : Processor MemoryDeduplicator ℕ
ready = record {
  workers = 1;
  input_chan = record { buf = []; cap = 2; closed = false };
  plugins = [];
  deduplicator = some (memory_deduplicator digest key_of);
  dedup_state = new_memory_deduplicator (pos 10);
  cancelled = false;
  events_received = 0;
  events_processed = 0;
  events_duplicated = 0;
  events_dropped = 0;
  pool = first.pool;
  callers = λ _. idle;
  accepted = [];
  flushed = [];
}

-- The first call has checked its event.
abbrev checked_first : Processor MemoryDeduplicator ℕ
checked_first = advance 1 0 (enter 0 7 ready)

-- It marks and sends; a second call enters.
abbrev again : Processor MemoryDeduplicator ℕ
again = enter 1 7 (advance 2 0 (advance 2 0 checked_first))

second_enters : Reach (advance 2 0 checked_first) again
unfolding enter advance is_seen new_memory_deduplicator
second_enters = later (later here (advances 2 0)) (enters 1 7 (inl refl))

second-Remembers : Remembers digest key_of (key_of 7) second_enters
unfolding second_enters
second-Remembers = ((tt, tt), tt)

first_fresh : checked_first.callers 0 ≡ fresh 7
unfolding enter advance is_seen new_memory_deduplicator
first_fresh = refl

second_entered : again.callers 1 ≡ entered 7
unfolding enter advance
second_entered = refl

has_memory : checked_first.deduplicator ≡ some (memory_deduplicator digest key_of)
unfolding enter advance is_seen new_memory_deduplicator
has_memory = refl

-- A clean-up runs before the second call.
abbrev swept : Processor MemoryDeduplicator ℕ
swept =
    let sent = advance 2 0 (advance 2 0 checked_first) in
    enter 1 7 (dedup_changes (remove_expired 12 sent.dedup_state) sent)

swept-Reach : Reach (advance 2 0 checked_first) swept
unfolding enter advance is_seen new_memory_deduplicator dedup_changes
swept-Reach =
    later (later (later here (advances 2 0)) (changes (remove_expired 12 _)))
      (enters 1 7 (inl refl))

swept_on_time : AllOnTime digest key_of 10 2 swept-Reach
unfolding swept-Reach
swept_on_time = (((tt, omega arith), (12, refl, omega arith)), tt)

swept_entered : swept.callers 1 ≡ entered 7
unfolding enter advance
swept_entered = refl

began : checked_first.dedup_state ≡ run (new_memory_deduplicator (pos 10)) []
unfolding enter advance is_seen new_memory_deduplicator run
began = refl

duplicate_within_ttl_example :
    ((advance 14 1 swept).callers 1 ≡ finished skipped)
    × ((advance 14 1 swept).input_chan ≡ swept.input_chan)
    × ((advance 14 1 swept).accepted ≡ swept.accepted)
    × ((advance 14 1 swept).events_duplicated ≡ (swept.events_duplicated + 1) % 2 ^ 64)
duplicate_within_ttl_example =
    duplicate_within_ttl digest key_of 10 2 checked_first swept 14 0 1 7 7 [] swept-Reach has_memory
      began first_fresh refl swept_on_time swept_entered

-- Two calls with one event.
abbrev both_entered : Processor MemoryDeduplicator ℕ
both_entered = enter 1 7 (enter 0 7 ready)

unknown :
    (memory_deduplicator digest key_of).is_duplicate both_entered.cancelled 1
      both_entered.dedup_state 7
    ≡ some false
unfolding enter is_seen new_memory_deduplicator
unknown = refl

both_stand : (both_entered.callers 0 ≡ entered 7) × (both_entered.callers 1 ≡ entered 7)
unfolding enter
both_stand = (refl, refl)

both_have : both_entered.deduplicator ≡ some (memory_deduplicator digest key_of)
unfolding enter
both_have = refl

open_with_room :
    (both_entered.input_chan.closed ≡ false)
    × (length both_entered.input_chan.buf + 1 < both_entered.input_chan.cap)
unfolding enter
open_with_room = (refl, omega arith)

race_queues_both_example :
    (q : Processor MemoryDeduplicator ℕ) × Reach both_entered q
    × (q.callers 0 ≡ finished queued)
    × (q.callers 1 ≡ finished queued)
    × (q.accepted ≡ both_entered.accepted ++ 7 ∷ 7 ∷ [])
race_queues_both_example =
    race_queues_both 1 0 1 7 7 (memory_deduplicator digest key_of) both_entered (omega arith)
      both_have unknown unknown both_stand.0 both_stand.1 open_with_room.0 open_with_room.1
