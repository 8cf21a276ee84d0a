-- ===== src/Processor/Examples/Shared.antt =====
-- Two calls of `Submit` with one key, with a Redis server that another instance uses as well.
use extend_game_telemetry_co.Prelude.{
  ℕ, ◌≢◌, ◌+◌, ◌%◌, ◌^◌, ◌≡◌, refl, true, List, [], ◌∷◌, some, none, Text, ℤ, pos, negsuc, inl, inr,
  false, arith, codes, text_eq, text_eq_iff, text_eq_refl, ltb, lt→ltb, if◌then◌else◌, Bool-cases,
}
use extend_game_telemetry_co.Dedup.Redis.{Server, redis_deduplicator, redis_key, is_there}
use extend_game_telemetry_co.Dedup.Redis.Lifetimes.{Expires}
use extend_game_telemetry_co.Processor.Duplicates.Shared.{AllShare, shared_duplicate}
use extend_game_telemetry_co.Processor.{
  Processor, fresh, entered, finished, skipped, idle, advance, enter, dedup_changes,
}
use extend_game_telemetry_co.Processor.Steps.{Reach, here, later, advances, enters, changes}
use extend_game_telemetry_co.Processor.Examples.{first}

-- The time at which each key goes.
abbrev State : Type 0
State = Text → ℕ

abbrev lives_to : ℕ → ℤ → ℕ
lives_to now (pos ttl) = now + ttl
lives_to now (negsuc n) = now

abbrev set_state : ℕ → Text → ℤ → State → State
set_state now set_key ttl state key = if text_eq set_key key then lives_to now ttl else state key

abbrev server : Server State
server = record {
  exists =
      λ done now key state. if done then none else if ltb now (state key) then some 1 else some 0;
  set = λ done now key text ttl state. (set_state now key ttl state, true);
  close = λ state. (state, true);
  ping = λ state. none;
  info = λ part state. inr (codes "# Stats");
}

abbrev expiry : State → Text → ℕ
expiry state key = state key

server-Expires : Expires server expiry
server-Expires = record {
  finds = λ done now key state within. elim (Bool-cases done) [
    | inl over ↦ inl (rw over refl)
    | inr live ↦ inr (rw (live, lt→ltb now (state key) within) refl)
  ];
  sets = λ done now ttl key text state no_error. ground (arith, text_eq_refl key);
  leaves = λ done now ttl set_key key text state. elim (Bool-cases (text_eq set_key key)) [
    | inl same ↦ inr ((text_eq_iff set_key key).0 same, rw same refl)
    | inr apart ↦ inl (rw apart refl)
  ];
}

-- In place of the digest, its input.
abbrev digest : Text → List ℕ
digest t = t

-- The key of a number is its text as one character.
abbrev key_of : ℕ → Text
key_of n = n ∷ []

abbrev ready : Processor State ℕ
ready = record {
  workers = 1;
  input_chan = record { buf = []; cap = 2; closed = false };
  plugins = [];
  deduplicator = some (redis_deduplicator server digest key_of (pos 10));
  dedup_state = λ key. 0;
  cancelled = false;
  events_received = 0;
  events_processed = 0;
  events_duplicated = 0;
  events_dropped = 0;
  pool = first.pool;
  callers = λ _. idle;
  accepted = [];
  flushed = [];
}

-- The first call has checked its event.
abbrev checked_first : Processor State ℕ
checked_first = advance 1 0 (enter 0 7 ready)

-- It marks and sends, another instance marks a key, and a second call enters.
abbrev again : Processor State ℕ
again =
    let sent = advance 2 0 (advance 2 0 checked_first) in
    enter 1 7
      (dedup_changes (server.set false 3 (codes "k") (codes "1") (pos 10) sent.dedup_state).0 sent)

again-Reach : Reach (advance 2 0 checked_first) again
unfolding enter advance redis_deduplicator redis_key is_there dedup_changes
again-Reach = later (later (later here (advances 2 0)) (changes _)) (enters 1 7 (inl refl))

again_shares : AllShare server 10 2 again-Reach
unfolding again-Reach
again_shares = (((tt, omega arith), (false, 3, codes "k", codes "1", omega arith, refl)), tt)

first_fresh : checked_first.callers 0 ≡ fresh 7
unfolding enter advance redis_deduplicator redis_key is_there
first_fresh = refl

again_entered : again.callers 1 ≡ entered 7
unfolding enter advance redis_deduplicator redis_key is_there
again_entered = refl

has_redis : checked_first.deduplicator ≡ some (redis_deduplicator server digest key_of (pos 10))
unfolding enter advance redis_deduplicator redis_key is_there
has_redis = refl

marks :
    ((redis_deduplicator server digest key_of (pos 10)).mark checked_first.cancelled 2
      checked_first.dedup_state 7).1
    ≡ true
unfolding enter advance redis_deduplicator redis_key is_there
marks = refl

answered :
    (redis_deduplicator server digest key_of (pos 10)).is_duplicate again.cancelled 11
      again.dedup_state 7
    ≢ none
unfolding enter advance redis_deduplicator redis_key is_there dedup_changes text_eq
answered e = ground arith

shared_duplicate_example :
    ((advance 11 1 again).callers 1 ≡ finished skipped)
    × ((advance 11 1 again).input_chan ≡ again.input_chan)
    × ((advance 11 1 again).accepted ≡ again.accepted)
    × ((advance 11 1 again).events_duplicated ≡ (again.events_duplicated + 1) % 2 ^ 64)
shared_duplicate_example =
    shared_duplicate server expiry digest key_of 10 2 7 server-Expires checked_first again 11 0 1 7
      again-Reach has_redis marks first_fresh refl again_shares (omega arith) answered again_entered
