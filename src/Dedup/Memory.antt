-- ===== src/Dedup/Memory.antt =====
-- pkg/dedup/memory.go. Each method body runs under the mutex; the time of a call is an argument,
-- in nanoseconds of one monotonic clock.
pub mod History
pub mod Cleanup
mod Examples
use extend_game_telemetry_co.Prelude.{
  ℕ, suc, ◌+◌, ◌≡◌, refl, Bool, true, false, not, List, [], ◌∷◌, Option, none, some, arith, Text,
  text_eq, text_eq_iff, text_eq_refl, ltb, if◌then◌else◌, length, ℤ, pos, negsuc,
}
use extend_game_telemetry_co.Dedup.{Deduplicator, event_fingerprint}

-- A Go map from fingerprints to times. The program reads it by key only, and its loop over the
-- entries decides on each by itself, so their order is not part of the behaviour.
abbrev pub Cache : Type 0
Cache = List (Text × ℕ)

unfoldable pub lookup : Text → Cache → Option ℕ
lookup k [] = none
lookup k ((j, t) ∷ m) = if text_eq j k then some t else lookup k m

pub insert : Text → ℕ → Cache → Cache
insert k t [] = (k, t) ∷ []
insert k t ((j, u) ∷ m) = if text_eq j k then (k, t) ∷ m else (j, u) ∷ insert k t m

-- `now.Sub(timestamp) > ttl`
pub older : ℕ → ℤ → ℕ → Bool
older now (pos ttl) timestamp = ltb (timestamp + ttl) now
older now (negsuc n) timestamp = ltb timestamp (now + suc n)

pub sweep : ℕ → ℤ → Cache → Cache
unfolding older
sweep now ttl [] = []
sweep now ttl ((k, t) ∷ m) =
    let rest = sweep now ttl m in if older now ttl t then rest else (k, t) ∷ rest

-- `stopped`: the channel `stopCleanup` is closed.
pub record MemoryDeduplicator : Type 0 where
  pub cache : Cache
  pub ttl : ℤ
  pub stopped : Bool

unfoldable pub new_memory_deduplicator : ℤ → MemoryDeduplicator
new_memory_deduplicator ttl = record { cache = []; ttl = ttl; stopped = false }

pub exists_in : Option ℕ → Bool
exists_in none = false
exists_in (some t) = true

-- `time.Now` is not read here: an entry counts as seen until a clean-up removes it.
unfoldable pub is_seen : Text → MemoryDeduplicator → Bool
unfolding lookup exists_in
is_seen key d = exists_in (lookup key d.cache)

unfoldable pub mark_key : ℕ → Text → MemoryDeduplicator → MemoryDeduplicator
unfolding insert
mark_key now key d = record d { cache = insert key now d.cache }

pub remove_expired : ℕ → MemoryDeduplicator → MemoryDeduplicator
unfolding sweep
remove_expired now d = record d { cache = sweep now d.ttl d.cache }

-- Closing the channel twice panics.
pub close : MemoryDeduplicator → Option (MemoryDeduplicator × Bool)
close d = if d.stopped then none else some (record d { cache = []; stopped = true }, true)

-- The count of `Stats`.
pub entries : MemoryDeduplicator → ℕ
entries d = length d.cache

-- The deduplicator of an event type with `DeduplicationKey` `key_of`.
abbrev pub memory_deduplicator :
    {T : Type 0} → (Text → List ℕ) → (T → Text) → Deduplicator MemoryDeduplicator T
memory_deduplicator sha256 key_of = record {
  is_duplicate = λ done now d e. some (is_seen (event_fingerprint sha256 (key_of e)) d);
  mark = λ done now d e. (mark_key now (event_fingerprint sha256 (key_of e)) d, true);
  close = close;
}

pub lookup-insert :
    (k j : Text) (t : ℕ) (m : Cache)
    → lookup j (insert k t m) ≡ (if text_eq k j then some t else lookup j m)
unfolding lookup insert
lookup-insert k j t [] = refl
lookup-insert k j t ((i, u) ∷ m) =
    ground (arith, text_eq_iff k j, text_eq_iff i k, text_eq_iff i j, lookup-insert k j t m)

-- A mark is seen, and does not hide another.
pub is_seen-marked :
    (now : ℕ) (key : Text) (d : MemoryDeduplicator) → is_seen key (mark_key now key d) ≡ true
unfolding is_seen mark_key exists_in
is_seen-marked now key d = ground (arith, lookup-insert key key now d.cache, text_eq_refl key)

pub is_seen-kept :
    (now : ℕ) (key other : Text) (d : MemoryDeduplicator)
    → is_seen key d ≡ true
    → is_seen key (mark_key now other d) ≡ true
unfolding is_seen mark_key exists_in
is_seen-kept now key other d seen = ground (arith, lookup-insert other key now d.cache, seen)

-- No key stands twice.
abbrev pub Distinct : Cache → Type 0
Distinct [] = Unit
Distinct ((k, t) ∷ m) = (lookup k m ≡ none) × Distinct m

pub insert-Distinct : (k : Text) (t : ℕ) (m : Cache) → Distinct m → Distinct (insert k t m)
unfolding insert lookup
insert-Distinct k t [] h = (refl, tt)
insert-Distinct k t ((j, u) ∷ m) h =
    ground (arith, text_eq_iff j k, text_eq_iff k j, lookup-insert k j t m, insert-Distinct k t m)

abbrev pub drop_older : ℕ → ℤ → Option ℕ → Option ℕ
drop_older now ttl none = none
drop_older now ttl (some t) = if older now ttl t then none else some t

pub lookup-sweep :
    (now : ℕ) (ttl : ℤ) (k : Text) (m : Cache)
    → Distinct m
    → lookup k (sweep now ttl m) ≡ drop_older now ttl (lookup k m)
unfolding lookup sweep
lookup-sweep now ttl k [] h = refl
lookup-sweep now ttl k ((j, t) ∷ m) h = ground (arith, text_eq_iff j k, lookup-sweep now ttl k m)

pub sweep-Distinct : (now : ℕ) (ttl : ℤ) (m : Cache) → Distinct m → Distinct (sweep now ttl m)
unfolding sweep lookup
sweep-Distinct now ttl [] h = tt
sweep-Distinct now ttl ((j, t) ∷ m) h =
    ground (arith, lookup-sweep now ttl j m, sweep-Distinct now ttl m)
