-- ===== src/Bootstrap/Deduplication.antt =====
-- internal/bootstrap/deduplicator.go: the deduplicator that a configuration installs in a processor.
use extend_game_telemetry_co.Prelude.{
  ◌≡◌, ℕ, false, List, none, Text, codes, text_eq, ℤ, Bool, if-both, ◌⊎◌, inl, inr,
}
use extend_game_telemetry_co.Bootstrap.{
  DeduplicatorKind, noop_kind, memory_kind, redis_kind, build_deduplicator,
}
use extend_game_telemetry_co.Config.{DeduplicationConfig, RedisConfig}
use extend_game_telemetry_co.Dedup.{Deduplicator, noop_deduplicator}
use extend_game_telemetry_co.Dedup.Memory.{
  MemoryDeduplicator, memory_deduplicator, new_memory_deduplicator,
}
use extend_game_telemetry_co.Dedup.Redis.{Server, Options, new_redis_deduplicator, failed_check}
use extend_game_telemetry_co.Dedup.Redis
use extend_game_telemetry_co.Processor.Unskipped.{NeverFinds}

-- A deduplicator with the type of its states, and the state that it starts with.
pub record Installed (T : Type 0) : Type 1 where
  pub State : Type 0
  pub deduplicator : Deduplicator State T
  pub initial : State

-- Deduplication is off, or it is of another type than "memory" and Redis cannot be reached: every
-- EXISTS ends with an error.
unfoldable pub OffOrDown : {R : Type 0} → (Options → Server R) → DeduplicationConfig → Type 0
OffOrDown {R} new_client c =
    (c.enabled ≡ false)
    ⊎ ((text_eq c.type (codes "memory") ≡ false)
        × ((o : Options) (done : Bool) (now : ℕ) (key : Text) (state : R)
            → (new_client o).exists done now key state ≡ none))

-- The Redis client of the library, for a server with states `R`, of which `now_there` is the first.
module _ {R T : Type 0} (new_client : Options → Server R) (now_there : R) (sha256 : Text → List ℕ)
    (key_of : T → Text) where
  redis_config : RedisConfig → Redis.RedisConfig
  redis_config redis = record { addr = redis.addr; password = redis.password; db = redis.db }

  -- The cases of `buildDeduplicator`.
  unfoldable pub install : DeduplicatorKind → Installed T
  unfolding redis_config
  install noop_kind = record { State = Unit; deduplicator = noop_deduplicator; initial = tt }
  install (memory_kind ttl) = record {
    State = MemoryDeduplicator;
    deduplicator = memory_deduplicator sha256 key_of;
    initial = new_memory_deduplicator ttl;
  }
  install (redis_kind redis ttl) = record {
    State = R;
    deduplicator = new_redis_deduplicator new_client sha256 key_of (redis_config redis) ttl;
    initial = now_there;
  }

  noop-NeverFinds : NeverFinds (install noop_kind).deduplicator
  unfolding NeverFinds install
  noop-NeverFinds done now state e found = cc

  redis-NeverFinds :
      (redis : RedisConfig) (ttl : ℤ)
      → ((o : Options) (done : Bool) (now : ℕ) (key : Text) (state : R)
          → (new_client o).exists done now key state ≡ none)
      → NeverFinds (install (redis_kind redis ttl)).deduplicator
  unfolding NeverFinds install
  redis-NeverFinds redis ttl down done now state e found =
      let failed =
        failed_check new_client sha256 key_of (redis_config redis) ttl done now state e
          (λ o key. down o done now key state) in
      cc

  -- The deduplicator that such a configuration installs finds no duplicates.
  pub install-NeverFinds :
      (c : DeduplicationConfig)
      → OffOrDown new_client c
      → NeverFinds (install (build_deduplicator c)).deduplicator
  unfolding OffOrDown build_deduplicator
  install-NeverFinds c (inl off) = rw off noop-NeverFinds
  install-NeverFinds c (inr (not_memory, down)) =
      let Never : DeduplicatorKind → Type 0 = λ k. NeverFinds (install k).deduplicator in
      rw not_memory (
        if-both Never c.enabled
          (if-both Never (text_eq c.type (codes "redis")) (redis-NeverFinds c.redis c.ttl down)
            noop-NeverFinds)
          noop-NeverFinds)
