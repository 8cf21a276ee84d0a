-- ===== src/Dedup/Redis.antt =====
-- pkg/dedup/redis.go. The Redis server and its client are not under our control: their commands are
-- a parameter, and what the deduplicator relies on is in Lifetimes.
pub mod Lifetimes
use extend_game_telemetry_co.Prelude.{
  ℕ, zero, suc, ◌+◌, ◌<◌, ◌≡◌, refl, Bool, true, false, List, ◌++◌, Option, none, some, Text, codes,
  ℤ, pos, ap, ◌∙◌, ◌⊎◌, inl, inr,
}
use extend_game_telemetry_co.Dedup.{Deduplicator, event_fingerprint}

-- The commands that the program sends, with whether their context is done, at a time, on the state
-- of the server: `exists` gives the
-- number of keys, or an error, `set` has a value and a time to live, and `true` beside the state
-- means that there was no error. `ping` and `info` give an error (of `info` to the left), or the
-- text of a section.
pub record Server (R : Type 0) : Type 0 where
  pub exists : Bool → ℕ → Text → R → Option ℕ
  pub set : Bool → ℕ → Text → Text → ℤ → R → R × Bool
  pub close : R → R × Bool
  pub ping : R → Option Text
  pub info : Text → R → Text ⊎ Text

-- What the client is opened with: `RedisConfig`, and the fields of `redis.Options` that the program
-- sets.
pub record RedisConfig : Type 0 where
  pub addr : Text
  pub password : Text
  pub db : ℤ

pub record Options : Type 0 where
  pub addr : Text
  pub password : Text
  pub db : ℤ

client_options : RedisConfig → Options
client_options config = record { addr = config.addr; password = config.password; db = config.db }

-- The result of `Stats`.
pub record Stats : Type 0 where
  pub connected : Bool
  pub ttl : Text
  pub info : Text

-- `exists > 0`
unfoldable pub is_there : Option ℕ → Option Bool
is_there none = none
is_there (some zero) = some false
is_there (some (suc n)) = some true

unfoldable pub redis_key : (Text → List ℕ) → Text → Text
redis_key sha256 key = codes "telemetry:dedup:" ++ event_fingerprint sha256 key

module _ {R T : Type 0} (server : Server R) (sha256 : Text → List ℕ) (key_of : T → Text) where
  -- `RedisDeduplicator` with the client `server`.
  unfoldable pub redis_deduplicator : ℤ → Deduplicator R T
  unfolding is_there redis_key
  redis_deduplicator ttl = record {
    is_duplicate =
        λ done now state e. is_there (server.exists done now (redis_key sha256 (key_of e)) state);
    mark =
        λ done now state e. server.set done now (redis_key sha256 (key_of e)) (codes "1") ttl state;
    close = λ state. some (server.close state);
  }

-- `NewRedisDeduplicator`, where `new_client` is the one of the library.
unfoldable pub new_redis_deduplicator :
    {R T : Type 0}
    → (Options → Server R)
    → (Text → List ℕ)
    → (T → Text)
    → RedisConfig
    → ℤ
    → Deduplicator R T
unfolding redis_deduplicator client_options
new_redis_deduplicator new_client sha256 key_of config ttl =
    redis_deduplicator (new_client (client_options config)) sha256 key_of ttl

-- A check that the server answers with an error ends with an error.
pub failed_check :
    {R T : Type 0} (new_client : Options → Server R) (sha256 : Text → List ℕ) (key_of : T → Text)
    (config : RedisConfig) (ttl : ℤ) (done : Bool) (now : ℕ) (state : R) (e : T)
    → ((o : Options) (key : Text) → (new_client o).exists done now key state ≡ none)
    → (new_redis_deduplicator new_client sha256 key_of config ttl).is_duplicate done now state e
      ≡ none
unfolding new_redis_deduplicator redis_deduplicator is_there
failed_check new_client sha256 key_of config ttl done now state e down =
    ap is_there (down (client_options config) (redis_key sha256 (key_of e)))

-- `Ping`
pub ping : {R : Type 0} → Server R → R → Option Text
ping server state = server.ping state

-- `Stats`; how a duration is printed is a parameter.
stats_of : Text → Text ⊎ Text → Text ⊎ Stats
stats_of ttl (inl error) = inl error
stats_of ttl (inr info) = inr (record { connected = true; ttl = ttl; info = info })

pub stats : {R : Type 0} → (ℤ → Text) → Server R → ℤ → R → Text ⊎ Stats
unfolding stats_of
stats duration_text server ttl state =
    stats_of (duration_text ttl) (server.info (codes "stats") state)
