-- ===== src/Dedup/Redis/Lifetimes.antt =====
-- The time to live of keys on the Redis server of pkg/dedup/redis.go, which several instances of the
-- program share.
use mathlib.Core.Path.{subst}
use extend_game_telemetry_co.Prelude.{
  ℕ, ◌≢◌, Bool, none, ◌+◌, ◌≤◌, ◌<◌, ◌≡◌, ◌⊎◌, inl, inr, ap, true, List, some, Text, codes, pos,
  arith,
}
use extend_game_telemetry_co.Dedup.Redis.{Server, redis_deduplicator, redis_key, is_there}

-- What Redis documents of SET with a time to live, and of EXISTS: `expiry` is the time at which a key
-- goes. Until then EXISTS finds it, or
-- ends with an error, as it does when its context is done. A SET without an error sets the time of its key, one with an error
-- may or may not have been carried out, and none has an effect on other keys.
pub record Expires {R : Type 0} (server : Server R) (expiry : R → Text → ℕ) : Type 0 where
  pub finds :
      (done : Bool) (now : ℕ) (key : Text) (state : R)
      → now < expiry state key
      → (server.exists done now key state ≡ none) ⊎ (server.exists done now key state ≡ some 1)
  pub sets :
      (done : Bool) (now ttl : ℕ) (key text : Text) (state : R)
      → (server.set done now key text (pos ttl) state).1 ≡ true
      → expiry (server.set done now key text (pos ttl) state).0 key ≡ now + ttl
  pub leaves :
      (done : Bool) (now ttl : ℕ) (set_key key text : Text) (state : R)
      → (expiry (server.set done now set_key text (pos ttl) state).0 key ≡ expiry state key)
        ⊎ ((set_key ≡ key)
            × (expiry (server.set done now set_key text (pos ttl) state).0 key ≡ now + ttl))

-- The key of an event lives up to a time.
abbrev pub Lives :
    {R T : Type 0} → (R → Text → ℕ) → (Text → List ℕ) → (T → Text) → ℕ → T → R → Type 0
Lives expiry sha256 key_of until e state = until ≤ expiry state (redis_key sha256 (key_of e))

module _ {R T : Type 0} (server : Server R) (expiry : R → Text → ℕ) (sha256 : Text → List ℕ)
    (key_of : T → Text) (laws : Expires server expiry) (t ttl : ℕ) where
  -- A later SET does not shorten the life of a key that lives up to `t + ttl`.
  pub set_keeps :
      (done : Bool) (now : ℕ) (set_key key text : Text) (state : R)
      → t ≤ now
      → t + ttl ≤ expiry state key
      → t + ttl ≤ expiry (server.set done now set_key text (pos ttl) state).0 key
  set_keeps done now set_key key text state on_time lives =
      elim (laws.leaves done now ttl set_key key text state) [
        | inl same ↦ omega (arith, lives, same)
        | inr (here_set, again) ↦ omega (arith, on_time, again)
      ]

  pub mark-Lives :
      (done : Bool) (e : T) (state : R)
      → ((redis_deduplicator server sha256 key_of (pos ttl)).mark done t state e).1 ≡ true
      → Lives expiry sha256 key_of
          (t + ttl)
          e
          ((redis_deduplicator server sha256 key_of (pos ttl)).mark done t state e).0
  unfolding redis_deduplicator
  mark-Lives done e state no_error =
      omega (arith, laws.sets done t ttl (redis_key sha256 (key_of e)) (codes "1") state no_error)

  pub mark-keeps :
      (done : Bool) (now : ℕ) (other e : T) (state : R)
      → t ≤ now
      → Lives expiry sha256 key_of (t + ttl) e state
      → Lives expiry sha256 key_of
          (t + ttl)
          e
          ((redis_deduplicator server sha256 key_of (pos ttl)).mark done now state other).0
  unfolding redis_deduplicator
  mark-keeps done now other e state on_time lives =
      set_keeps done now (redis_key sha256 (key_of other)) (redis_key sha256 (key_of e)) (codes "1")
        state on_time lives

  -- A check that ends without an error finds the key.
  pub Lives-found :
      (done : Bool) (now : ℕ) (e e' : T) (state : R)
      → key_of e ≡ key_of e'
      → Lives expiry sha256 key_of (t + ttl) e state
      → now < t + ttl
      → (redis_deduplicator server sha256 key_of (pos ttl)).is_duplicate done now state e' ≢ none
      → (redis_deduplicator server sha256 key_of (pos ttl)).is_duplicate done now state e'
        ≡ some true
  unfolding redis_deduplicator is_there
  Lives-found done now e e' state same lives within answered =
      elim (laws.finds done now (redis_key sha256 (key_of e')) state (
        subst (λ key. now < expiry state (redis_key sha256 key)) same
          (omega (arith, lives, within)))) [
            | inl failed ↦ absurd (answered (ap is_there failed))
            | inr found ↦ ap is_there found
          ]
