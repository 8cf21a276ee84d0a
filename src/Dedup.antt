-- ===== src/Dedup.antt =====
-- pkg/dedup/dedup.go, with the interface of pkg/storage/deduplicatable.go: the fingerprint of a
-- key, what the processor needs of a deduplicator, and the deduplicator that does nothing.
pub mod Memory
pub mod Redis
use extend_game_telemetry_co.Prelude.{
  ℕ, ◌+◌, ◌-◌, ◌/◌, ◌%◌, ◌<◌, ◌≡◌, refl, Bool, true, false, List, [], ◌∷◌, Option, none, some, Text,
  ltb, if◌then◌else◌,
}

-- `Deduplicator[T]` with states `D`; the first two arguments are whether the context of the call is
-- done, and the time. The result
-- `none` of `is_duplicate`, and `false` beside the state, are errors; `none` of `close` is a panic.
pub record Deduplicator (D T : Type 0) : Type 0 where
  pub is_duplicate : Bool → ℕ → D → T → Option Bool
  pub mark : Bool → ℕ → D → T → D × Bool
  pub close : D → Option (D × Bool)

-- `hex.EncodeToString`: two lower-case digits for each byte.
hex_digit : ℕ → ℕ
hex_digit n = if ltb n 10 then b'0' + n else b'a' + (n - 10)

pub hex_encode : List ℕ → Text
unfolding hex_digit
hex_encode [] = []
hex_encode (b ∷ bs) = hex_digit (b / 16) ∷ hex_digit (b % 16) ∷ hex_encode bs

-- `EventFingerprint`, over the digest function of crypto/sha256.
unfoldable pub event_fingerprint : (Text → List ℕ) → Text → Text
unfolding hex_encode
event_fingerprint sha256 key = hex_encode (sha256 key)

abbrev pub noop_deduplicator : {T : Type 0} → Deduplicator (Unit {0}) T
noop_deduplicator = record {
  is_duplicate = λ done now d e. some false;
  mark = λ done now d e. (d, true);
  close = λ d. some (d, true);
}
