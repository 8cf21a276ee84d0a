-- ===== src/Config/Validity.antt =====
-- What `ValidateConfig` of pkg/config/config.go accepts, field by field.
use extend_game_telemetry_co.Prelude.{
  inr, inl, Text, ◌⊎◌, Option-cases, ◌≡◌, refl, ◌≢◌, ◌↔◌, ◌⊎◌, ℕ, suc, ◌≤◌, Bool, true, false, not,
  ◌&&◌, List, [], ◌∷◌, none, Text, codes, text_eq, text_eq_iff, ℤ, pos, negsuc, leℤ, is_empty,
  every, is_space, is_empty-trim_space, Each, arith,
}
use extend_game_telemetry_co.Config.{
  load_config, validate_config, Config, Config, DeduplicationConfig, ConfigError, validate_config,
  check_all, checks, bad_port, valid_dedup_type,
}

-- The numbers of TCP ports.
pub IsPort : ℤ → Type 0
IsPort z = (n : ℕ) × (z ≡ pos n) × (1 ≤ n) × (n ≤ 65535)

unfoldable pub IsPositive : ℤ → Type 0
IsPositive z = (n : ℕ) × (z ≡ pos (suc n))

-- Switched off, or of one of the three kinds, with an address for Redis.
pub Deduplicates : DeduplicationConfig → Type 0
Deduplicates d =
    (d.enabled ≡ false)
    ⊎ ((d.type ≡ codes "memory")
        ⊎ ((d.type ≡ codes "noop") ⊎ ((d.type ≡ codes "redis") × (d.redis.addr ≢ []))))

pub record IsValid (c : Config) : Type 0 where
  pub grpc_port : IsPort c.server.grpc_port
  pub http_port : IsPort c.server.http_port
  pub base_path : c.server.base_path ≢ []
  pub workers : IsPositive c.processor.workers
  pub channel_buffer : IsPositive c.processor.channel_buffer
  pub deduplication : Deduplicates c.deduplication
  pub plugins : every is_space c.storage.enabled_plugins ≡ false

bad_port-IsPort : (z : ℤ) → (bad_port z ≡ false) ↔ IsPort z
unfolding bad_port IsPort
bad_port-IsPort (pos n) = (λ h. (n, refl, ground arith, ground arith), λ h. ground arith)
bad_port-IsPort (negsuc n) = (λ h. ground arith, λ h. ground arith)

leℤ-IsPositive : (z : ℤ) → (leℤ z (pos 0) ≡ false) ↔ IsPositive z
unfolding IsPositive
leℤ-IsPositive (pos ℕ.zero) = (λ h. ground arith, λ h. ground arith)
leℤ-IsPositive (pos (suc n)) = (λ h. (n, refl), λ h. ground arith)
leℤ-IsPositive (negsuc n) = (λ h. ground arith, λ h. ground arith)

is_empty-false : (s : Text) → (is_empty s ≡ false) ↔ (s ≢ [])
is_empty-false [] = (λ h. ground arith, λ h. elim (h refl) [ ])
is_empty-false (c ∷ s) = (λ h e. ground arith, λ h. refl)

check_all-none :
    (checks : List (Bool × ConfigError))
    → (check_all checks ≡ none) ↔ Each (λ c. c.0 ≡ false) checks
unfolding check_all
check_all-none [] = (λ h. tt, λ h. refl)
check_all-none ((true, e) ∷ rest) = (λ h. ground arith, λ h. ground arith)
check_all-none ((false, e) ∷ rest) =
    (λ h. (refl, (check_all-none rest).0 h), λ h. (check_all-none rest).1 h.1)

-- The two checks of the deduplication together.
type_checks-Deduplicates :
    (d : DeduplicationConfig)
    → (((d.enabled && not (valid_dedup_type d.type)) ≡ false)
        × ((d.enabled && text_eq d.type (codes "redis") && is_empty d.redis.addr) ≡ false))
      ↔ Deduplicates d
unfolding valid_dedup_type Deduplicates
type_checks-Deduplicates d = grind (
  arith,
  text_eq_iff d.type (codes "memory"),
  text_eq_iff d.type (codes "noop"),
  text_eq_iff d.type (codes "redis"),
  is_empty-false d.redis.addr,
)

-- `ValidateConfig` returns nil exactly for the valid configurations: both ports are TCP ports, the
-- base path is not empty, workers and channel buffer are positive, deduplication is off or of a
-- known kind (with an address if that is Redis), and the plugin list is not only spaces.
pub validate_config_lem : (c : Config) → (validate_config c ≡ none) ↔ IsValid c
unfolding validate_config checks
validate_config_lem c = (
  λ h.
      let (grpc, (http, (base, (workers, (buffer, (kind, (addr, (plugins, _)))))))) =
        (check_all-none (checks c)).0 h in
      record {
        grpc_port = (bad_port-IsPort c.server.grpc_port).0 grpc;
        http_port = (bad_port-IsPort c.server.http_port).0 http;
        base_path = (is_empty-false c.server.base_path).0 base;
        workers = (leℤ-IsPositive c.processor.workers).0 workers;
        channel_buffer = (leℤ-IsPositive c.processor.channel_buffer).0 buffer;
        deduplication = (type_checks-Deduplicates c.deduplication).0 (kind, addr);
        plugins = ground (arith, plugins, is_empty-trim_space c.storage.enabled_plugins);
      },
  λ v. (check_all-none (checks c)).1 (
    (bad_port-IsPort c.server.grpc_port).1 v.grpc_port,
    (
      (bad_port-IsPort c.server.http_port).1 v.http_port,
      (
        (is_empty-false c.server.base_path).1 v.base_path,
        (
          (leℤ-IsPositive c.processor.workers).1 v.workers,
          (
            (leℤ-IsPositive c.processor.channel_buffer).1 v.channel_buffer,
            (
              ((type_checks-Deduplicates c.deduplication).1 v.deduplication).0,
              (
                ((type_checks-Deduplicates c.deduplication).1 v.deduplication).1,
                (ground (arith, v.plugins, is_empty-trim_space c.storage.enabled_plugins), tt),
              ),
            ),
          ),
        ),
      ),
    ),
  ),
)

-- What `LoadConfig` returns without an error is valid.
pub load_config-IsValid :
    (parsed : Text ⊎ Config) (c : Config) → load_config parsed ≡ inr c → IsValid c
unfolding load_config
load_config-IsValid (inl e) c h = ground arith
load_config-IsValid (inr d) c h = elim (Option-cases (validate_config d)) [
  | inl valid ↦ (validate_config_lem c).0 (ground (arith, valid, h))
  | inr (e, invalid) ↦ ground (arith, invalid, h)
]
