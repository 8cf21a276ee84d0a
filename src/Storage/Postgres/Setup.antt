-- ===== src/Storage/Postgres/Setup.antt =====
-- Setting up the plugins of pkg/storage/plugins/postgres.
use extend_game_telemetry_co.Prelude.{
  ℕ, suc, ◌*◌, ◌/◌, ◌%◌, ◌↔◌, ◌≤◌, ◌<◌, ◌≡◌, refl, none, pos, is_empty, arith, false, ◌⊎◌, inl, inr,
  Bool-cases, ltb,
}
use extend_game_telemetry_co.Storage.{twice, to_int64}
use extend_game_telemetry_co.Storage.Postgres.{
  PluginConfig, max_open_conns, max_idle_conns, Database, initialize,
}

doubled-workers :
    (cfg : PluginConfig) (w : ℕ)
    → cfg.workers ≡ pos (suc w)
    → suc w < 0x4000000000000000
    → to_int64 (twice cfg.workers) ≡ pos (suc w * 2)
unfolding twice
doubled-workers cfg w given small =
    let kept : (suc w * 2) % 0x10000000000000000 ≡ suc w * 2 = omega arith in
    rw (given, kept) (ground arith)

-- For w workers, at least one and fewer than 2^62, the pool has at least 10 connections, namely
-- 10 or 2w, and half of them idle.
pub pool_in_bounds :
    (cfg : PluginConfig) (w : ℕ)
    → cfg.workers ≡ pos (suc w)
    → suc w < 0x4000000000000000
    → (n : ℕ) × (max_open_conns cfg ≡ pos n)
      × (max_idle_conns cfg ≡ pos (n / 2))
      × (10 ≤ n)
      × ((n ≡ 10) ⊎ (n ≡ suc w * 2))
unfolding max_open_conns max_idle_conns twice
pool_in_bounds cfg w given small = elim (Bool-cases (ltb (suc w * 2) 10)) [
  | inl few ↦ (
    10,
    ground (arith, few, doubled-workers cfg w given small),
    ground (arith, few, doubled-workers cfg w given small),
    omega arith,
    inl refl,
  )
  | inr many ↦ (
    suc w * 2,
    ground (arith, many, doubled-workers cfg w given small),
    ground (arith, many, doubled-workers cfg w given small),
    ground (arith, many),
    inr refl,
  )
]

-- `Initialize` succeeds exactly if there is a DSN and neither opening, nor pinging, nor creating
-- the table fails.
pub initialize_succeeds :
    (database : Database) (cfg : PluginConfig)
    → ((initialize database cfg).1.1 ≡ none) ↔ (
        (is_empty cfg.dsn ≡ false)
        × (database.open_error ≡ none)
        × (database.ping_error ≡ none)
        × (database.table_error ≡ none))
unfolding initialize
initialize_succeeds database cfg = ground arith
