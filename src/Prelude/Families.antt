-- ===== src/Prelude/Families.antt =====
-- One member for each goroutine: what an update at one goroutine does to a sum over the first ones.
use Prim.Native.Nat.{ℕ, zero, suc, ◌+◌, ◌≤◌, ◌<◌}
use mathlib.Core.Path.{◌≡◌, refl}
use mathlib.Core.Logic.{inl, inr}
use native.Mathlib.Omega.{arith}
use extend_game_telemetry_co.Prelude.Tests.{◌==◌, if◌then◌else◌, Bool-cases}

module _ {ℓ} {M : Type ℓ} where
  -- Goroutine `who` becomes `now`.
  abbrev pub update : (ℕ → M) → ℕ → M → ℕ → M
  update group who now other = if who == other then now else group other

  module _ (load : M → ℕ) where
    -- The load of the goroutines 0, …, n - 1.
    unfoldable pub total : ℕ → (ℕ → M) → ℕ
    total zero group = 0
    total (suc n) group = load (group n) + total n group

    -- An update beyond the bound is not seen.
    total-unseen :
        (n who : ℕ) (group : ℕ → M) (now : M)
        → n ≤ who
        → total n (update group who now) ≡ total n group
    unfolding total
    total-unseen zero who group now beyond = refl
    total-unseen (suc n) who group now beyond =
        ground (arith, total-unseen n who group now (omega arith))

    -- An update within it takes the old load away and adds the new one.
    pub total-update :
        (n who : ℕ) (group : ℕ → M) (now : M)
        → who < n
        → load (group who) + total n (update group who now) ≡ load now + total n group
    unfolding total
    total-update zero who group now within = elim within [ ]
    total-update (suc n) who group now within = elim (Bool-cases (who == n)) [
      | inl same ↦ ground (arith, total-unseen n who group now)
      | inr other ↦ ground (arith, total-update n who group now)
    ]

    pub total-eq-zero :
        (n : ℕ) (group : ℕ → M) → ((who : ℕ) → who < n → load (group who) ≡ 0) → total n group ≡ 0
    unfolding total
    total-eq-zero zero group none_loaded = refl
    total-eq-zero (suc n) group none_loaded = omega (
      arith,
      none_loaded n (omega arith),
      total-eq-zero n group (λ who lt. none_loaded who (omega arith)),
    )

    -- A sum that is not zero has a member that is loaded, and one that is zero has none.
    pub total-loaded :
        (n : ℕ) (group : ℕ → M) → 0 < total n group → (who : ℕ) × (who < n) × (0 < load (group who))
    unfolding total
    total-loaded zero group some_load = absurd (omega arith)
    total-loaded (suc n) group some_load = elim (Bool-cases (load (group n) == 0)) [
      | inl free ↦
          let (who, within, loaded) = total-loaded n group (ground (arith, free)) in
          (who, omega arith, loaded)
      | inr busy ↦ (n, omega arith, ground (arith, busy))
    ]

    pub total-unloaded :
        (n who : ℕ) (group : ℕ → M) → total n group ≡ 0 → who < n → load (group who) ≡ 0
    unfolding total
    total-unloaded zero who group none_loaded within = absurd (omega arith)
    total-unloaded (suc n) who group none_loaded within = elim (Bool-cases (who == n)) [
      | inl same ↦ ground (arith, same)
      | inr before ↦ total-unloaded n who group (omega arith) (ground (arith, before))
    ]
