-- ===== src/Prelude/Spaces.antt =====
-- Laws of the text operations: spaces and trimming, splitting and joining.
use Prim.Native.Nat.{ℕ}
use mathlib.Core.Path.{◌≡◌, refl}
use mathlib.Core.Bool.{Bool, true, false, ◌&&◌}
use mathlib.Core.List.{List, [], ◌∷◌, ◌++◌}
use native.Mathlib.Omega.{arith}
use extend_game_telemetry_co.Prelude.Strings.{Text}
use extend_game_telemetry_co.Prelude.Words.{
  is_space, trim_left, trim_right, trim_space, cons_trimmed,
}

-- Whether a list has no element.
abbrev pub is_empty {ℓ} : {A : Type ℓ} → List A → Bool
is_empty [] = true
is_empty (x ∷ xs) = false

-- Whether every element passes a test.
abbrev pub every {ℓ} : {A : Type ℓ} → (A → Bool) → List A → Bool
every good [] = true
every good (x ∷ xs) = good x && every good xs

pub is_empty-append {ℓ} :
    {A : Type ℓ} (xs ys : List A) → is_empty (xs ++ ys) ≡ (is_empty xs && is_empty ys)
is_empty-append [] ys = refl
is_empty-append (x ∷ xs) ys = refl

is_empty-cons_trimmed :
    (c : ℕ) (s : Text) → is_empty (cons_trimmed c s) ≡ (is_space c && is_empty s)
unfolding cons_trimmed
is_empty-cons_trimmed c [] = ground arith
is_empty-cons_trimmed c (d ∷ s) = ground arith

is_empty-trim_right : (s : Text) → is_empty (trim_right s) ≡ every is_space s
unfolding trim_right
is_empty-trim_right [] = refl
is_empty-trim_right (c ∷ s) = cc (is_empty-cons_trimmed c (trim_right s), is_empty-trim_right s)

every-trim_left : (s : Text) → every is_space (trim_left s) ≡ every is_space s
unfolding trim_left
every-trim_left [] = refl
every-trim_left (c ∷ s) = ground (arith, every-trim_left s)

-- Trimming leaves nothing exactly of a text of spaces.
pub is_empty-trim_space : (s : Text) → is_empty (trim_space s) ≡ every is_space s
unfolding trim_space
is_empty-trim_space s = cc (is_empty-trim_right (trim_left s), every-trim_left s)
