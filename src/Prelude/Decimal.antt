-- ===== src/Prelude/Decimal.antt =====
-- Package fmt's %d on natural numbers, and how it is read back.
use Prim.Native.Nat.{ℕ, zero, suc, ◌+◌, ◌-◌, ◌*◌, ◌/◌, ◌%◌, ◌≤◌}
use mathlib.Core.Path.{◌≡◌, refl, ap, sym, ◌∙◌}
use mathlib.Core.Logic.{◌≢◌, inl, inr}
use mathlib.Core.Bool.{Bool, true, false}
use mathlib.Core.List.{[], ◌∷◌, ◌++◌}
use native.Mathlib.Omega.{arith}
use extend_game_telemetry_co.Prelude.Tests.{leb, ltb, Bool-cases, if◌then◌else◌}
use extend_game_telemetry_co.Prelude.Int.{ℤ, pos, negsuc}
use extend_game_telemetry_co.Prelude.Lists.{List-cases}
use extend_game_telemetry_co.Prelude.Strings.{Text}
use extend_game_telemetry_co.Prelude.Splits.{Only}

-- The first argument bounds the number of digits after the first one.
digits : ℕ → ℕ → Text
digits zero n = (b'0' + n % 10) ∷ []
digits (suc fuel) n = elim (ltb n 10) [
  | true ↦ (b'0' + n) ∷ []
  | false ↦ digits fuel (n / 10) ++ (b'0' + n % 10) ∷ []
]

unfoldable pub decimal : ℕ → Text
unfolding digits
decimal n = digits n n

-- The verb on integers, and `strconv.Itoa`.
unfoldable pub itoa : ℤ → Text
itoa (pos n) = decimal n
itoa (negsuc n) = b'-' ∷ decimal (suc n)

read_from : ℕ → Text → ℕ
read_from acc [] = acc
read_from acc (c ∷ s) = read_from (acc * 10 + (c - b'0')) s

pub read_decimal : Text → ℕ
unfolding read_from
read_decimal s = read_from 0 s

read_from-append :
    (acc : ℕ) (s : Text) (c : ℕ) → read_from acc (s ++ c ∷ []) ≡ read_from acc s * 10 + (c - b'0')
unfolding read_from
read_from-append acc [] c = refl
read_from-append acc (d ∷ s) c = read_from-append (acc * 10 + (d - b'0')) s c

read-digits : (fuel n : ℕ) → n ≤ fuel → read_decimal (digits fuel n) ≡ n
unfolding read_decimal read_from digits
read-digits zero n h = omega arith
read-digits (suc fuel) n h = elim (Bool-cases (ltb n 10)) [
  | inl small ↦ rw (digits, small) (omega arith)
  | inr large ↦
      let below : 10 ≤ n = ground (arith, large) in
      rw (digits, large)
        (omega (
          arith,
          read_from-append 0 (digits fuel (n / 10)) (b'0' + n % 10),
          read-digits fuel (n / 10) (omega arith),
        ))
]

-- What is printed is read back.
pub read-decimal : (n : ℕ) → read_decimal (decimal n) ≡ n
unfolding decimal
read-decimal n = read-digits n n (omega arith)

pub decimal_inj : (m n : ℕ) → decimal m ≡ decimal n → m ≡ n
decimal_inj m n e = sym (read-decimal m) ∙ (ap read_decimal e ∙ read-decimal n)

-- A leading zero does not count.
pub read-zero : (s : Text) → read_decimal (b'0' ∷ s) ≡ read_decimal s
unfolding read_decimal read_from
read-zero s = refl

-- The digits of ASCII.
abbrev pub is_digit : ℕ → Bool
is_digit c = if leb b'0' c then leb c b'9' else false

pub Only-append : (good : ℕ → Bool) (s t : Text) → Only good s → Only good t → Only good (s ++ t)
Only-append good [] t h ht = ht
Only-append good (c ∷ s) t h ht = ground (arith, Only-append good s t)

Only-digits : (fuel n : ℕ) → Only is_digit (digits fuel n)
unfolding digits
Only-digits zero n = ground (arith)
Only-digits (suc fuel) n = elim (Bool-cases (ltb n 10)) [
  | inl small ↦ rw (digits, small) (ground arith)
  | inr large ↦
      rw (digits, large)
        (Only-append is_digit (digits fuel (n / 10)) ((b'0' + n % 10) ∷ [])
          (Only-digits fuel (n / 10)) (ground arith))
]

pub Only-decimal : (n : ℕ) → Only is_digit (decimal n)
unfolding decimal
Only-decimal n = Only-digits n n

digits-ne-nil : (fuel n : ℕ) → digits fuel n ≢ []
unfolding digits
digits-ne-nil zero n e = ground arith
digits-ne-nil (suc fuel) n e = elim (Bool-cases (ltb n 10)) [
  | inl small ↦ ground (arith, small)
  | inr large ↦ elim (List-cases (digits fuel (n / 10))) [
    | inl none_left ↦ ground (arith, large, none_left)
    | inr (c, s, more) ↦ ground (arith, large, more)
  ]
]

pub decimal-ne-nil : (n : ℕ) → decimal n ≢ []
unfolding decimal
decimal-ne-nil n = digits-ne-nil n n
