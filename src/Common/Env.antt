-- ===== src/Common/Env.antt =====
-- pkg/common/utils.go: `GetEnv` and `GetEnvInt`.
use extend_game_telemetry_co.Prelude.{
  ℕ, zero, suc, ◌≡◌, ◌≢◌, ◌<◌, refl, ap, ◌∙◌, [], ◌∷◌, Option, none, some, Text, arith, ltb, ◌==◌,
  if◌then◌else◌, every, is_digit, read_decimal, read-decimal, decimal, itoa, Only, Only-decimal,
  decimal-ne-nil, ℤ, pos, negsuc,
}

-- The digits of a number, at least one.
unsigned : Text → Option ℕ
unsigned [] = none
unsigned (c ∷ s) = if every is_digit (c ∷ s) then some (read_decimal (c ∷ s)) else none

-- The numbers of an int; out of range is an error.
positive : Option ℕ → Option ℤ
positive none = none
positive (some n) = if ltb n 0x8000000000000000 then some (pos n) else none

negative : Option ℕ → Option ℤ
negative none = none
negative (some zero) = some (pos 0)
negative (some (suc n)) = if ltb n 0x8000000000000000 then some (negsuc n) else none

-- `strconv.Atoi`, with `none` for an error.
pub atoi : Text → Option ℤ
unfolding unsigned positive negative
atoi [] = none
atoi (c ∷ s) =
    if c == b'-'
    then negative (unsigned s)
    else if c == b'+'
    then positive (unsigned s)
    else positive (unsigned (c ∷ s))

or_fallback : ℤ → Option ℤ → ℤ
or_fallback fallback none = fallback
or_fallback fallback (some val) = val

-- `lookup` is `os.LookupEnv`.
module _ (lookup : Text → Option Text) where
  pub get_env : Text → Text → Text
  get_env key fallback = elim (lookup key) [ some value ↦ value | none ↦ fallback ]

  pub get_env_int : Text → ℤ → ℤ
  unfolding get_env atoi or_fallback
  get_env_int key fallback = or_fallback fallback (atoi (get_env key (itoa fallback)))

-- The numbers of an int.
abbrev pub IsInt : ℤ → Type 0
IsInt (pos n) = n < 0x8000000000000000
IsInt (negsuc n) = n < 0x8000000000000000

unsigned-digits : (s : Text) → s ≢ [] → Only is_digit s → unsigned s ≡ some (read_decimal s)
unfolding unsigned
unsigned-digits [] some_digit good = elim (some_digit refl) [ ]
unsigned-digits (c ∷ s) some_digit good = rw good refl

unsigned-decimal : (n : ℕ) → unsigned (decimal n) ≡ some n
unsigned-decimal n =
    unsigned-digits (decimal n) (decimal-ne-nil n) (Only-decimal n) ∙ ap some (read-decimal n)

atoi-digits : (s : Text) → s ≢ [] → Only is_digit s → atoi s ≡ positive (unsigned s)
unfolding atoi
atoi-digits [] some_digit good = elim (some_digit refl) [ ]
atoi-digits (c ∷ s) some_digit good = ground (arith, good)

positive-int : (n : ℕ) → IsInt (pos n) → positive (some n) ≡ some (pos n)
unfolding positive
positive-int n small = ground arith

negative-int : (n : ℕ) → IsInt (negsuc n) → negative (some (suc n)) ≡ some (negsuc n)
unfolding negative
negative-int n small = ground arith

-- `Atoi` reads what `Itoa` writes.
atoi-itoa : (z : ℤ) → IsInt z → atoi (itoa z) ≡ some z
unfolding atoi itoa
atoi-itoa (pos n) small =
    atoi-digits (decimal n) (decimal-ne-nil n) (Only-decimal n)
    ∙ (ap positive (unsigned-decimal n) ∙ positive-int n small)
atoi-itoa (negsuc n) small = ap negative (unsigned-decimal (suc n)) ∙ negative-int n small

-- What `strconv.Itoa` writes, `GetEnvInt` reads: for every number of an int, when the variable has
-- its text (or is not set, and it is the text of the fallback), the result is the number.
pub get_env_int-itoa :
    (lookup : Text → Option Text) (key : Text) (fallback z : ℤ)
    → IsInt z
    → get_env lookup key (itoa fallback) ≡ itoa z
    → get_env_int lookup key fallback ≡ z
unfolding get_env_int or_fallback
get_env_int-itoa lookup key fallback z small same =
    ap (λ s. or_fallback fallback (atoi s)) same ∙ ap (or_fallback fallback) (atoi-itoa z small)
