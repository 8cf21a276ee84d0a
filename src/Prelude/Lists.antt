-- ===== src/Prelude/Lists.antt =====
-- Lists measured by native numbers, Boolean filters and counts.
use Prim.Native.Nat.{ℕ, zero, suc, ◌+◌}
use mathlib.Core.Path.{◌≡◌, refl, subst}
use mathlib.Core.Logic.{◌⊎◌, inl, inr}
use mathlib.Core.Bool.{Bool, true, ◌&&◌}
use mathlib.Core.Option.{Option, none, some, some_inj}
use mathlib.Core.List.{List, [], ◌∷◌, ◌++◌, append_assoc}
use native.Mathlib.Omega.{arith}
use extend_game_telemetry_co.Prelude.Tests.{if◌then◌else◌}

module _ {ℓ κ} {A : Type ℓ} (Good : A → Type κ) where
  -- Every element of the list is good.
  abbrev pub Each : List A → Type κ
  Each [] = Unit
  Each (a ∷ rest) = Good a × Each rest

  pub Each-append : (front back : List A) → Each front → Each back → Each (front ++ back)
  Each-append [] back _ goods = goods
  Each-append (a ∷ rest) back first goods = (first.0, Each-append rest back first.1 goods)

module _ {ℓ} {A : Type ℓ} where
  abbrev pub length : List A → ℕ
  length [] = 0
  length (x ∷ xs) = suc (length xs)

  pub length-append : (xs ys : List A) → length (xs ++ ys) ≡ length xs + length ys
  length-append [] ys = omega arith
  length-append (x ∷ xs) ys = omega (arith, length-append xs ys)

  pub List-cases : (xs : List A) → (xs ≡ []) ⊎ ((x : A) × (rest : List A) × (xs ≡ x ∷ rest))
  List-cases [] = inl refl
  List-cases (x ∷ rest) = inr (x, rest, refl)

  abbrev pub get_elem? : List A → ℕ → Option A
  get_elem? [] i = none
  get_elem? (x ∷ xs) zero = some x
  get_elem? (x ∷ xs) (suc i) = get_elem? xs i

  abbrev pub concat : List (List A) → List A
  concat [] = []
  concat (xs ∷ xss) = xs ++ concat xss

  pub concat-append : (xss yss : List (List A)) → concat (xss ++ yss) ≡ concat xss ++ concat yss
  concat-append [] yss = refl
  concat-append (xs ∷ xss) yss = simp (concat-append xss yss, append_assoc)

  -- The elements that pass a Boolean test, in order.
  abbrev pub keep : (A → Bool) → List A → List A
  keep p [] = []
  keep p (x ∷ xs) = let rest = keep p xs in if p x then x ∷ rest else rest

  pub keep-append : (p : A → Bool) (xs ys : List A) → keep p (xs ++ ys) ≡ keep p xs ++ keep p ys
  keep-append p [] ys = refl
  keep-append p (x ∷ xs) ys = ground (arith, keep-append p xs ys)

  -- How many elements pass a Boolean test.
  abbrev pub count : (A → Bool) → List A → ℕ
  count p [] = 0
  count p (x ∷ xs) = (if p x then 1 else 0) + count p xs

  pub count-append : (p : A → Bool) (xs ys : List A) → count p (xs ++ ys) ≡ count p xs + count p ys
  count-append p [] ys = omega arith
  count-append p (x ∷ xs) ys = omega (arith, count-append p xs ys)

  pub count-keep : (p q : A → Bool) (xs : List A) → count p (keep q xs) ≡ count (λ x. q x && p x) xs
  count-keep p q [] = refl
  count-keep p q (x ∷ xs) = ground (arith, count-keep p q xs)

  pub count-length : (xs : List A) → count (λ _. true) xs ≡ length xs
  count-length [] = refl
  count-length (x ∷ xs) = omega (arith, count-length xs)

pub Each-get_elem? {ℓ κ} :
    {A : Type ℓ} (Good : A → Type κ) (xs : List A) (i : ℕ) (x : A)
    → Each Good xs
    → get_elem? xs i ≡ some x
    → Good x
Each-get_elem? Good [] i x goods found = ground arith
Each-get_elem? Good (y ∷ ys) zero x goods found = subst Good (some_inj.0 found) goods.0
Each-get_elem? Good (y ∷ ys) (suc i) x goods found = Each-get_elem? Good ys i x goods.1 found
