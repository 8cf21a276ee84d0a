-- ===== src/Prelude/Splits.antt =====
-- Laws of `split`, `join` and `trim_space`: splitting undoes joining, trimming is idempotent, and
-- neither makes up characters.
use Prim.Native.Nat.{ℕ}
use mathlib.Core.Path.{◌≡◌, refl, ap, ◌∙◌}
use mathlib.Core.Logic.{inl, inr}
use mathlib.Core.Bool.{Bool, true, false, not}
use mathlib.Core.List.{List, [], ◌∷◌, ◌++◌}
use native.Mathlib.Omega.{arith}
use extend_game_telemetry_co.Prelude.Tests.{◌==◌, Bool-cases, ==_iff}
use extend_game_telemetry_co.Prelude.Lists.{Each}
use extend_game_telemetry_co.Prelude.Strings.{Text}
use extend_game_telemetry_co.Prelude.Words.{
  is_space, trim_left, trim_right, trim_space, split, join, cons_trimmed, cons_head,
}
use extend_game_telemetry_co.Prelude.Spaces.{every}

-- Every character passes the test.
abbrev pub Only : (ℕ → Bool) → Text → Type 0
Only good s = every good s ≡ true

module _ (good : ℕ → Bool) where
  Only-trim_left : (s : Text) → Only good s → Only good (trim_left s)
  unfolding trim_left
  Only-trim_left [] h = refl
  Only-trim_left (c ∷ s) h = ground (arith, Only-trim_left s)

  Only-cons_trimmed :
      (c : ℕ) (s : Text) → good c ≡ true → Only good s → Only good (cons_trimmed c s)
  unfolding cons_trimmed
  Only-cons_trimmed c [] h hs = ground arith
  Only-cons_trimmed c (d ∷ s) h hs = ground arith

  Only-trim_right : (s : Text) → Only good s → Only good (trim_right s)
  unfolding trim_right
  Only-trim_right [] h = refl
  Only-trim_right (c ∷ s) h =
      Only-cons_trimmed c (trim_right s) (ground arith) (Only-trim_right s (ground arith))

  pub Only-trim_space : (s : Text) → Only good s → Only good (trim_space s)
  unfolding trim_space
  Only-trim_space s h = Only-trim_right (trim_left s) (Only-trim_left s h)

module _ (sep : ℕ) where
  -- Characters other than the separator.
  abbrev pub other : ℕ → Bool
  other c = not (c == sep)

  Each-cons_head :
      (c : ℕ) (ws : List Text)
      → other c ≡ true
      → Each (Only other) ws
      → Each (Only other) (cons_head c ws)
  unfolding cons_head
  Each-cons_head c [] h hs = (ground arith, tt)
  Each-cons_head c (w ∷ ws) h hs = (ground (arith, hs.0), hs.1)

  -- The parts of a split text have no separator.
  pub Only-split : (s : Text) → Each (Only other) (split sep s)
  unfolding split
  Only-split [] = (refl, tt)
  Only-split (c ∷ s) = elim (Bool-cases (c == sep)) [
    | inl same ↦ rw same (refl, Only-split s)
    | inr differs ↦ rw differs (Each-cons_head c (split sep s) (ground arith) (Only-split s))
  ]

  split-word : (w s : Text) → Only other w → split sep (w ++ sep ∷ s) ≡ w ∷ split sep s
  unfolding split cons_head
  split-word [] s h = ground (arith, ==_iff sep sep)
  split-word (c ∷ w) s h = ground (arith, split-word w s)

  split-last : (w : Text) → Only other w → split sep w ≡ w ∷ []
  unfolding split cons_head
  split-last [] h = refl
  split-last (c ∷ w) h = ground (arith, split-last w)

  pub split-join :
      (w : Text) (ws : List Text)
      → Only other w
      → Each (Only other) ws
      → split sep (join (sep ∷ []) (w ∷ ws)) ≡ w ∷ ws
  unfolding join
  split-join w [] h hs = split-last w h
  split-join w (v ∷ ws) h hs =
      split-word w (join (sep ∷ []) (v ∷ ws)) h ∙ ap (λ vs. w ∷ vs) (split-join v ws hs.0 hs.1)

-- Trimming twice is trimming once.
trim_right-cons_trimmed :
    (c : ℕ) (s : Text) → trim_right s ≡ s → trim_right (cons_trimmed c s) ≡ cons_trimmed c s
unfolding trim_right cons_trimmed
trim_right-cons_trimmed c [] h = ground arith
trim_right-cons_trimmed c (d ∷ s) h = cc h

trim_right_idem : (s : Text) → trim_right (trim_right s) ≡ trim_right s
unfolding trim_right
trim_right_idem [] = refl
trim_right_idem (c ∷ s) = trim_right-cons_trimmed c (trim_right s) (trim_right_idem s)

trim_left-cons_trimmed :
    (c : ℕ) (s : Text) → is_space c ≡ false → trim_left (cons_trimmed c s) ≡ cons_trimmed c s
unfolding trim_left cons_trimmed
trim_left-cons_trimmed c [] h = ground arith
trim_left-cons_trimmed c (d ∷ s) h = ground arith

trim_left-right_left : (s : Text) → trim_left (trim_right (trim_left s)) ≡ trim_right (trim_left s)
unfolding trim_left trim_right
trim_left-right_left [] = refl
trim_left-right_left (c ∷ s) = elim (Bool-cases (is_space c)) [
  | inl space ↦ rw space (trim_left-right_left s)
  | inr mark ↦ rw mark (trim_left-cons_trimmed c (trim_right s) mark)
]

pub trim_space_idem : (s : Text) → trim_space (trim_space s) ≡ trim_space s
unfolding trim_space
trim_space_idem s = ap trim_right (trim_left-right_left s) ∙ trim_right_idem (trim_left s)
