-- ===== src/Events/Colons.antt =====
-- Texts joined by colons, and when they can be taken apart again.
use mathlib.Core.Path.{subst}
use extend_game_telemetry_co.Prelude.{
  ℕ, ◌≡◌, ◌≢◌, refl, [], ◌∷◌, ◌++◌, arith, Text, Each, sym, append_assoc,
}

-- The text has no colon.
abbrev pub NoColon : Text → Type 0
NoColon s = Each (λ c. c ≢ b':') s

infixr 66 ◌:+◌
-- Two texts with a colon between them.
abbrev pub ◌:+◌ : Text → Text → Text
s :+ t = s ++ b':' ∷ t

NoColon-join : (s t : Text) → NoColon (s :+ t) → ⊥
NoColon-join [] t h = h.0 refl
NoColon-join (c ∷ s) t h = NoColon-join s t h.1

tail_path : {a b : ℕ} {s t : Text} → a ∷ s ≡ b ∷ t → s ≡ t
tail_path e = ground arith

-- The first colon ends a text without colons.
pub join-injective_left :
    (s s' t t' : Text) → NoColon s → NoColon s' → s :+ t ≡ s' :+ t' → (s ≡ s') × (t ≡ t')
join-injective_left [] [] t t' h h' e = ground arith
join-injective_left [] (c ∷ s') t t' h h' e = absurd (h'.0 (ground arith))
join-injective_left (c ∷ s) [] t t' h h' e = absurd (h.0 (ground arith))
join-injective_left (c ∷ s) (c' ∷ s') t t' h h' e =
    ground (arith, join-injective_left s s' t t' h.1 h'.1)

-- The last colon begins a text without colons.
pub join-injective_right :
    (s s' t t' : Text) → NoColon t → NoColon t' → s :+ t ≡ s' :+ t' → (s ≡ s') × (t ≡ t')
join-injective_right [] [] t t' h h' e = ground arith
join-injective_right [] (c ∷ s') t t' h h' e =
    absurd (NoColon-join s' t' (subst NoColon (tail_path e) h))
join-injective_right (c ∷ s) [] t t' h h' e =
    absurd (NoColon-join s t (subst NoColon (sym (tail_path e)) h'))
join-injective_right (c ∷ s) (c' ∷ s') t t' h h' e =
    ground (arith, join-injective_right s s' t t' h h')

-- The colons of a longer join can be regrouped.
pub join_assoc : (s t u : Text) → (s :+ t) :+ u ≡ s :+ t :+ u
join_assoc s t u = append_assoc s (b':' ∷ t) (b':' ∷ u)
