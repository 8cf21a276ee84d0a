-- ===== src/Processor/Bags.antt =====
-- What pkg/processor/processor.go promises, without workers, channel and batches: events that were
-- accepted wait, and each is processed once. Order is forgotten.
use mathlib.Core.Quot
use mathlib.Core.Quot.{Quot, Quot-set}
use extend_game_telemetry_co.Prelude.{
  ◌+◌, ◌≡◌, Bool, List, [], ◌∷◌, ◌++◌, arith, count, count-append,
}

module _ {T : Type 0} where
  -- Lists with the same events, each as often.
  abbrev pub SameItems : List T → List T → Type 0
  SameItems xs ys = (t : T → Bool) → count t xs ≡ count t ys

-- A list up to the order of its elements.
abbrev pub Bag : Type 0 → Type 0
Bag T = Quot (SameItems {T = T})

module _ {T : Type 0} where
  pub bag : List T → Bag T
  bag xs = Quot.mk xs

  add-SameItems : (xs ys zs : List T) → SameItems ys zs → SameItems (xs ++ ys) (xs ++ zs)
  add-SameItems xs ys zs same t = omega (arith, count-append t xs ys, count-append t xs zs, same t)

  -- Some more events in a bag.
  pub add_all : List T → Bag T → Bag T
  add_all xs =
      Quot.lift Quot-set (λ ys. Quot.mk (xs ++ ys))
        (λ ys zs same. Quot.sound (add-SameItems xs ys zs same))

  pub bag-eq : (xs ys : List T) → SameItems xs ys → bag xs ≡ bag ys
  unfolding bag
  bag-eq xs ys same = Quot.sound same

  -- A bag is that of some events and another.
  pub bag-add_all :
      (xs ys zs : List T)
      → ((t : T → Bool) → count t xs ≡ count t ys + count t zs)
      → bag xs ≡ add_all ys (bag zs)
  unfolding bag add_all
  bag-add_all xs ys zs same = Quot.sound (λ t. omega (arith, same t, count-append t ys zs))

-- The abstract state: the events that wait, and those that were processed.
pub record Spec (T : Type 0) : Type 0 where
  pub waiting : Bag T
  pub processed : Bag T

abbrev pub empty : {T : Type 0} → Spec T
empty = record { waiting = bag []; processed = bag [] }

-- An event is accepted, or some waiting events (maybe none) are processed.
pub data SpecStep {T : Type 0} (s t : Spec T) : Type 0 where
  accepts :
      (event : T)
      → t.waiting ≡ add_all (event ∷ []) s.waiting
      → t.processed ≡ s.processed
      → SpecStep s t
  processes :
      (events : List T)
      → s.waiting ≡ add_all events t.waiting
      → t.processed ≡ add_all events s.processed
      → SpecStep s t

pub data SpecRun {T : Type 0} (s : Spec T) : Spec T → Type 0 where
  none_yet : SpecRun s s
  next : {t u : Spec T} → SpecRun s t → SpecStep t u → SpecRun s u
