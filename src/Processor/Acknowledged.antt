-- ===== src/Processor/Acknowledged.antt =====
-- What a finished call of `Submit` of pkg/processor/processor.go means for its event.
use mathlib.Core.Path.{subst}
use extend_game_telemetry_co.Prelude.{
  ℕ, ◌≤◌, ◌<◌, ◌≡◌, inl, inr, refl, sym, ap, ◌∙◌, Bool, true, false, List, [], ◌∷◌, ◌++◌, Option,
  none, some, arith, ◌==◌, ==_iff, Bool-cases, count, count-append, ltb, length, update,
}
use extend_game_telemetry_co.Dedup.{Deduplicator}
use extend_game_telemetry_co.Processor.Callers.{NoCall, Step-Acts}
use extend_game_telemetry_co.Processor.Refines.Effects.{Step-Moved}
use extend_game_telemetry_co.Processor.{
  Processor, Caller, entered, fresh, sending, waiting, sent, count_received, finished, idle, queued,
  skipped, refused, panicked, set_caller, advance, advance_from, checked, check, mark_seen,
  try_send, enqueue, enter,
}
use extend_game_telemetry_co.Processor.Steps.{Step, Reach, here, later}

module _ {D T : Type 0} where
  -- No accepted event is forgotten.
  Step-Grows :
      {p q : Processor D T} → Step p q → (t : T → Bool) → count t p.accepted ≤ count t q.accepted
  Step-Grows {p} s t = elim (Step-Moved s) [
    | inl (events, m) ↦ omega (arith, ap (count t) m.accepted)
    | inr (event, m) ↦
        omega (arith, ap (count t) m.accepted, count-append t p.accepted (event ∷ []))
  ]

module _ {T : Type 0} (event : T) where
  -- Wherever a call with the event stands, it stands there with this event; if it has returned
  -- after the send, or is about to, the event was accepted once more than before.
  abbrev Due : List T → List T → Caller T → Type 0
  Due before after (entered e) = e ≡ event
  Due before after (fresh e) = e ≡ event
  Due before after (sending e) = e ≡ event
  Due before after (waiting e) = e ≡ event
  Due before after (finished queued) =
      (t : T → Bool) → t event ≡ true → count t before < count t after
  Due before after sent = (t : T → Bool) → t event ≡ true → count t before < count t after
  Due before after (finished skipped) = Unit
  Due before after (finished refused) = Unit
  Due before after (finished panicked) = Unit
  Due before after idle = Unit

  Due-Grows :
      (before after more : List T) (c : Caller T)
      → ((t : T → Bool) → count t after ≤ count t more)
      → Due before after c
      → Due before more c
  Due-Grows before after more (entered e) grows due = due
  Due-Grows before after more (fresh e) grows due = due
  Due-Grows before after more (sending e) grows due = due
  Due-Grows before after more (waiting e) grows due = due
  Due-Grows before after more (finished queued) grows due =
      λ t passes. omega (arith, due t passes, grows t)
  Due-Grows before after more sent grows due = λ t passes. omega (arith, due t passes, grows t)
  Due-Grows before after more (finished skipped) grows due = tt
  Due-Grows before after more (finished refused) grows due = tt
  Due-Grows before after more (finished panicked) grows due = tt
  Due-Grows before after more idle grows due = tt

module _ {T : Type 0} (event : T) (before : List T) (j : ℕ) where
  update-Due :
      (c : Caller T) (callers : ℕ → Caller T) (after : List T)
      → Due event before after c
      → Due event before after (update callers j c j)
  update-Due c callers after due = let same : (j == j) ≡ true = (==_iff j j).1 refl in rw same due

  sent-Due :
      (e : T) (accepted : List T)
      → e ≡ event
      → ((t : T → Bool) → count t before ≤ count t accepted)
      → Due event before (accepted ++ e ∷ []) sent
  sent-Due e accepted same grown t passes =
      let its_pass : t e ≡ true = ap t same ∙ passes in
      ground (arith, its_pass, grown t, count-append t accepted (e ∷ []))

module _ {D T : Type 0} (event : T) (before : List T) (j : ℕ) where
  abbrev DueAt : Processor D T → Type 0
  DueAt q = Due event before q.accepted (q.callers j)

  try_send-DueAt :
      (e : T) (p : Processor D T)
      → e ≡ event
      → ((t : T → Bool) → count t before ≤ count t p.accepted)
      → DueAt (try_send j e (waiting e) p)
  unfolding try_send enqueue set_caller
  try_send-DueAt e p same grown = elim (Bool-cases p.input_chan.closed) [
    | inl closed ↦ rw closed (update-Due event before j (finished panicked) p.callers p.accepted tt)
    | inr open_chan ↦ elim (Bool-cases (ltb (length p.input_chan.buf) p.input_chan.cap)) [
      | inl room ↦
          rw (open_chan, room)
            (update-Due event before j sent p.callers (p.accepted ++ e ∷ [])
              (sent-Due event before j e p.accepted same grown))
      | inr full ↦
          rw (open_chan, full) (update-Due event before j (waiting e) p.callers p.accepted same)
    ]
  ]

  checked-DueAt :
      (o : Option Bool) (e : T) (p : Processor D T) → e ≡ event → DueAt (checked o j e p)
  unfolding checked set_caller
  checked-DueAt none e p same = update-Due event before j (fresh e) p.callers p.accepted same
  checked-DueAt (some false) e p same =
      update-Due event before j (fresh e) p.callers p.accepted same
  checked-DueAt (some true) e p same =
      update-Due event before j (finished skipped) p.callers p.accepted tt

  check-DueAt :
      (o : Option (Deduplicator D T)) (now : ℕ) (e : T) (p : Processor D T)
      → e ≡ event
      → DueAt (check o now j e p)
  unfolding check set_caller
  check-DueAt none now e p same = update-Due event before j (sending e) p.callers p.accepted same
  check-DueAt (some d) now e p same =
      checked-DueAt (d.is_duplicate p.cancelled now p.dedup_state e) e p same

  mark_seen-DueAt :
      (o : Option (Deduplicator D T)) (now : ℕ) (e : T) (p : Processor D T)
      → e ≡ event
      → DueAt (mark_seen o now j e p)
  unfolding mark_seen set_caller
  mark_seen-DueAt none now e p same =
      update-Due event before j (sending e) p.callers p.accepted same
  mark_seen-DueAt (some d) now e p same =
      update-Due event before j (sending e) p.callers p.accepted same

  advance_from-DueAt :
      (c : Caller T) (now : ℕ) (p : Processor D T)
      → c ≡ p.callers j
      → Due event before p.accepted c
      → ((t : T → Bool) → count t before ≤ count t p.accepted)
      → DueAt (advance_from c now j p)
  unfolding advance_from count_received set_caller
  advance_from-DueAt (entered e) now p at due grown = check-DueAt p.deduplicator now e p due
  advance_from-DueAt (fresh e) now p at due grown = mark_seen-DueAt p.deduplicator now e p due
  advance_from-DueAt (sending e) now p at due grown = try_send-DueAt e p due grown
  advance_from-DueAt (waiting e) now p at due grown = try_send-DueAt e p due grown
  advance_from-DueAt sent now p at due grown =
      update-Due event before j (finished queued) p.callers p.accepted due
  advance_from-DueAt (finished o) now p at due grown = subst (Due event before p.accepted) at due
  advance_from-DueAt idle now p at due grown = subst (Due event before p.accepted) at due

  Step-DueAt :
      {p q : Processor D T} (s : Step p q)
      → NoCall j s
      → ((t : T → Bool) → count t before ≤ count t p.accepted)
      → DueAt p
      → DueAt q
  unfolding advance
  Step-DueAt {p} {q} s other grown due = elim (Step-Acts j s other) [
    | inl stays ↦
        subst (Due event before q.accepted) (sym stays)
          (Due-Grows event before p.accepted q.accepted (p.callers j) (Step-Grows s) due)
    | inr (inl (now, acts)) ↦
        subst DueAt (sym acts) (advance_from-DueAt (p.callers j) now p refl due grown)
    | inr (inr gone) ↦ subst (Due event before q.accepted) (sym gone) tt
  ]

  -- A run in which caller `j` starts no other call.
  abbrev pub OneCall : {p q : Processor D T} → Reach p q → Type 0
  OneCall here = Unit
  OneCall (later r s) = OneCall r × NoCall j s

  Reach-DueAt :
      {p q : Processor D T} (r : Reach p q)
      → OneCall r
      → ((t : T → Bool) → count t before ≤ count t p.accepted)
      → DueAt p
      → DueAt q × ((t : T → Bool) → count t before ≤ count t q.accepted)
  Reach-DueAt here one grown due = (due, grown)
  Reach-DueAt (later r s) one grown due =
      let (due', grown') = Reach-DueAt r one.0 grown due in
      (Step-DueAt s one.1 grown' due', λ t. omega (arith, grown' t, Step-Grows s t))

module _ {D T : Type 0} where
  -- An acknowledged event was accepted. When a call of `Submit` that entered with the event has
  -- returned nil after its send, whatever ran in between, then the event is among the accepted
  -- ones, once more than before the call: by every test that it passes, more events pass now.
  pub acknowledged_accepted :
      (j : ℕ) (event : T) (p q : Processor D T) (run : Reach (enter j event p) q) (t : T → Bool)
      → OneCall event p.accepted j run
      → q.callers j ≡ finished queued
      → t event ≡ true
      → count t p.accepted < count t q.accepted
  unfolding enter set_caller
  acknowledged_accepted j event p q run t one done passes =
      subst (Due event p.accepted q.accepted) done
        (Reach-DueAt event p.accepted j run one (λ t. omega arith)
          (update-Due event p.accepted j (entered event) p.callers p.accepted refl)).0
        t passes
