-- ===== src/Dedup/Memory/History.antt =====
-- A memory deduplicator against its history: for each fingerprint the cache holds what a reader of
-- the calls would say.
use mathlib.Core.Option.{some-injective}
use extend_game_telemetry_co.Prelude.{
  sym, ◌⊎◌, ◌↔◌, inl, inr, Bool, Bool-cases, ltb, text_eq_iff, ℕ, ◌+◌, ◌≤◌, ◌<◌, ◌≡◌, refl, ap, ap₂,
  ◌∙◌, true, false, List, [], ◌∷◌, ◌++◌, Option, none, some, arith, Text, text_eq, text_eq_refl,
  if◌then◌else◌, ℤ, pos,
}
use extend_game_telemetry_co.Dedup.Memory.{
  MemoryDeduplicator, new_memory_deduplicator, lookup, older, exists_in, is_seen, mark_key,
  remove_expired, lookup-insert, lookup-sweep, drop_older, Distinct, insert-Distinct,
  sweep-Distinct,
}

-- A `Mark` of a fingerprint, or a run of `removeExpired`, each with its time.
pub data Event : Type 0 where
  marks : ℕ → Text → Event
  sweeps : ℕ → Event

unfoldable pub apply : MemoryDeduplicator → Event → MemoryDeduplicator
unfolding mark_key remove_expired
apply d (marks now key) = mark_key now key d
apply d (sweeps now) = remove_expired now d

unfoldable pub run : MemoryDeduplicator → List Event → MemoryDeduplicator
unfolding apply
run d [] = d
run d (e ∷ es) = run (apply d e) es

-- The specification, for one fingerprint: the time of its last `Mark`, forgotten by a clean-up
-- that runs more than `ttl` after it.
abbrev pub after : ℤ → Text → Option ℕ → Event → Option ℕ
after ttl key seen (marks now k) = if text_eq k key then some now else seen
after ttl key seen (sweeps now) = drop_older now ttl seen

abbrev pub last_mark : ℤ → Text → Option ℕ → List Event → Option ℕ
last_mark ttl key seen [] = seen
last_mark ttl key seen (e ∷ es) = last_mark ttl key (after ttl key seen e) es

apply-Distinct :
    (d : MemoryDeduplicator) (e : Event) → Distinct d.cache → Distinct (apply d e).cache
unfolding apply
apply-Distinct d (marks now k) h = insert-Distinct k now d.cache h
apply-Distinct d (sweeps now) h = sweep-Distinct now d.ttl d.cache h

ttl-apply : (d : MemoryDeduplicator) (e : Event) → (apply d e).ttl ≡ d.ttl
unfolding apply
ttl-apply d (marks now k) = refl
ttl-apply d (sweeps now) = refl

lookup-apply :
    (key : Text) (d : MemoryDeduplicator) (e : Event)
    → Distinct d.cache
    → lookup key (apply d e).cache ≡ after d.ttl key (lookup key d.cache) e
unfolding apply
lookup-apply key d (marks now k) h = lookup-insert k key now d.cache
lookup-apply key d (sweeps now) h = lookup-sweep now d.ttl key d.cache h

lookup-run :
    (key : Text) (d : MemoryDeduplicator) (es : List Event)
    → Distinct d.cache
    → lookup key (run d es).cache ≡ last_mark d.ttl key (lookup key d.cache) es
unfolding run
lookup-run key d [] h = refl
lookup-run key d (e ∷ es) h =
    lookup-run key (apply d e) es (apply-Distinct d e h)
    ∙ ap₂ (λ (ttl : ℤ) (o : Option ℕ). last_mark ttl key o es) (ttl-apply d e)
        (lookup-apply key d e h)

-- After any history of marks and clean-ups of a new deduplicator, a fingerprint counts as seen
-- exactly when, in the specification, a `Mark` of it is not forgotten yet.
pub is_seen-run :
    (ttl : ℤ) (key : Text) (es : List Event)
    → is_seen key (run (new_memory_deduplicator ttl) es) ≡ exists_in (last_mark ttl key none es)
unfolding is_seen new_memory_deduplicator lookup
is_seen-run ttl key es = ap exists_in (lookup-run key (new_memory_deduplicator ttl) es tt)

-- No clean-up in the history runs more than `ttl` after `t`, and no mark is earlier than `t`.
abbrev pub Timely : ℕ → ℕ → List Event → Type 0
Timely ttl t [] = Unit
Timely ttl t (marks now k ∷ es) = (t ≤ now) × Timely ttl t es
Timely ttl t (sweeps now ∷ es) = (now ≤ t + ttl) × Timely ttl t es

last_mark-Timely :
    (ttl : ℕ) (key : Text) (t u : ℕ) (es : List Event)
    → t ≤ u
    → Timely ttl t es
    → exists_in (last_mark (pos ttl) key (some u) es) ≡ true
unfolding exists_in older
last_mark-Timely ttl key t u [] h w = refl
last_mark-Timely ttl key t u (marks now k ∷ es) h w =
    ground (arith, last_mark-Timely ttl key t u es h w.1, last_mark-Timely ttl key t now es w.0 w.1)
last_mark-Timely ttl key t u (sweeps now ∷ es) h w =
    ground (arith, last_mark-Timely ttl key t u es h w.1)

last_mark-append :
    (ttl : ℤ) (key : Text) (seen : Option ℕ) (xs ys : List Event)
    → last_mark ttl key seen (xs ++ ys) ≡ last_mark ttl key (last_mark ttl key seen xs) ys
last_mark-append ttl key seen [] ys = refl
last_mark-append ttl key seen (x ∷ xs) ys = last_mark-append ttl key (after ttl key seen x) xs ys

last_mark-marks :
    (ttl : ℤ) (key : Text) (seen : Option ℕ) (t : ℕ) (es : List Event)
    → last_mark ttl key seen (marks t key ∷ es) ≡ last_mark ttl key (some t) es
last_mark-marks ttl key seen t es = rw (text_eq_refl key)

-- What is seen after a `Mark` depends on the calls since, and not on those before.
is_seen-marks :
    (ttl : ℤ) (key : Text) (t : ℕ) (before later : List Event)
    → is_seen key (run (new_memory_deduplicator ttl) (before ++ marks t key ∷ later))
      ≡ exists_in (last_mark ttl key (some t) later)
is_seen-marks ttl key t before later =
    is_seen-run ttl key (before ++ marks t key ∷ later)
    ∙ ap exists_in (
        last_mark-append ttl key none before (marks t key ∷ later)
        ∙ last_mark-marks ttl key (last_mark ttl key none before) t later)

-- A fingerprint marked at `t` is seen as long as no clean-up runs later than `t + ttl` and no mark
-- has an earlier time: whatever was marked before and is marked since.
pub seen_within_ttl :
    (ttl t : ℕ) (key : Text) (before later : List Event)
    → Timely ttl t later
    → is_seen key (run (new_memory_deduplicator (pos ttl)) (before ++ marks t key ∷ later)) ≡ true
seen_within_ttl ttl t key before later w =
    is_seen-marks (pos ttl) key t before later ∙ last_mark-Timely ttl key t t later (omega arith) w

-- The history marks other fingerprints only.
abbrev pub Unmarked : Text → List Event → Type 0
Unmarked key [] = Unit
Unmarked key (marks now k ∷ es) = (text_eq k key ≡ false) × Unmarked key es
Unmarked key (sweeps now ∷ es) = Unmarked key es

last_mark-Unmarked :
    (ttl : ℤ) (key : Text) (es : List Event) → Unmarked key es → last_mark ttl key none es ≡ none
last_mark-Unmarked ttl key [] h = refl
last_mark-Unmarked ttl key (marks now k ∷ es) h = rw h.0 (last_mark-Unmarked ttl key es h.1)
last_mark-Unmarked ttl key (sweeps now ∷ es) h = last_mark-Unmarked ttl key es h

-- A clean-up after `t + ttl` forgets a mark at `t`, unless an earlier one already did.
swept :
    (ttl t now : ℕ) (key : Text) (es : List Event)
    → Unmarked key es
    → t + ttl < now
    → drop_older now (pos ttl) (last_mark (pos ttl) key (some t) es) ≡ none
unfolding older
swept ttl t now key [] h late = ground arith
swept ttl t now key (marks later k ∷ es) h late = rw h.0 (swept ttl t now key es h.1 late)
swept ttl t now key (sweeps later ∷ es) h late =
    ground (arith, swept ttl t now key es h late, last_mark-Unmarked (pos ttl) key es h)

-- A fingerprint that was never marked is not seen, and neither is one that was marked at `t` and
-- not again, once a clean-up has run later than `t + ttl`.
pub forgotten_after_ttl :
    (ttl t now : ℕ) (key : Text) (before between later : List Event)
    → Unmarked key between
    → Unmarked key later
    → t + ttl < now
    → (is_seen key (run (new_memory_deduplicator (pos ttl)) later) ≡ false)
      × (is_seen key (
            run
              (new_memory_deduplicator (pos ttl))
              (before ++ marks t key ∷ (between ++ sweeps now ∷ later)))
          ≡ false)
unfolding exists_in
forgotten_after_ttl ttl t now key before between later hb hl late = (
  is_seen-run (pos ttl) key later ∙ ap exists_in (last_mark-Unmarked (pos ttl) key later hl),
  is_seen-marks (pos ttl) key t before (between ++ sweeps now ∷ later)
      ∙ ap exists_in (
          last_mark-append (pos ttl) key (some t) between (sweeps now ∷ later)
          ∙ ap (λ o. last_mark (pos ttl) key o later) (swept ttl t now key between hb late)
          ∙ last_mark-Unmarked (pos ttl) key later hl),
)

pub run-append :
    (d : MemoryDeduplicator) (xs ys : List Event) → run d (xs ++ ys) ≡ run (run d xs) ys
unfolding run
run-append d [] ys = refl
run-append d (x ∷ xs) ys = run-append (apply d x) xs ys

pub Timely-append :
    (ttl t : ℕ) (xs ys : List Event) → Timely ttl t xs → Timely ttl t ys → Timely ttl t (xs ++ ys)
Timely-append ttl t [] ys h k = k
Timely-append ttl t (marks now key ∷ xs) ys h k = (h.0, Timely-append ttl t xs ys h.1 k)
Timely-append ttl t (sweeps now ∷ xs) ys h k = (h.0, Timely-append ttl t xs ys h.1 k)

pub run-Distinct :
    (d : MemoryDeduplicator) (es : List Event) → Distinct d.cache → Distinct (run d es).cache
unfolding run
run-Distinct d [] h = h
run-Distinct d (e ∷ es) h = run-Distinct (apply d e) es (apply-Distinct d e h)

pub ttl-run : (d : MemoryDeduplicator) (es : List Event) → (run d es).ttl ≡ d.ttl
unfolding run
ttl-run d [] = refl
ttl-run d (e ∷ es) = ttl-run (apply d e) es ∙ ttl-apply d e

-- No clean-up in the history runs later than `t + ttl`.
abbrev pub NotSwept : ℕ → ℕ → List Event → Type 0
NotSwept ttl t [] = Unit
NotSwept ttl t (marks now k ∷ es) = NotSwept ttl t es
NotSwept ttl t (sweeps now ∷ es) = (now ≤ t + ttl) × NotSwept ttl t es

-- The history has a mark of the fingerprint at some time `t`, and after it neither another mark of it
-- nor a clean-up later than `t + ttl`.
abbrev pub MarkedLast : ℕ → Text → List Event → Type 0
MarkedLast ttl key es =
    (before : List Event) × (t : ℕ) × (later : List Event) × (es ≡ before ++ marks t key ∷ later)
    × Unmarked key later
    × NotSwept ttl t later

last_mark-stays :
    (ttl t : ℕ) (key : Text) (es : List Event)
    → Unmarked key es
    → NotSwept ttl t es
    → last_mark (pos ttl) key (some t) es ≡ some t
unfolding older
last_mark-stays ttl t key [] un kept = refl
last_mark-stays ttl t key (marks now k ∷ es) un kept =
    rw un.0 (last_mark-stays ttl t key es un.1 kept)
last_mark-stays ttl t key (sweeps now ∷ es) un kept =
    ground (arith, kept.0, last_mark-stays ttl t key es un kept.1)

-- The time that is seen comes from the history, or from before it.
abbrev Comes : ℕ → Text → Option ℕ → List Event → Type 0
Comes ttl key seen es =
    MarkedLast ttl key es ⊎ ((t : ℕ) × (seen ≡ some t) × Unmarked key es × NotSwept ttl t es)

MarkedLast-cons :
    (ttl : ℕ) (key : Text) (e : Event) (es : List Event)
    → MarkedLast ttl key es
    → MarkedLast ttl key (e ∷ es)
MarkedLast-cons ttl key e es (before, t, later, same, un, kept) =
    (e ∷ before, t, later, ap (λ xs. e ∷ xs) same, un, kept)

Comes-mark :
    (ttl now : ℕ) (key k : Text) (seen : Option ℕ) (es : List Event) (same : Bool)
    → text_eq k key ≡ same
    → Comes ttl key (if same then some now else seen) es
    → Comes ttl key seen (marks now k ∷ es)
Comes-mark ttl now key k seen es same test (inl last) =
    inl (MarkedLast-cons ttl key (marks now k) es last)
Comes-mark ttl now key k seen es true test (inr (t, is_t, un, kept)) =
    let now_is : now ≡ t = some-injective _ _ is_t in
    inl (
      [],
      t,
      es,
      ap₂ (λ (n : ℕ) (x : Text). marks n x ∷ es) now_is ((text_eq_iff k key).0 test),
      un,
      kept,
    )
Comes-mark ttl now key k seen es false test (inr (t, is_t, un, kept)) =
    inr (t, is_t, (test, un), kept)

Comes-sweep :
    (ttl now : ℕ) (key : Text) (seen : Option ℕ) (es : List Event)
    → Comes ttl key (drop_older now (pos ttl) seen) es
    → Comes ttl key seen (sweeps now ∷ es)
unfolding older
Comes-sweep ttl now key seen es (inl last) = inl (MarkedLast-cons ttl key (sweeps now) es last)
Comes-sweep ttl now key none es (inr (t, is_t, un, kept)) = cc
Comes-sweep ttl now key (some u) es (inr (t, is_t, un, kept)) =
    elim (Bool-cases (ltb (u + ttl) now)) [
      | inl late ↦ ground (arith, late, is_t)
      | inr young ↦
          let u_is : u ≡ t = ground (arith, young, is_t) in
          inr (t, ap some u_is, un, (ground (arith, young, u_is), kept))
    ]

seen-Comes :
    (ttl : ℕ) (key : Text) (seen : Option ℕ) (es : List Event)
    → exists_in (last_mark (pos ttl) key seen es) ≡ true
    → Comes ttl key seen es
unfolding exists_in
seen-Comes ttl key none [] h = cc
seen-Comes ttl key (some t) [] h = inr (t, refl, tt, tt)
seen-Comes ttl key seen (marks now k ∷ es) h =
    Comes-mark ttl now key k seen es (text_eq k key) refl
      (seen-Comes ttl key (if text_eq k key then some now else seen) es h)
seen-Comes ttl key seen (sweeps now ∷ es) h =
    Comes-sweep ttl now key seen es (seen-Comes ttl key (drop_older now (pos ttl) seen) es h)

-- What a memory deduplicator has seen. After any history of marks and clean-ups of a new one with the
-- time to live `ttl`, a fingerprint counts as seen exactly if the history has a mark of it at some
-- time `t` with neither another mark of it nor a clean-up later than `t + ttl` after it.
pub is_seen_iff :
    (ttl : ℕ) (key : Text) (es : List Event)
    → (is_seen key (run (new_memory_deduplicator (pos ttl)) es) ≡ true) ↔ MarkedLast ttl key es
unfolding exists_in
is_seen_iff ttl key es = (
  λ seen. elim (seen-Comes ttl key none es (sym (is_seen-run (pos ttl) key es) ∙ seen)) [
    | inl last ↦ last
    | inr (t, is_t, un, kept) ↦ cc
  ],
  λ (before, t, later, same, un, kept).
      ap (λ xs. is_seen key (run (new_memory_deduplicator (pos ttl)) xs)) same
      ∙ (is_seen-marks (pos ttl) key t before later
          ∙ ap exists_in (last_mark-stays ttl t key later un kept)),
)
