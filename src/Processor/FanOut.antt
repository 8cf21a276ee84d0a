-- ===== src/Processor/FanOut.antt =====
-- pkg/storage/plugin.go (the interface) and the fan-out of pkg/processor/processor.go.
pub mod Installed
use extend_game_telemetry_co.Prelude.{
  ℕ, zero, suc, ◌≡◌, refl, Bool, List, [], ◌∷◌, ◌++◌, Option, map, arith, keep, append-nil, count,
  count-append, count-keep, concat, Each, Text, ℤ, ◌&&◌,
}

-- What the processor needs of a `StoragePlugin[T]`. The backend is not under our control: the
-- count and the error of a `WriteBatch` are any function of whether the context of the call is done,
-- of the earlier calls and of the batch.
pub record Plugin (T : Type 0) : Type 0 where
  pub name : Text
  pub filter : T → Bool
  pub write_batch : Bool → List (List T) → List T → ℤ × Option Text

-- A plugin with the calls of its `WriteBatch` and what they returned, oldest first.
pub record Slot (T : Type 0) : Type 0 where
  pub plugin : Plugin T
  pub written : List (List T)
  pub results : List (ℤ × Option Text)

module _ {T : Type 0} where
  abbrev pub fresh_slot : Plugin T → Slot T
  fresh_slot p = record { plugin = p; written = []; results = [] }

  -- The call of `WriteBatch`, or the early return when no event passed the filter.
  write_filtered : Bool → Slot T → List T → Slot T
  write_filtered done s [] = s
  write_filtered done s (e ∷ es) = record s {
    written = s.written ++ (e ∷ es) ∷ [];
    results = s.results ++ s.plugin.write_batch done s.written (e ∷ es) ∷ [];
  }

  -- A failed write is logged and nothing else.
  pub write_to_plugin : Bool → List T → Slot T → Slot T
  unfolding write_filtered
  write_to_plugin done batch s = write_filtered done s (keep s.plugin.filter batch)

  -- One goroutine for each plugin; each works on its own plugin.
  unfoldable pub fan_out : Bool → List T → List (Slot T) → List (Slot T)
  unfolding write_to_plugin
  fan_out done batch plugins = map (write_to_plugin done batch) plugins

  -- What a filter lets through of a sequence of batches: empty batches are not written.
  nonempty : List T → List (List T) → List (List T)
  nonempty [] rest = rest
  nonempty (e ∷ es) rest = (e ∷ es) ∷ rest

  pub deliveries : (T → Bool) → List (List T) → List (List T)
  unfolding nonempty
  deliveries p [] = []
  deliveries p (batch ∷ rest) = nonempty (keep p batch) (deliveries p rest)

  nonempty-append :
      (xs : List T) (xss yss : List (List T)) → nonempty xs (xss ++ yss) ≡ nonempty xs xss ++ yss
  unfolding nonempty
  nonempty-append [] xss yss = refl
  nonempty-append (x ∷ xs) xss yss = refl

  pub deliveries-append :
      (p : T → Bool) (xss yss : List (List T))
      → deliveries p (xss ++ yss) ≡ deliveries p xss ++ deliveries p yss
  unfolding deliveries
  deliveries-append p [] yss = refl
  deliveries-append p (xs ∷ xss) yss = cc (
    deliveries-append p xss yss,
    nonempty-append (keep p xs) (deliveries p xss) (deliveries p yss),
  )

  -- A plugin has seen what its filter lets through of the batches in `flushed`.
  abbrev pub UpToDate : List (List T) → Slot T → Type 0
  UpToDate flushed s = s.written ≡ deliveries s.plugin.filter flushed

  write_to_plugin-UpToDate :
      (done : Bool) (flushed : List (List T)) (batch : List T) (s : Slot T)
      → UpToDate flushed s
      → UpToDate (flushed ++ batch ∷ []) (write_to_plugin done batch s)
  unfolding write_to_plugin deliveries
  write_to_plugin-UpToDate done flushed batch s h = ground (
    arith,
    deliveries-append s.plugin.filter flushed (batch ∷ []),
    append-nil (deliveries s.plugin.filter flushed),
  )

  pub fan_out-UpToDate :
      (done : Bool) (flushed : List (List T)) (batch : List T) (ss : List (Slot T))
      → Each (UpToDate flushed) ss
      → Each (UpToDate (flushed ++ batch ∷ [])) (fan_out done batch ss)
  unfolding fan_out
  fan_out-UpToDate done flushed batch [] h = tt
  fan_out-UpToDate done flushed batch (s ∷ ss) h = (
    write_to_plugin-UpToDate done flushed batch s h.0,
    fan_out-UpToDate done flushed batch ss h.1,
  )

  -- Event by event, what is delivered is what passes the filter.
  pub count-deliveries :
      (p q : T → Bool) (xss : List (List T))
      → count p (concat (deliveries q xss)) ≡ count (λ x. q x && p x) (concat xss)
  unfolding deliveries
  count-deliveries p q [] = refl
  count-deliveries p q (xs ∷ xss) = ground (
    arith,
    count-deliveries p q xss,
    count-keep p q xs,
    count-append (λ x. q x && p x) xs (concat xss),
    count-append p (keep q xs) (concat (deliveries q xss)),
  )

  pub fresh-UpToDate : (plugins : List (Plugin T)) → Each (UpToDate []) (map fresh_slot plugins)
  unfolding deliveries
  fresh-UpToDate [] = tt
  fresh-UpToDate (p ∷ ps) = (refl, fresh-UpToDate ps)
