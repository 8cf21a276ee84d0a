-- ===== src/Processor/FanOut/Installed.antt =====
-- The plugins behind the slots of pkg/processor/processor.go, and what those that take all get.
use extend_game_telemetry_co.Prelude.{
  ◌≡◌, refl, ap, ap₂, ◌∙◌, sym, keep, append-nil, ◌++◌, Bool, true, List, [], ◌∷◌, arith, map,
  count, concat, Each, ◌&&◌,
}
use extend_game_telemetry_co.Processor.FanOut.{
  Plugin, Slot, fresh_slot, fan_out, write_to_plugin, write_filtered, deliveries, nonempty,
}

module _ {T : Type 0} where
  unfoldable pub installed : List (Slot T) → List (Plugin T)
  installed slots = map (λ s. s.plugin) slots

  write_filtered-plugin :
      (done : Bool) (s : Slot T) (batch : List T) → (write_filtered done s batch).plugin ≡ s.plugin
  unfolding write_filtered
  write_filtered-plugin done s [] = refl
  write_filtered-plugin done s (e ∷ es) = refl

  pub installed-fan_out :
      (done : Bool) (batch : List T) (slots : List (Slot T))
      → installed (fan_out done batch slots) ≡ installed slots
  unfolding installed fan_out write_to_plugin
  installed-fan_out done batch [] = refl
  installed-fan_out done batch (s ∷ slots) =
      ap₂ (λ p ps. p ∷ ps) (write_filtered-plugin done s _) (installed-fan_out done batch slots)

  written_one :
      (done : Bool) (s : Slot T) (passing : List T)
      → (write_filtered done s passing).written ≡ s.written ++ nonempty passing []
  unfolding write_filtered nonempty
  written_one done s [] = sym (append-nil s.written)
  written_one done s (e ∷ es) = refl

  -- A batch adds to each plugin's calls what its filter lets through.
  pub written-fan_out :
      (done : Bool) (batch : List T) (slots : List (Slot T))
      → map (λ s. s.written) (fan_out done batch slots)
        ≡ map (λ s. s.written ++ deliveries s.plugin.filter (batch ∷ [])) slots
  unfolding fan_out write_to_plugin deliveries
  written-fan_out done batch [] = refl
  written-fan_out done batch (s ∷ slots) =
      ap₂ (λ ws rest. ws ∷ rest) (written_one done s (keep s.plugin.filter batch))
        (written-fan_out done batch slots)

  pub installed-fresh : (plugins : List (Plugin T)) → installed (map fresh_slot plugins) ≡ plugins
  unfolding installed
  installed-fresh [] = refl
  installed-fresh (p ∷ plugins) = ap (λ ps. p ∷ ps) (installed-fresh plugins)

  -- The filters of the slots of plugins that take every event.
  pub Each-installed :
      (slots : List (Slot T))
      → Each (λ p. (e : T) → p.filter e ≡ true) (installed slots)
      → Each (λ s. (e : T) → s.plugin.filter e ≡ true) slots
  unfolding installed
  Each-installed [] all = tt
  Each-installed (s ∷ slots) all = (all.0, Each-installed slots all.1)

  pub count-all :
      (filter t : T → Bool) (events : List T)
      → ((e : T) → filter e ≡ true)
      → count (λ e. filter e && t e) events ≡ count t events
  count-all filter t [] all = refl
  count-all filter t (e ∷ events) all = ground (arith, all e, count-all filter t events all)

  pub all_written :
      (accepted : List T) (slots : List (Slot T))
      → Each (λ s. (e : T) → s.plugin.filter e ≡ true) slots
      → ((t : T → Bool)
          → Each
              (λ s. count t (concat s.written) ≡ count (λ x. s.plugin.filter x && t x) accepted)
              slots)
      → Each (λ s. (t : T → Bool) → count t (concat s.written) ≡ count t accepted) slots
  all_written accepted [] all counts = tt
  all_written accepted (s ∷ slots) all counts = (
    (λ t. (counts t).0 ∙ count-all s.plugin.filter t accepted all.0),
    all_written accepted slots all.1 (λ t. (counts t).1),
  )
