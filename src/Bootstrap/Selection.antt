-- ===== src/Bootstrap/Selection.antt =====
-- What internal/bootstrap builds from a configuration.
use extend_game_telemetry_co.Prelude.{
  ◌≡◌, ◌≢◌, ◌↔◌, refl, ap, ◌∙◌, Bool, true, false, ◌||◌, List, [], ◌∷◌, Option, none, some, Text,
  codes, text_eq, text_eq_iff, arith, map, keep, if◌then◌else◌, ◌⊎◌, inl, inr, Option-cases,
}
use extend_game_telemetry_co.Config
use extend_game_telemetry_co.Config.{get_enabled_plugins, StorageConfig, DeduplicationConfig}
use extend_game_telemetry_co.Bootstrap.{
  Backend, name_of, plugins_of, StoragePlugins, cons_plugins, or_noop, with_fallback, add_plugins,
  add_known, load_plugins, initialize_storage_plugins, noop_kind, build_deduplicator,
}

-- The names in the `switch`.
abbrev pub is_known : Text → Bool
is_known name =
    text_eq name (codes "postgres")
    || text_eq name (codes "s3")
    || text_eq name (codes "kafka")
    || text_eq name (codes "mongodb")
    || text_eq name (codes "noop")

-- What the switch gives for a name.
abbrev Named : Text → Option (Backend × Backend) → Type 0
Named name none = is_known name ≡ false
Named name (some both) = (is_known name ≡ true) × (name_of both.0 ≡ name) × (name_of both.1 ≡ name)

plugins_of-Named : (storage : StorageConfig) (name : Text) → Named name (plugins_of storage name)
unfolding plugins_of name_of
plugins_of-Named storage name = ground (
  arith,
  text_eq_iff name (codes "postgres"),
  text_eq_iff name (codes "s3"),
  text_eq_iff name (codes "kafka"),
  text_eq_iff name (codes "mongodb"),
  text_eq_iff name (codes "noop"),
)

-- The plugins of both types have these names.
abbrev Chosen : List Text → Text ⊎ StoragePlugins → Type 0
Chosen names (inl error) = Unit
Chosen names (inr plugins) =
    (map name_of plugins.stat_item_updated ≡ names)
    × (map name_of plugins.oauth_token_generated ≡ names)

-- The names of the no-op plugin where there is no other.
abbrev pub or_noop_name : List Text → List Text
or_noop_name [] = codes "noop" ∷ []
or_noop_name (n ∷ names) = n ∷ names

map-or_noop :
    (plugins : List Backend) → map name_of (or_noop plugins) ≡ or_noop_name (map name_of plugins)
unfolding or_noop name_of
map-or_noop [] = refl
map-or_noop (p ∷ plugins) = refl

cons_plugins-Chosen :
    (both : Backend × Backend) (name : Text) (names : List Text) (rest : Text ⊎ StoragePlugins)
    → name_of both.0 ≡ name
    → name_of both.1 ≡ name
    → Chosen names rest
    → Chosen (name ∷ names) (cons_plugins both rest)
unfolding cons_plugins
cons_plugins-Chosen both name names (inl error) first second h = tt
cons_plugins-Chosen both name names (inr plugins) first second h =
    (cc (first, h.0), cc (second, h.1))

with_fallback-Chosen :
    (names : List Text) (loaded : Text ⊎ StoragePlugins)
    → Chosen names loaded
    → Chosen (or_noop_name names) (with_fallback loaded)
unfolding with_fallback
with_fallback-Chosen names (inl error) h = tt
with_fallback-Chosen names (inr plugins) h = (
  map-or_noop plugins.stat_item_updated ∙ ap or_noop_name h.0,
  map-or_noop plugins.oauth_token_generated ∙ ap or_noop_name h.1,
)

module _ (init_stat init_token : Backend → Option Text) where
  add_known-Chosen :
      (o : Option (Backend × Backend)) (name : Text) (names : List Text)
      (rest : Text ⊎ StoragePlugins)
      → Named name o
      → Chosen names rest
      → Chosen
          (if is_known name then name ∷ names else names)
          (add_known init_stat init_token o rest)
  unfolding add_known add_plugins
  add_known-Chosen none name names rest unknown h = rw unknown h
  add_known-Chosen (some both) name names rest named h =
      rw named.0 (elim (Option-cases (init_stat both.0)) [
        | inr (error, failed) ↦ rw (add_plugins, failed) tt
        | inl done ↦ elim (Option-cases (init_token both.1)) [
          | inr (error, failed) ↦ rw (add_plugins, done, failed) tt
          | inl done' ↦
              rw (add_plugins, done, done')
                (cons_plugins-Chosen both name names rest named.1 named.2 h)
        ]
      ])

  load_plugins-Chosen :
      (storage : StorageConfig) (names : List Text)
      → Chosen (keep is_known names) (load_plugins init_stat init_token storage names)
  unfolding load_plugins
  load_plugins-Chosen storage [] = (refl, refl)
  load_plugins-Chosen storage (name ∷ names) =
      add_known-Chosen (plugins_of storage name) name (keep is_known names)
        (load_plugins init_stat init_token storage names) (plugins_of-Named storage name)
        (load_plugins-Chosen storage names)

  -- When the start succeeds, both event types have the plugins whose known names stand in the list
  -- of enabled plugins, in that order, unknown names left out, or the no-op plugin alone when no
  -- name is known.
  pub chosen_plugins :
      (c : Config.Config) (plugins : StoragePlugins)
      → initialize_storage_plugins init_stat init_token c ≡ inr plugins
      → (map name_of plugins.stat_item_updated
          ≡ or_noop_name (keep is_known (get_enabled_plugins c)))
        × (map name_of plugins.oauth_token_generated
            ≡ or_noop_name (keep is_known (get_enabled_plugins c)))
  unfolding initialize_storage_plugins
  chosen_plugins c plugins started = rw started at (
      with_fallback-Chosen (keep is_known (get_enabled_plugins c))
        (load_plugins init_stat init_token c.storage (get_enabled_plugins c))
        (load_plugins-Chosen c.storage (get_enabled_plugins c)))

-- Events are not deduplicated exactly if deduplication is off or of another type than "memory" and
-- "redis".
pub no_deduplication_iff :
    (d : DeduplicationConfig)
    → (build_deduplicator d ≡ noop_kind)
      ↔ ((d.enabled ≡ false) ⊎ ((d.type ≢ codes "memory") × (d.type ≢ codes "redis")))
unfolding build_deduplicator
no_deduplication_iff d =
    grind (arith, text_eq_iff d.type (codes "memory"), text_eq_iff d.type (codes "redis"))
