-- ===== src/Config/Plugins.antt =====
-- The plugin names that `GetEnabledPlugins` of pkg/config/config.go reads out of
-- STORAGE_ENABLED_PLUGINS.
use extend_game_telemetry_co.Prelude.{
  ◌≡◌, refl, inl, inr, ap, ◌∙◌, ℕ, ◌==◌, Bool, false, ◌&&◌, ◌||◌, List, [], ◌∷◌, Text, is_empty,
  every, is_space, trim_space, is_empty-trim_space, split, join, cons_head, Only, Only-split,
  Only-trim_space, split-join, trim_space_idem, other, Each, Bool-cases, arith, none,
}
use extend_game_telemetry_co.Config.{
  Config, get_enabled_plugins, names_of, trimmed_names, validate_config,
}
use extend_game_telemetry_co.Config.Validity.{validate_config_lem}

-- Between two names.
abbrev pub comma : ℕ
comma = b','

-- A name that the list can hold: not empty, no space around it, no comma.
unfoldable pub IsName : Text → Type 0
IsName name = (is_empty name ≡ false) × (trim_space name ≡ name) × Only (other comma) name

trimmed-IsName :
    (text : Text)
    → Only (other comma) text
    → is_empty (trim_space text) ≡ false
    → IsName (trim_space text)
unfolding IsName
trimmed-IsName text no_comma some_left =
    (some_left, trim_space_idem text, Only-trim_space (other comma) text no_comma)

trimmed_names-IsName :
    (texts : List Text) → Each (Only (other comma)) texts → Each IsName (trimmed_names texts)
unfolding trimmed_names
trimmed_names-IsName [] hs = tt
trimmed_names-IsName (t ∷ texts) hs = elim (Bool-cases (is_empty (trim_space t))) [
  | inl nothing ↦ rw nothing (trimmed_names-IsName texts hs.1)
  | inr something ↦ rw something (trimmed-IsName t hs.0 something, trimmed_names-IsName texts hs.1)
]

-- Whatever the list is, each name that is read from it is not empty, has no comma, and has no
-- space around it.
pub enabled-IsName : (c : Config) → Each IsName (get_enabled_plugins c)
unfolding get_enabled_plugins names_of
enabled-IsName c =
    trimmed_names-IsName (split comma c.storage.enabled_plugins)
      (Only-split comma c.storage.enabled_plugins)

trimmed_names-names : (names : List Text) → Each IsName names → trimmed_names names ≡ names
unfolding trimmed_names IsName
trimmed_names-names [] hs = refl
trimmed_names-names (n ∷ names) hs = ground (arith, trimmed_names-names names hs.1)

IsName-Only : (names : List Text) → Each IsName names → Each (Only (other comma)) names
unfolding IsName
IsName-Only [] hs = tt
IsName-Only (n ∷ names) hs = (hs.0.2, IsName-Only names hs.1)

-- Names that are not empty, have no comma and no space around them, and are written with commas
-- between them, are read back, in order.
pub names_of-join :
    (names : List Text) → Each IsName names → names_of (join (comma ∷ []) names) ≡ names
unfolding names_of trimmed_names split join trim_space
names_of-join [] hs = refl
names_of-join (n ∷ names) hs =
    ap trimmed_names
      (split-join comma n names (IsName-Only (n ∷ names) hs).0 (IsName-Only names hs.1))
    ∙ trimmed_names-names (n ∷ names) hs

-- A comma or a space.
abbrev pub separates : ℕ → Bool
separates c = (c == comma) || is_space c

is_empty-trimmed_names :
    (t : Text) (texts : List Text)
    → is_empty (trimmed_names (t ∷ texts))
      ≡ (is_empty (trim_space t) && is_empty (trimmed_names texts))
unfolding trimmed_names
is_empty-trimmed_names t texts = ground arith

is_empty-cons_head :
    (c : ℕ) (texts : List Text)
    → is_empty (trimmed_names (cons_head c texts)) ≡ (is_space c && is_empty (trimmed_names texts))
unfolding cons_head trimmed_names
is_empty-cons_head c [] =
    ground (arith, is_empty-trimmed_names (c ∷ []) [], is_empty-trim_space (c ∷ []))
is_empty-cons_head c (t ∷ texts) = grind (
  arith,
  is_empty-trimmed_names (c ∷ t) texts,
  is_empty-trimmed_names t texts,
  is_empty-trim_space (c ∷ t),
  is_empty-trim_space t,
)

is_empty-parts : (s : Text) → is_empty (trimmed_names (split comma s)) ≡ every separates s
unfolding split trimmed_names trim_space
is_empty-parts [] = refl
is_empty-parts (c ∷ s) = ground (
  arith,
  is_empty-parts s,
  is_empty-trimmed_names [] (split comma s),
  is_empty-cons_head c (split comma s),
)

-- `GetEnabledPlugins` is empty exactly if the list has commas and spaces only.
pub no_plugins_iff :
    (c : Config) → is_empty (get_enabled_plugins c) ≡ every separates c.storage.enabled_plugins
unfolding get_enabled_plugins names_of
no_plugins_iff c = is_empty-parts c.storage.enabled_plugins

-- The configuration with its plugin list replaced.
abbrev pub with_list : Config → Text → Config
with_list c list = record c { storage = record c.storage { enabled_plugins = list } }

-- A valid configuration stays valid when its plugin list becomes a single comma, and then enables
-- no plugin: the check for "at least one storage plugin" does not see it.
comma_passes :
    (c : Config)
    → validate_config c ≡ none
    → (validate_config (with_list c (comma ∷ [])) ≡ none)
      × (get_enabled_plugins (with_list c (comma ∷ [])) ≡ [])
unfolding get_enabled_plugins names_of trimmed_names split trim_space is_space
comma_passes c valid = (
  let v = (validate_config_lem c).0 valid in
      (validate_config_lem (with_list c (comma ∷ []))).1 (record {
        grpc_port = v.grpc_port;
        http_port = v.http_port;
        base_path = v.base_path;
        workers = v.workers;
        channel_buffer = v.channel_buffer;
        deduplication = v.deduplication;
        plugins = refl;
      }),
  refl,
)
