-- ===== src/Storage/Postgres/Commits.antt =====
-- What reaches the database through the calls of the plugins of pkg/storage/plugins/postgres.
use extend_game_telemetry_co.Prelude.{
  ◌+◌, ◌≡◌, refl, ap, ◌∙◌, sym, codes, join, starts_with, starts_with-append, Bool, false, List, [],
  ◌∷◌, ◌++◌, Option, none, some, Text, arith, inl, inr, List-cases, Option-cases, append_assoc,
  length, count, if◌then◌else◌,
}
use extend_game_telemetry_co.Events.{Value, Fields}
use extend_game_telemetry_co.Storage.{prepare_all, cons_some}
use extend_game_telemetry_co.Storage.Postgres.{
  PluginConfig, Database, Call, begin_tx, commit_tx, rollback_tx, exec_query, open_database,
  set_max_open_conns, set_max_idle_conns, ping, close_database, create_table, write_batch,
  write_values, build, transform, Row, Values,
}
use extend_game_telemetry_co.Storage.Postgres.Placeholders.{
  length-build, groups, encodable, batch_cells, arguments_line_up,
}
use extend_game_telemetry_co.Storage.Postgres.Writes.{
  arguments, length-nil, clean_write, insert_start, build-arguments, successful_write,
}

-- The arguments of the executed INSERTs into the table that are committed, where `pending` are those
-- of the open transaction.
unfoldable pub committed : Text → List Value → List Call → List Value
committed table pending [] = []
committed table pending (begin_tx ∷ calls) = committed table [] calls
committed table pending (exec_query query args ∷ calls) =
    committed table (if starts_with (insert_start table) query then pending ++ args else pending)
      calls
committed table pending (commit_tx ∷ calls) = pending ++ committed table [] calls
committed table pending (rollback_tx ∷ calls) = committed table [] calls
committed table pending (open_database dsn ∷ calls) = committed table pending calls
committed table pending (set_max_open_conns n ∷ calls) = committed table pending calls
committed table pending (set_max_idle_conns n ∷ calls) = committed table pending calls
committed table pending (ping ∷ calls) = committed table pending calls
committed table pending (close_database ∷ calls) = committed table pending calls
committed table pending (create_table query ∷ calls) = committed table pending calls

-- No transaction fails.
abbrev pub NoErrors : Database → Type 0
NoErrors database =
    (database.begin_error ≡ none)
    × ((query : Text) (args : List Value) → database.exec_error query args ≡ none)
    × (database.commit_error ≡ none)

arguments-append : (xs ys : List Row) → arguments (xs ++ ys) ≡ arguments xs ++ arguments ys
arguments-append [] ys = refl
arguments-append (x ∷ xs) ys = simp (arguments-append xs ys, append_assoc)

pub prepare_all-append :
    {E R : Type 0} (prepare : E → Option R) (xs ys : List E)
    → prepare_all prepare (xs ++ ys) ≡ prepare_all prepare xs ++ prepare_all prepare ys
unfolding prepare_all cons_some
prepare_all-append prepare [] ys = refl
prepare_all-append prepare (x ∷ xs) ys = elim (Option-cases (prepare x)) [
  | inl failed ↦ rw failed (prepare_all-append prepare xs ys)
  | inr (row, made) ↦ rw made (ap (λ rest. row ∷ rest) (prepare_all-append prepare xs ys))
]

pub arguments-prepare_all :
    {E : Type 0} (prepare : E → Option Row) (xs ys : List E)
    → arguments (prepare_all prepare (xs ++ ys))
      ≡ arguments (prepare_all prepare xs) ++ arguments (prepare_all prepare ys)
arguments-prepare_all prepare xs ys =
    ap arguments (prepare_all-append prepare xs ys)
    ∙ arguments-append (prepare_all prepare xs) (prepare_all prepare ys)

abbrev pub passes : {R : Type 0} → (R → Bool) → Option R → Bool
passes t none = false
passes t (some row) = t row

pub count-prepare_all :
    {E R : Type 0} (prepare : E → Option R) (t : R → Bool) (xs : List E)
    → count t (prepare_all prepare xs) ≡ count (λ e. passes t (prepare e)) xs
unfolding prepare_all cons_some
count-prepare_all prepare t [] = refl
count-prepare_all prepare t (x ∷ xs) = elim (Option-cases (prepare x)) [
  | inl failed ↦ rw failed (omega (arith, count-prepare_all prepare t xs))
  | inr (row, made) ↦
      rw made (ap (λ n. (if t row then 1 else 0) + n) (count-prepare_all prepare t xs))
]

no_values :
    (database : Database) (cfg : PluginConfig) (values : Values)
    → values.0 ≡ []
    → (write_values database cfg values).0 ≡ begin_tx ∷ rollback_tx ∷ []
unfolding write_values
no_values database cfg ([], args) none_made = refl
no_values database cfg (s ∷ strings, args) none_made = ground arith

module _ (marshal : Value → Option Text) {E : Type 0} (to_document : E → Fields) where
  -- A batch of which no event can be converted is rolled back.
  nothing_written :
      (database : Database) (cfg : PluginConfig) (e : E) (events : List E)
      → database.begin_error ≡ none
      → prepare_all (transform marshal to_document) (e ∷ events) ≡ []
      → (write_batch marshal to_document database cfg (e ∷ events)).0 ≡ begin_tx ∷ rollback_tx ∷ []
  unfolding write_batch
  nothing_written database cfg e events begun no_rows = rw begun (
      no_values database cfg (build marshal to_document (e ∷ events) 1) (
        length-nil (build marshal to_document (e ∷ events) 1).0
          ((length-build marshal to_document (e ∷ events)).0 ∙ ap length no_rows)))

  batch_cells-arguments :
      (events : List E)
      → batch_cells marshal to_document events
        ≡ arguments (prepare_all (transform marshal to_document) events)
  batch_cells-arguments events =
      ap (λ values. values.1) (sym (arguments_line_up marshal to_document events))
      ∙ build-arguments marshal to_document events 1

  -- A batch commits the rows of its convertible events, and leaves no transaction open.
  pub committed-write_batch :
      (database : Database) (cfg : PluginConfig) (events : List E) (later : List Call)
      → NoErrors database
      → committed cfg.table [] ((write_batch marshal to_document database cfg events).0 ++ later)
        ≡ arguments (prepare_all (transform marshal to_document) events)
          ++ committed cfg.table [] later
  unfolding committed write_batch prepare_all
  committed-write_batch database cfg [] later fine = refl
  committed-write_batch database cfg (e ∷ events) later fine =
      elim (List-cases (prepare_all (transform marshal to_document) (e ∷ events))) [
        | inl no_rows ↦ rw (nothing_written database cfg e events fine.0 no_rows, no_rows) refl
        | inr (row, rows, made) ↦
            let (query, clean) =
              clean_write marshal to_document database cfg e events
                (λ no_rows. ground (arith, made, no_rows)) fine.0 fine.1 fine.2 in
            let written =
              successful_write marshal to_document database cfg e events
                (ap (λ ending. ending.1.1) clean) in
            ap (λ ending. committed cfg.table [] (ending.0 ++ later)) written
            ∙ rw
                (starts_with-append (insert_start cfg.table) (
                  join (codes ",") (groups 1 (count (encodable marshal to_document) (e ∷ events)))))
                (ap (λ args. args ++ committed cfg.table [] later)
                  (batch_cells-arguments (e ∷ events)))
      ]
