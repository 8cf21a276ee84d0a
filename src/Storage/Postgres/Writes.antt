-- ===== src/Storage/Postgres/Writes.antt =====
-- How `WriteBatch` of pkg/storage/plugins/postgres ends.
use extend_game_telemetry_co.Prelude.{
  ℕ, codes, join, count, append_assoc, suc, ◌+◌, ◌≡◌, ◌≢◌, refl, List, [], ◌∷◌, ◌++◌, Option, none,
  some, Text, ℤ, pos, arith, ap, sym, ◌∙◌, length, ◌⊎◌, inl, inr, Option-cases,
}
use extend_game_telemetry_co.Events.{Value, Fields}
use extend_game_telemetry_co.Storage.{prepare_all, cons_some}
use extend_game_telemetry_co.Storage.Postgres.{
  PluginConfig, Database, Call, begin_tx, commit_tx, rollback_tx, exec_query, Error, commit_failed,
  write_batch, write_values, insert_values, build, transform, Values, Row, row_args, add_row,
  query_of,
}
use extend_game_telemetry_co.Storage.Postgres.Placeholders.{
  length-build, insert_columns, groups, batch_cells, encodable, arguments_line_up,
}

-- How many commits there are among the calls.
abbrev pub commits : List Call → ℕ
commits [] = 0
commits (commit_tx ∷ calls) = suc (commits calls)
commits (_ ∷ calls) = commits calls

-- The last call.
abbrev pub last_call : List Call → Option Call
last_call [] = none
last_call (c ∷ []) = some c
last_call (c ∷ d ∷ calls) = last_call (d ∷ calls)

-- What `WriteBatch` leaves: its calls, and the count and the error that it returns.
abbrev pub Ending : Type 0
Ending = List Call × (ℤ × Option Error)

-- No event is counted, and none is committed, unless the commit reported the error.
abbrev pub NothingWritten : Ending → Error → Type 0
NothingWritten ending error =
    (ending.1.0 ≡ pos 0) × ((commits ending.0 ≡ 0) ⊎ ((e : Text) × (error ≡ commit_failed e)))

insert_values-NothingWritten :
    (database : Database) (query : Text) (args : List Value) (error : Error)
    → (insert_values database query args).1.1 ≡ some error
    → NothingWritten (insert_values database query args) error
unfolding insert_values
insert_values-NothingWritten database query args error h =
    elim (Option-cases (database.exec_error query args)) [
      | inl executed ↦ elim (Option-cases database.commit_error) [
        | inl committed ↦ ground (arith, executed, committed)
        | inr (e, failed) ↦
            (ground (arith, executed, failed), inr (e, ground (arith, executed, failed)))
      ]
      | inr (e, failed) ↦ (ground (arith, failed), inl (ground (arith, failed)))
    ]

write_values-NothingWritten :
    (database : Database) (cfg : PluginConfig) (values : Values) (error : Error)
    → (write_values database cfg values).1.1 ≡ some error
    → NothingWritten (write_values database cfg values) error
unfolding write_values
write_values-NothingWritten database cfg ([], args) error h = (refl, inl refl)
write_values-NothingWritten database cfg (s ∷ strings, args) error h =
    insert_values-NothingWritten database (query_of cfg.table (s ∷ strings)) args error h

insert_values-ends :
    (database : Database) (query : Text) (args : List Value)
    → last_call (insert_values database query args).0 ≡ some rollback_tx
unfolding insert_values
insert_values-ends database query args = ground arith

write_values-ends :
    (database : Database) (cfg : PluginConfig) (values : Values)
    → last_call (write_values database cfg values).0 ≡ some rollback_tx
unfolding write_values
write_values-ends database cfg ([], args) = refl
write_values-ends database cfg (s ∷ strings, args) =
    insert_values-ends database (query_of cfg.table (s ∷ strings)) args

module _ (marshal : Value → Option Text) {E : Type 0} (to_document : E → Fields) where
  -- A batch that ends with an error counts no event, and makes no commit, unless it is the commit
  -- itself that reports the error.
  pub failed_write :
      (database : Database) (cfg : PluginConfig) (events : List E) (error : Error)
      → (write_batch marshal to_document database cfg events).1.1 ≡ some error
      → NothingWritten (write_batch marshal to_document database cfg events) error
  unfolding write_batch
  failed_write database cfg [] error h = ground arith
  failed_write database cfg (e ∷ events) error h = elim (Option-cases database.begin_error) [
    | inl begun ↦ ground (
      arith,
      begun,
      write_values-NothingWritten database cfg (build marshal to_document (e ∷ events) 1) error,
    )
    | inr (reason, failed) ↦ ground (arith, failed)
  ]

  -- For a batch that is not empty, when the transaction begins without an error, it is ended: the
  -- last call is the deferred rollback.
  pub transaction_ends :
      (database : Database) (cfg : PluginConfig) (e : E) (events : List E)
      → database.begin_error ≡ none
      → last_call (write_batch marshal to_document database cfg (e ∷ events)).0 ≡ some rollback_tx
  unfolding write_batch
  transaction_ends database cfg e events begun =
      rw begun (write_values-ends database cfg (build marshal to_document (e ∷ events) 1))

successful_values :
    (database : Database) (cfg : PluginConfig) (values : Values) (args : List Value)
    → values.1 ≡ args
    → values.0 ≢ []
    → ((query : Text) (args' : List Value) → database.exec_error query args' ≡ none)
    → database.commit_error ≡ none
    → (query : Text) × (write_values database cfg values ≡ (
      begin_tx ∷ exec_query query args ∷ commit_tx ∷ rollback_tx ∷ [],
      (database.rows_affected query args, none),
    ))
unfolding write_values insert_values
successful_values database cfg ([], made) args e some_row executed committed =
    elim (some_row refl) [ ]
successful_values database cfg (s ∷ strings, made) args e some_row executed committed = (
  query_of cfg.table (s ∷ strings),
  rw e (rw (insert_values, executed (query_of cfg.table (s ∷ strings)) args) (rw committed refl)),
)

pub length-nil : {A : Type 0} (xs : List A) → length xs ≡ 0 → xs ≡ []
length-nil [] h = refl
length-nil (x ∷ xs) h = ground arith

-- The arguments of rows, one row after the other.
abbrev pub arguments : List Row → List Value
arguments [] = []
arguments (row ∷ rows) = row_args row ++ arguments rows

module _ (marshal : Value → Option Text) {E : Type 0} (to_document : E → Fields) where
  pub build-arguments :
      (events : List E) (arg_pos : ℕ)
      → (build marshal to_document events arg_pos).1
        ≡ arguments (prepare_all (transform marshal to_document) events)
  unfolding build add_row prepare_all cons_some
  build-arguments [] arg_pos = refl
  build-arguments (e ∷ events) arg_pos = elim (Option-cases (transform marshal to_document e)) [
    | inl failed ↦ rw failed (build-arguments events arg_pos)
    | inr (row, made) ↦ rw made (ap (λ a. row_args row ++ a) (build-arguments events (arg_pos + 6)))
  ]

  -- On a database that reports no error, the arguments of the statement are those of the rows.
  pub clean_write :
      (database : Database) (cfg : PluginConfig) (e : E) (events : List E)
      → prepare_all (transform marshal to_document) (e ∷ events) ≢ []
      → database.begin_error ≡ none
      → ((query : Text) (args : List Value) → database.exec_error query args ≡ none)
      → database.commit_error ≡ none
      → (query : Text) × (write_batch marshal to_document database cfg (e ∷ events) ≡ (
        begin_tx
            ∷ exec_query query
                (arguments (prepare_all (transform marshal to_document) (e ∷ events)))
            ∷ commit_tx
            ∷ rollback_tx
            ∷ [],
        (
          database.rows_affected query
              (arguments (prepare_all (transform marshal to_document) (e ∷ events))),
          none,
        ),
      ))
  unfolding write_batch
  clean_write database cfg e events some_row begun executed committed =
      let values = build marshal to_document (e ∷ events) 1 in
      let rows = prepare_all (transform marshal to_document) (e ∷ events) in
      let strings_too : values.0 ≢ [] = λ none_made. some_row (
        length-nil rows
          (sym (length-build marshal to_document (e ∷ events)).0 ∙ ap length none_made)) in
      rw begun (
        successful_values database cfg values (arguments rows) (build-arguments (e ∷ events) 1)
          strings_too executed committed)

-- How an INSERT of rows into a table begins, with the columns that it fills.
abbrev pub insert_start : Text → Text
insert_start table =
    codes "INSERT INTO "
    ++ table
    ++ codes " ("
    ++ join (codes ", ") insert_columns
    ++ codes ") VALUES "

-- The text of an INSERT of a number of rows.
abbrev pub insert_text : Text → ℕ → Text
insert_text table rows = insert_start table ++ join (codes ",") (groups 1 rows)

query_of-text : (table : Text) (rows : ℕ) → query_of table (groups 1 rows) ≡ insert_text table rows
unfolding query_of join
query_of-text table rows = simp append_assoc

-- What a batch of so many rows does to the database, and what it returns, if nothing fails.
abbrev pub one_insert : Database → Text → List Value → Ending
one_insert database query args = (
  begin_tx ∷ exec_query query args ∷ commit_tx ∷ rollback_tx ∷ [],
  (database.rows_affected query args, none),
)

insert_values-ok :
    (database : Database) (query : Text) (args : List Value)
    → (insert_values database query args).1.1 ≡ none
    → insert_values database query args ≡ one_insert database query args
unfolding insert_values
insert_values-ok database query args ok = elim (Option-cases (database.exec_error query args)) [
  | inl executed ↦ elim (Option-cases database.commit_error) [
    | inl committed ↦ rw (insert_values, executed) (rw committed refl)
    | inr (e, failed) ↦ ground (arith, executed, failed, ok)
  ]
  | inr (e, failed) ↦ ground (arith, failed, ok)
]

write_values-ok :
    (database : Database) (cfg : PluginConfig) (values : Values)
    → (write_values database cfg values).1.1 ≡ none
    → write_values database cfg values ≡ one_insert database (query_of cfg.table values.0) values.1
unfolding write_values
write_values-ok database cfg ([], args) ok = cc
write_values-ok database cfg (s ∷ strings, args) ok =
    insert_values-ok database (query_of cfg.table (s ∷ strings)) args ok

module _ (marshal : Value → Option Text) {E : Type 0} (to_document : E → Fields) where
  begun_write :
      (database : Database) (cfg : PluginConfig) (e : E) (events : List E)
      → (write_batch marshal to_document database cfg (e ∷ events)).1.1 ≡ none
      → write_batch marshal to_document database cfg (e ∷ events)
        ≡ write_values database cfg (build marshal to_document (e ∷ events) 1)
  unfolding write_batch
  begun_write database cfg e events ok = elim (Option-cases database.begin_error) [
    | inl begun ↦ ground (arith, begun)
    | inr (error, failed) ↦ ground (arith, failed, ok)
  ]

  -- A batch that is not empty and ends without an error was one INSERT. Whatever the database
  -- answers: when `WriteBatch` returns no error, it began a transaction, executed one statement and
  -- committed it, and the deferred rollback came last. The statement inserts into the table's columns
  -- namespace, user_id, event_id, timestamp, server_timestamp and payload one row of placeholders for
  -- each event whose payload can be encoded, its arguments are these events' values for these columns
  -- in order, and the returned count is what the database says.
  pub successful_write :
      (database : Database) (cfg : PluginConfig) (e : E) (events : List E)
      → (write_batch marshal to_document database cfg (e ∷ events)).1.1 ≡ none
      → write_batch marshal to_document database cfg (e ∷ events)
        ≡ one_insert database
            (insert_text cfg.table (count (encodable marshal to_document) (e ∷ events)))
            (batch_cells marshal to_document (e ∷ events))
  successful_write database cfg e events ok =
      let values = build marshal to_document (e ∷ events) 1 in
      let built = arguments_line_up marshal to_document (e ∷ events) in
      let begun = begun_write database cfg e events ok in
      begun
      ∙ (write_values-ok database cfg values (ap (λ ending. ending.1.1) (sym begun) ∙ ok)
          ∙ (ap (λ v. one_insert database (query_of cfg.table v.0) v.1) built
              ∙ ap
                  (λ query.
                    one_insert database query (batch_cells marshal to_document (e ∷ events)))
                  (query_of-text cfg.table (count (encodable marshal to_document) (e ∷ events)))))
