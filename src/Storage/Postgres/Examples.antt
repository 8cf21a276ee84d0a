-- ===== src/Storage/Postgres/Examples.antt =====
-- A database that answers, one that refuses, and concrete batches.
use extend_game_telemetry_co.Prelude.{
  count, ◌/◌, ◌≡◌, refl, List, [], ◌∷◌, Option, none, some, Text, codes, pos, length, get_elem?,
  text_eq,
}
use extend_game_telemetry_co.Events.{Value, str, null, object, Fields, field, end, get}
use extend_game_telemetry_co.Storage.{prepare_all, cons_some}
use extend_game_telemetry_co.Storage.Postgres.{
  PluginConfig, Database, Row, insert_failed, write_batch, build, transform, row_of, insert_values,
  write_values,
}
use extend_game_telemetry_co.Storage.Postgres.Placeholders.{
  arguments_line_up, groups, encodable, batch_cells,
}
use extend_game_telemetry_co.Storage.Postgres.Writes.{
  NothingWritten, failed_write, successful_write, one_insert, insert_text,
}

abbrev cfg : PluginConfig
cfg = record { dsn = codes "postgres://db"; table = codes "t"; workers = pos 8 }

abbrev answering : Database
answering = record {
  open_error = none;
  ping_error = none;
  table_error = none;
  begin_error = none;
  exec_error = λ query args. none;
  commit_error = none;
  rows_affected = λ query args. pos (length args / 6);
}

abbrev refusing : Database
refusing = record answering { exec_error = λ query args. some (codes "full") }

-- Objects cannot be encoded here, everything else is written as {}.
abbrev marshal : Value → Option Text
marshal (object fields) = none
marshal _ = some (codes "{}")

abbrev plain : Text → Fields
plain user = field (codes "user_id") (str user) end

abbrev nested : Text → Fields
nested user = field (codes "payload") (object end) (plain user)

abbrev to_document : Text → Fields
to_document [] = nested []
to_document (c ∷ user) = plain (c ∷ user)

-- The second event cannot be converted.
abbrev batch : List Text
batch = codes "ann" ∷ codes "" ∷ codes "bob" ∷ []

abbrev bob : Row
bob = record {
  namespace = null;
  user_id = str (codes "bob");
  event_id = null;
  timestamp = null;
  server_timestamp = null;
  payload = str (codes "{}");
}

second_row : get_elem? (prepare_all (transform marshal to_document) batch) 1 ≡ some bob
unfolding prepare_all cons_some transform row_of get text_eq
second_row = refl

refused :
    (write_batch marshal to_document refusing cfg batch).1.1 ≡ some (insert_failed (codes "full"))
unfolding write_batch build transform row_of get write_values insert_values text_eq
refused = refl

arguments_line_up_example : build marshal to_document batch 1 ≡ (
  groups 1 (count (encodable marshal to_document) batch),
  batch_cells marshal to_document batch,
)
arguments_line_up_example = arguments_line_up marshal to_document batch

failed_write_example :
    NothingWritten
      (write_batch marshal to_document refusing cfg batch)
      (insert_failed (codes "full"))
failed_write_example =
    failed_write marshal to_document refusing cfg batch (insert_failed (codes "full")) refused

answered : (write_batch marshal to_document answering cfg batch).1.1 ≡ none
unfolding write_batch build transform row_of get write_values insert_values text_eq
answered = refl

successful_write_example :
    write_batch marshal to_document answering cfg batch
    ≡ one_insert answering
        (insert_text cfg.table (count (encodable marshal to_document) batch))
        (batch_cells marshal to_document batch)
successful_write_example =
    successful_write marshal to_document answering cfg (codes "ann") (codes "" ∷ codes "bob" ∷ [])
      answered
