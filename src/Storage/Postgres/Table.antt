-- ===== src/Storage/Postgres/Table.antt =====
-- The table and the indexes of the plugins of pkg/storage/plugins/postgres.
use extend_game_telemetry_co.Prelude.{ℕ, zero, suc, [], ◌∷◌, ◌++◌, Text, codes}

indent : ℕ → Text
indent zero = []
indent (suc tabs) = b'\t' ∷ indent tabs

-- A line of a query behind a line break and tabs.
unfoldable pub line : ℕ → Text → Text
unfolding indent
line tabs text = b'\n' ∷ (indent tabs ++ text)

-- The query of `createTableIfNotExists`.
unfoldable pub create_table_query : Text → Text
unfolding line
create_table_query table =
    line 2 (codes "CREATE TABLE IF NOT EXISTS " ++ table ++ codes " (")
    ++ line 3 (codes "id               BIGSERIAL PRIMARY KEY,")
    ++ line 3 (codes "namespace        VARCHAR(255) NOT NULL,")
    ++ line 3 (codes "user_id          VARCHAR(255) NOT NULL,")
    ++ line 3 (codes "event_id         VARCHAR(255) NOT NULL,")
    ++ line 3 (codes "timestamp        VARCHAR(255),")
    ++ line 3 (codes "server_timestamp BIGINT NOT NULL,")
    ++ line 3 (codes "payload          JSONB NOT NULL,")
    ++ line 3 (codes "created_at       TIMESTAMP DEFAULT CURRENT_TIMESTAMP")
    ++ line 2 (codes ");")
    ++ line 0 []
    ++ line 2 (
        codes "CREATE INDEX IF NOT EXISTS idx_"
        ++ table
        ++ codes "_namespace_ts ON "
        ++ table
        ++ codes "(namespace, server_timestamp DESC);")
    ++ line 2 (
        codes "CREATE INDEX IF NOT EXISTS idx_"
        ++ table
        ++ codes "_user_id      ON "
        ++ table
        ++ codes "(user_id);")
    ++ line 2 (
        codes "CREATE INDEX IF NOT EXISTS idx_"
        ++ table
        ++ codes "_payload      ON "
        ++ table
        ++ codes " USING GIN(payload);")
    ++ line 1 []
