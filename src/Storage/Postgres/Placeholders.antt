-- ===== src/Storage/Postgres/Placeholders.antt =====
-- The placeholders and the arguments that `WriteBatch` of pkg/storage/plugins/postgres builds.
use extend_game_telemetry_co.Prelude.{
  ℕ, zero, suc, ◌∙◌, ap, ◌+◌, ◌*◌, ◌≡◌, refl, List, [], ◌∷◌, ◌++◌, Option, none, some, Text, length,
  arith, map, sym, if◌then◌else◌, append_assoc, count, join, decimal, codes, Bool, true, false, inl,
  inr, Option-cases,
}
use extend_game_telemetry_co.Events.{Value, Fields, get, str}
use extend_game_telemetry_co.Storage.{prepare_all, cons_some}
use extend_game_telemetry_co.Storage.Postgres.{
  row_args, row_of, placeholders, transform, build, add_row, Values,
}

-- The columns of the table that a document fills, and those of the INSERT.
abbrev pub document_columns : List Text
document_columns =
    codes "namespace"
    ∷ codes "user_id"
    ∷ codes "event_id"
    ∷ codes "timestamp"
    ∷ codes "server_timestamp"
    ∷ []

abbrev pub insert_columns : List Text
insert_columns = document_columns ++ codes "payload" ∷ []

-- The parenthesis with $n, …, $(n + 5).
abbrev pub group : ℕ → Text
group n =
    codes "("
    ++ join (codes ",") (map (λ i. codes "$" ++ decimal (n + i)) (0 ∷ 1 ∷ 2 ∷ 3 ∷ 4 ∷ 5 ∷ []))
    ++ codes ")"

-- As many parentheses, with the numbers going on.
abbrev pub groups : ℕ → ℕ → List Text
groups n zero = []
groups n (suc k) = group n ∷ groups (n + 6) k

placeholders-group : (n : ℕ) → placeholders n ≡ group n
unfolding placeholders join
placeholders-group n = let none_added : n + 0 ≡ n = omega arith in rw none_added (simp append_assoc)

-- The arguments of a document with the encoded payload: one for each column of the INSERT.
abbrev pub cells : Fields → Text → List Value
cells doc json = map (λ name. get name doc) document_columns ++ str json ∷ []

-- The arguments of an event with its encoded payload, if there is one.
abbrev pub cells_of : Fields → Option Text → List Value
cells_of doc none = []
cells_of doc (some json) = cells doc json

abbrev pub is_encoded : Option Text → Bool
is_encoded none = false
is_encoded (some json) = true

add_row-groups :
    (doc : Fields) (o : Option Text) (n : ℕ) (rest : ℕ → Values) (k : ℕ) (args : List Value)
    → ((m : ℕ) → rest m ≡ (groups m k, args))
    → add_row n (row_of doc o) rest
      ≡ (groups n ((if is_encoded o then 1 else 0) + k), cells_of doc o ++ args)
unfolding add_row row_args row_of
add_row-groups doc none n rest k args same =
    let none_added : 0 + k ≡ k = omega arith in
    rest_is (same n) (ap (λ m. groups n m) (sym none_added))
  where
    rest_is : {x : Values} {y z : List Text} → x ≡ (y, args) → y ≡ z → x ≡ (z, args)
    rest_is e f = e ∙ ap (λ y. (y, args)) f
add_row-groups doc (some json) n rest k args same =
    let one_more : suc k ≡ 1 + k = omega arith in
    ap (λ r. (placeholders n ∷ r.0, cells doc json ++ r.1)) (same (n + 6))
    ∙ (ap (λ p. (p ∷ groups (n + 6) k, cells doc json ++ args)) (placeholders-group n)
        ∙ ap (λ m. (groups n m, cells doc json ++ args)) one_more)

module _ (marshal : Value → Option Text) {E : Type 0} (to_document : E → Fields) where
  length-build_from :
      (events : List E) (arg_pos : ℕ)
      → (length (build marshal to_document events arg_pos).0
          ≡ length (prepare_all (transform marshal to_document) events))
        × (length (build marshal to_document events arg_pos).1
            ≡ length (prepare_all (transform marshal to_document) events) * 6)
  unfolding build add_row row_args prepare_all cons_some
  length-build_from [] arg_pos = (refl, refl)
  length-build_from (e ∷ events) arg_pos = elim (Option-cases (transform marshal to_document e)) [
    | inl failed ↦ rw failed (length-build_from events arg_pos)
    | inr (row, made) ↦ rw made (
      omega (arith, length-build_from events (arg_pos + 6)),
      omega (arith, length-build_from events (arg_pos + 6)),
    )
  ]

  -- Each event that `transform` can convert has one parenthesis and six arguments, the others have
  -- none.
  pub length-build :
      (events : List E)
      → (length (build marshal to_document events 1).0
          ≡ length (prepare_all (transform marshal to_document) events))
        × (length (build marshal to_document events 1).1
            ≡ length (prepare_all (transform marshal to_document) events) * 6)
  length-build events = length-build_from events 1

  -- The arguments of a batch: those of each event whose payload can be encoded, in order.
  abbrev pub batch_cells : List E → List Value
  batch_cells [] = []
  batch_cells (e ∷ events) =
      cells_of (to_document e) (marshal (get (codes "payload") (to_document e)))
      ++ batch_cells events

  abbrev pub encodable : E → Bool
  encodable e = is_encoded (marshal (get (codes "payload") (to_document e)))

  build-groups :
      (events : List E) (n : ℕ)
      → build marshal to_document events n ≡ (groups n (count encodable events), batch_cells events)
  unfolding build transform
  build-groups [] n = refl
  build-groups (e ∷ events) n =
      add_row-groups (to_document e) (marshal (get (codes "payload") (to_document e))) n
        (build marshal to_document events) (count encodable events) (batch_cells events)
        (build-groups events)

  -- What `WriteBatch` builds. For every batch: one parenthesis with six placeholders for each event
  -- whose payload can be encoded, numbered on from $1 without a gap, and the arguments of these
  -- events in order, each event's being the fields of its document under the names of the columns of
  -- the INSERT (namespace, user_id, event_id, timestamp, server_timestamp), then the encoded payload.
  pub arguments_line_up :
      (events : List E)
      → build marshal to_document events 1 ≡ (groups 1 (count encodable events), batch_cells events)
  arguments_line_up events = build-groups events 1
