-- ===== src/Storage/Mongodb/Inserts.antt =====
-- What the MongoDB plugins store of an event, and how a batch ends.
use extend_game_telemetry_co.Prelude.{
  ◌≡◌, ◌≢◌, refl, ◌∙◌, Bool, true, false, List, [], ◌∷◌, Option, none, some, Text, codes, arith,
  text_eq, text_eq_iff, text_eq_refl, if◌then◌else◌, ◌⊎◌, inl, inr,
}
use mathlib.Core.Option.{some_inj}
use extend_game_telemetry_co.Events.{
  Value, null, object, Fields, end, field, get, has, put, get-put,
}
use extend_game_telemetry_co.Storage.{prepare_all, Stored}
use extend_game_telemetry_co.Storage.Mongodb.{
  transform, write_batch, insert_documents, result_of, InsertResult, put_all, flattened, stamped,
  reencode, set_payload,
}

-- No key stands twice, as in every Go map.
abbrev Single : Fields → Type 0
Single end = Unit
Single (field k v rest) = (has k rest ≡ false) × Single rest

get-put_all :
    (k : Text) (flat doc : Fields)
    → Single flat
    → get k (put_all flat doc) ≡ (if has k flat then get k flat else get k doc)
unfolding put_all get has
get-put_all k end doc single = refl
get-put_all k (field j v rest) doc single =
    ground (arith, text_eq_iff j k, get-put j k v doc, get-put_all k rest (put j v doc) single.1)

has-put :
    (key k : Text) (v : Value) (doc : Fields)
    → has k (put key v doc) ≡ (if text_eq key k then true else has k doc)
unfolding has put
has-put key k v end = refl
has-put key k v (field j w rest) =
    ground (arith, text_eq_iff key k, text_eq_iff j key, text_eq_iff j k, has-put key k v rest)

put-Single : (key : Text) (v : Value) (doc : Fields) → Single doc → Single (put key v doc)
unfolding has put
put-Single key v end single = (refl, tt)
put-Single key v (field j w rest) single =
    ground
      (arith, text_eq_iff j key, text_eq_iff key j, has-put key j v rest, put-Single key v rest)

get-absent : (k : Text) (doc : Fields) → has k doc ≡ false → get k doc ≡ null
unfolding get has
get-absent k end absent = refl
get-absent k (field j v rest) absent = ground (arith, get-absent k rest)

-- What becomes of the document of an event: the other columns stay, and the time is added.
abbrev KeepsColumns : Value → Fields → Text → Fields → Type 0
KeepsColumns now flat k doc = (get k doc ≡ get k flat) × (get (codes "created_at") doc ≡ now)

put_all-KeepsColumns :
    (now : Value) (f : Fields) (k : Text)
    → Single f
    → k ≢ codes "created_at"
    → has (codes "created_at") f ≡ false
    → KeepsColumns now f k (put_all f (field (codes "created_at") now end))
unfolding get
put_all-KeepsColumns now f k single other_key unset = (
  ground (
    arith,
    get-put_all k f (field (codes "created_at") now end) single,
    get-absent k f,
    text_eq_iff (codes "created_at") k,
  ),
  ground (
    arith,
    unset,
    get-put_all (codes "created_at") f (field (codes "created_at") now end) single,
    text_eq_refl (codes "created_at"),
  ),
)

insert_documents-cases :
    (insert_many : List Fields → InsertResult) (documents : List Fields)
    → ((documents ≡ []) × (insert_documents insert_many documents ≡ ([], (0, none))))
      ⊎ (insert_documents insert_many documents
          ≡ (documents ∷ [], result_of (insert_many documents)))
unfolding insert_documents
insert_documents-cases insert_many [] = inl (refl, refl)
insert_documents-cases insert_many (d ∷ documents) = inr refl

-- A flattened map has the keys of the document, and its values but for the payload.
abbrev Flat : Fields → Fields → Text → Type 0
Flat flat f k = Single f × (get k f ≡ get k flat) × (has (codes "created_at") f ≡ false)

put-Flat :
    (payload : Value) (flat : Fields) (k : Text)
    → Single flat
    → has (codes "created_at") flat ≡ false
    → k ≢ codes "payload"
    → Flat flat (put (codes "payload") payload flat) k
unfolding text_eq
put-Flat payload flat k single unset other_key = (
  put-Single (codes "payload") payload flat single,
  ground (arith, get-put (codes "payload") k payload flat, text_eq_iff (codes "payload") k),
  has-put (codes "payload") (codes "created_at") payload flat ∙ unset,
)

set_payload-Flat :
    (o : Option Fields) (flat f : Fields) (k : Text)
    → set_payload flat o ≡ some f
    → Single flat
    → has (codes "created_at") flat ≡ false
    → k ≢ codes "payload"
    → Flat flat f k
unfolding set_payload
set_payload-Flat none flat f k made single unset other_key = ground arith
set_payload-Flat (some payload) flat f k made single unset other_key =
    rw (← some_inj.0 made) (put-Flat (object payload) flat k single unset other_key)

module _ (marshal : Value → Option Text) (unmarshal : Text → Option Fields) (now : Value) where
  flattened-Flat :
      (b : Bool) (flat f : Fields) (k : Text)
      → (if b
          then set_payload flat (reencode unmarshal (marshal (get (codes "payload") flat)))
          else some flat)
        ≡ some f
      → Single flat
      → has (codes "created_at") flat ≡ false
      → k ≢ codes "payload"
      → Flat flat f k
  flattened-Flat true flat f k made single unset other_key =
      set_payload-Flat (reencode unmarshal (marshal (get (codes "payload") flat))) flat f k made
        single unset other_key
  flattened-Flat false flat f k made single unset other_key =
      rw (← some_inj.0 made) (single, refl, unset)

  stamped-KeepsColumns :
      (o : Option Fields) (flat doc : Fields) (k : Text)
      → ((f : Fields) → o ≡ some f → Flat flat f k)
      → stamped now o ≡ some doc
      → k ≢ codes "created_at"
      → KeepsColumns now flat k doc
  unfolding stamped
  stamped-KeepsColumns none flat doc k known made other_key = ground arith
  stamped-KeepsColumns (some f) flat doc k known made other_key =
      let (single, same, unset) = known f refl in
      let (kept, time) = put_all-KeepsColumns now f k single other_key unset in
      rw (← some_inj.0 made) (kept ∙ same, time)

  module _ {E : Type 0} (stored : Stored E) where
    -- Where the document of an event has no key twice and none named created_at, the stored
    -- document of an event that can be converted has the time of the call under created_at, and
    -- every other column but the payload as in the document.
    transform_keeps :
        (e : E) (doc : Fields) (k : Text)
        → transform marshal unmarshal now stored e ≡ some doc
        → Single (stored.to_document e)
        → has (codes "created_at") (stored.to_document e) ≡ false
        → k ≢ codes "payload"
        → k ≢ codes "created_at"
        → KeepsColumns now (stored.to_document e) k doc
    unfolding transform flattened
    transform_keeps e doc k made single unset not_payload not_time =
        stamped-KeepsColumns (flattened marshal unmarshal now (stored.to_document e))
          (stored.to_document e) doc k
          (λ f flat.
            flattened-Flat (has (codes "payload") (stored.to_document e)) (stored.to_document e) f k
              flat single unset not_payload)
          made not_time

    -- Without a convertible event nothing is sent and no error is returned. Otherwise there is one
    -- InsertMany with all documents, and count and error are those of its result, where a missing
    -- result counts nothing.
    pub write_batch_lem :
        (insert_many : List Fields → InsertResult) (events : List E)
        → ((prepare_all (transform marshal unmarshal now stored) events ≡ [])
            × (write_batch marshal unmarshal now stored insert_many events ≡ ([], (0, none))))
          ⊎ (write_batch marshal unmarshal now stored insert_many events ≡ (
            prepare_all (transform marshal unmarshal now stored) events ∷ [],
            result_of (insert_many (prepare_all (transform marshal unmarshal now stored) events)),
          ))
    unfolding write_batch prepare_all
    write_batch_lem insert_many [] = inl (refl, refl)
    write_batch_lem insert_many (e ∷ events) =
        insert_documents-cases insert_many
          (prepare_all (transform marshal unmarshal now stored) (e ∷ events))
