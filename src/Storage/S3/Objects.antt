-- ===== src/Storage/S3/Objects.antt =====
-- The keys of the objects that the S3 plugins write, and what a batch becomes.
use extend_game_telemetry_co.Prelude.{
  is_empty, if◌then◌else◌, ℕ, ◌≡◌, refl, ◌∙◌, ap, sym, Bool, false, List, [], ◌∷◌, ◌++◌, Option,
  none, some, Text, codes, arith, Only, other, is_digit, decimal, decimal_inj, read-decimal,
  read-zero, ==_iff, Only-decimal, length, map, ◌↔◌, ◌⊎◌, inl, inr, read_decimal, Each, Bool-cases,
  Option-cases,
}
use extend_game_telemetry_co.Events.{Fields}
use extend_game_telemetry_co.Storage.{Stored}
use extend_game_telemetry_co.Storage.S3.{
  PluginConfig, Error, Moment, object_key, key_rest, two_digits, PutObject, marshal_failed,
  upload_failed, write_batch, upload, put_of,
}

append_cancel : (s t u : Text) → s ++ t ≡ s ++ u → t ≡ u
append_cancel [] t u e = e
append_cancel (c ∷ s) t u e = append_cancel s t u (ground arith)

-- Two texts up to the first separator.
module _ (sep : ℕ) where
  fronts_agree :
      (n m s t : Text)
      → Only (other sep) n
      → Only (other sep) m
      → n ++ sep ∷ s ≡ m ++ sep ∷ t
      → (n ≡ m) × (s ≡ t)
  fronts_agree [] [] s t hn hm e = (refl, ground arith)
  fronts_agree [] (d ∷ m) s t hn hm e = ground arith
  fronts_agree (c ∷ n) [] s t hn hm e = ground arith
  fronts_agree (c ∷ n) (d ∷ m) s t hn hm e =
      let rest = fronts_agree n m s t (ground arith) (ground arith) (ground arith) in
      (ground (arith, rest), rest.1)

  -- Printed numbers have no separator that is not a digit.
  digits-Only : (s : Text) → is_digit sep ≡ false → Only is_digit s → Only (other sep) s
  digits-Only [] h hs = refl
  digits-Only (c ∷ s) h hs =
      let told : c ≡ sep → is_digit c ≡ is_digit sep = λ e. ap is_digit e in
      ground (arith, digits-Only s h, ==_iff c sep, told)

Only-two_digits : (n : ℕ) → Only is_digit (two_digits n)
unfolding two_digits
Only-two_digits n = ground (arith, Only-decimal n)

read-two_digits : (n : ℕ) → read_decimal (two_digits n) ≡ n
unfolding two_digits
read-two_digits n = ground (arith, read-decimal n, read-zero (decimal n))

two_digits_inj : (m n : ℕ) → two_digits m ≡ two_digits n → m ≡ n
two_digits_inj m n e = sym (read-two_digits m) ∙ (ap read_decimal e ∙ read-two_digits n)

-- The parts of a moment that stand in a key.
abbrev pub SameTime : Moment → Moment → Type 0
SameTime now later =
    (now.year ≡ later.year)
    × (now.month ≡ later.month)
    × (now.day ≡ later.day)
    × (now.unix_milli ≡ later.unix_milli)

-- What follows the year, the month and the day in a key.
abbrev from_millis : Moment → Text
from_millis now = decimal now.unix_milli ++ b'.' ∷ codes "json"

abbrev from_day : Moment → Text
from_day now = codes "day=" ++ (two_digits now.day ++ b'/' ∷ from_millis now)

abbrev from_month : Moment → Text
from_month now = codes "month=" ++ (two_digits now.month ++ b'/' ∷ from_day now)

key_rest_inj : (now later : Moment) → key_rest now ≡ key_rest later → SameTime now later
unfolding key_rest
key_rest_inj now later e =
    let years =
      fronts_agree b'/' (decimal now.year) (decimal later.year) (from_month now) (from_month later)
        (digits-Only b'/' (decimal now.year) refl (Only-decimal now.year))
        (digits-Only b'/' (decimal later.year) refl (Only-decimal later.year))
        (append_cancel (codes "year=") _ _ e) in
    let months =
      fronts_agree b'/' (two_digits now.month) (two_digits later.month) (from_day now)
        (from_day later) (digits-Only b'/' (two_digits now.month) refl (Only-two_digits now.month))
        (digits-Only b'/' (two_digits later.month) refl (Only-two_digits later.month))
        (append_cancel (codes "month=") _ _ years.1) in
    let days =
      fronts_agree b'/' (two_digits now.day) (two_digits later.day) (from_millis now)
        (from_millis later) (digits-Only b'/' (two_digits now.day) refl (Only-two_digits now.day))
        (digits-Only b'/' (two_digits later.day) refl (Only-two_digits later.day))
        (append_cancel (codes "day=") _ _ months.1) in
    let millis =
      fronts_agree b'.' (decimal now.unix_milli) (decimal later.unix_milli) (codes "json")
        (codes "json")
        (digits-Only b'.' (decimal now.unix_milli) refl (Only-decimal now.unix_milli))
        (digits-Only b'.' (decimal later.unix_milli) refl (Only-decimal later.unix_milli)) days.1 in
    (
      decimal_inj now.year later.year years.0,
      two_digits_inj now.month later.month months.0,
      two_digits_inj now.day later.day days.0,
      decimal_inj now.unix_milli later.unix_milli millis.0,
    )

same_rest : (now later : Moment) → SameTime now later → key_rest now ≡ key_rest later
unfolding key_rest
same_rest now later (y, m, d, u) = cc (y, m, d, u)

after_kind :
    (prefix kind s t : Text)
    → prefix ++ (codes "/" ++ (kind ++ (codes "/" ++ s)))
      ≡ prefix ++ (codes "/" ++ (kind ++ (codes "/" ++ t)))
    → s ≡ t
after_kind prefix kind s t e = append_cancel (codes "/") s t (
    append_cancel kind (codes "/" ++ s) (codes "/" ++ t) (
      append_cancel (codes "/") (kind ++ (codes "/" ++ s)) (kind ++ (codes "/" ++ t)) (
        append_cancel prefix (codes "/" ++ (kind ++ (codes "/" ++ s)))
          (codes "/" ++ (kind ++ (codes "/" ++ t))) e)))

-- Two objects with one prefix and kind get the same key exactly if the namespaces are the same
-- and they are written in the same millisecond of the same day, where the namespaces have no
-- slash.
pub keys_agree :
    (prefix kind namespace namespace' : Text) (now later : Moment)
    → Only (other b'/') namespace
    → Only (other b'/') namespace'
    → (object_key prefix kind namespace now ≡ object_key prefix kind namespace' later)
      ↔ ((namespace ≡ namespace') × SameTime now later)
unfolding object_key
keys_agree prefix kind namespace namespace' now later plain plain' = (
  λ e.
      let fronts =
        fronts_agree b'/' namespace namespace' (key_rest now) (key_rest later) plain plain' (
          after_kind prefix kind (namespace ++ b'/' ∷ key_rest now)
            (namespace' ++ b'/' ∷ key_rest later) e) in
      (fronts.0, key_rest_inj now later fronts.1),
  λ same. cc (same.0, same_rest now later same.1),
)

module _ (marshal_indent : List Fields → Bool × Text) {E : Type 0} (stored : Stored E)
    (kind : Text) where
  -- `WriteBatch` either has no error, counts all events, and has put no object for an empty batch
  -- and one for another, with the encoding of all documents in order as its body, which the store
  -- took; or it has an error and counts nothing.
  pub written_whole :
      (store : PutObject → Option Text) (cfg : PluginConfig) (now : Moment) (events : List E)
      → (((write_batch marshal_indent stored kind store cfg now events).1.1 ≡ none)
          × ((write_batch marshal_indent stored kind store cfg now events).1.0 ≡ length events)
          × (length (write_batch marshal_indent stored kind store cfg now events).0
              ≡ (if is_empty events then 0 else 1))
          × Each
              (λ put.
                (put.body ≡ (marshal_indent (map stored.to_document events)).1)
                × (store put ≡ none))
              (write_batch marshal_indent stored kind store cfg now events).0)
        ⊎ ((error : Error) × ((write_batch marshal_indent stored kind store cfg now events).1
              ≡ (0, some error)))
  unfolding write_batch upload put_of
  written_whole store cfg now [] = inl (refl, refl, refl, tt)
  written_whole store cfg now (e ∷ events) =
      let encoded = marshal_indent (map stored.to_document (e ∷ events)) in
      let put = put_of kind cfg now (stored.namespace e) (length (e ∷ events)) encoded.1 in
      elim (Bool-cases encoded.0) [
        | inr failed ↦ inr (marshal_failed encoded.1, ground (arith, failed))
        | inl done ↦ elim (Option-cases (store put)) [
          | inl taken ↦ inl (rw done (rw (upload, taken) (refl, refl, refl, ((refl, taken), tt))))
          | inr (error, refused) ↦ inr (upload_failed error, rw done (rw (upload, refused) refl))
        ]
      ]
