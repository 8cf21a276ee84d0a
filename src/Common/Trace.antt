-- ===== src/Common/Trace.antt =====
-- pkg/common/utils.go: `GenerateRandomInt` and `MakeTraceID`. The generator of math/rand, seeded with
-- the time, and `fmt.Sprintf` of a format without arguments are parameters.
use extend_game_telemetry_co.Prelude.{
  ℕ, ◌≡◌, refl, ap, ◌∙◌, Bool, not, List, [], ◌∷◌, ◌++◌, append_assoc, append-nil, sym, Text, codes,
  arith, ◌==◌, map, concat, Each, decimal, is_digit, Only, Only-append, Only-decimal,
}

-- `intn seed n`: the first number below `n` of a generator with the seed.
pub generate_random_int : (ℕ → ℕ → ℕ) → ℕ → ℕ
generate_random_int intn now_ns = intn now_ns 10000

module _ (sprintf : Text → Text) where
  -- The loop, from a value of `tID`.
  extend_id : Text → List Text → Text
  extend_id id [] = id
  extend_id id (i ∷ identifiers) = extend_id (sprintf (id ++ i ++ codes "_")) identifiers

  pub make_trace_id : (ℕ → ℕ → ℕ) → ℕ → List Text → Text
  unfolding extend_id
  make_trace_id intn now_ns identifiers =
      sprintf (extend_id [] identifiers ++ decimal (generate_random_int intn now_ns))

abbrev pub not_percent : ℕ → Bool
not_percent c = not (c == b'%')

Only-digits-plain : (s : Text) → Only is_digit s → Only not_percent s
Only-digits-plain [] h = refl
Only-digits-plain (c ∷ s) h = ground (arith, Only-digits-plain s)

-- A format without a verb is printed as it is.
unfoldable pub PrintsPlain : (Text → Text) → Type 0
PrintsPlain sprintf = (s : Text) → Only not_percent s → sprintf s ≡ s

-- Each identifier with a `_` behind it.
abbrev pub marked : List Text → Text
marked identifiers = concat (map (λ i. i ++ codes "_") identifiers)

Only-marked :
    (identifiers : List Text)
    → Each (Only not_percent) identifiers
    → Only not_percent (marked identifiers)
Only-marked [] all = refl
Only-marked (i ∷ identifiers) all =
    Only-append not_percent (i ++ codes "_") (marked identifiers)
      (Only-append not_percent i (codes "_") all.0 refl) (Only-marked identifiers all.1)

extend_id-plain :
    (sprintf : Text → Text) (id : Text) (identifiers : List Text)
    → PrintsPlain sprintf
    → Only not_percent id
    → Each (Only not_percent) identifiers
    → extend_id sprintf id identifiers ≡ id ++ marked identifiers
unfolding extend_id PrintsPlain
extend_id-plain sprintf id [] plain good all = sym (append-nil id)
extend_id-plain sprintf id (i ∷ identifiers) plain good all =
    let longer : Only not_percent (id ++ i ++ codes "_") =
      Only-append not_percent (id ++ i) (codes "_") (Only-append not_percent id i good all.0)
        refl in
    ap (λ s. extend_id sprintf s identifiers) (plain (id ++ i ++ codes "_") longer)
    ∙ (extend_id-plain sprintf (id ++ i ++ codes "_") identifiers plain longer all.1
        ∙ simp append_assoc)

-- Of identifiers without a percent sign, `MakeTraceID` makes the identifiers with a `_` behind each,
-- then the decimal digits of the random number.
pub make_trace_id_lem :
    (sprintf : Text → Text) (intn : ℕ → ℕ → ℕ) (now_ns : ℕ) (identifiers : List Text)
    → PrintsPlain sprintf
    → Each (Only not_percent) identifiers
    → make_trace_id sprintf intn now_ns identifiers
      ≡ marked identifiers ++ decimal (generate_random_int intn now_ns)
unfolding make_trace_id PrintsPlain
make_trace_id_lem sprintf intn now_ns identifiers plain all =
    let number = decimal (generate_random_int intn now_ns) in
    ap (λ s. sprintf (s ++ number)) (extend_id-plain sprintf [] identifiers plain refl all)
    ∙ plain (marked identifiers ++ number) (
        Only-append not_percent (marked identifiers) number (Only-marked identifiers all)
          (Only-digits-plain number (Only-decimal (generate_random_int intn now_ns))))
