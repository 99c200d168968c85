-- ===== src/Jsonrpc/Interface.antt =====
-- internal/jsonrpc/types.go: what encoding/json keeps of a JSON value in the fields of type
-- interface{}, ID and Data. A number becomes a float64, and one beyond its range is an error; an
-- object becomes a map, which is written in the order of its keys and keeps the last value of each.
pub mod Laws
use web3signer_go.Base.{
  if◌then◌else◌, [], none, ltb, leb, ◌==◌, ℤ, pos, negsuc, neg, ◌+ℤ◌, str_eq, runes, bytes, show_ℤ,
  ℕ, suc, ◌+◌, ◌-◌, ◌*◌, ◌^◌, String, Bool, true, false, ◌&&◌, ◌||◌, Option, some, List, ◌∷◌,
}
use web3signer_go.Jsonrpc.Value.{
  Value, null, bool, int, float, rounded, str, arr, obj, Items, nil, cons, Fields, end, field,
}

-- From here on a number is rounded to infinity.
abbrev float64_limit : ℕ
float64_limit = 2 ^ 970 * (2 ^ 54 - 1)

-- The digits after e or E.
unfoldable number_of : ℕ → List ℕ → ℕ
number_of n [] = n
number_of n (c ∷ cs) = number_of (n * 10 + (c - b'0')) cs

unfoldable exponent_of : List ℕ → ℤ
unfolding number_of
exponent_of [] = pos 0
exponent_of (c ∷ cs) =
    if c == b'-'
    then neg (number_of 0 cs)
    else if c == b'+'
    then pos (number_of 0 cs)
    else pos (number_of 0 (c ∷ cs))

-- A literal as a whole number times a power of ten; `places` counts the digits after the point.
unfoldable scaled : ℕ → ℕ → Bool → List ℕ → ℕ × ℤ
unfolding exponent_of
scaled m places after [] = (m, neg places)
scaled m places after (c ∷ cs) = elim (leb b'0' c && leb c b'9') [
  | true ↦ scaled (m * 10 + (c - b'0')) (if after then suc places else places) after cs
  | false ↦ elim (c == b'.') [
    | true ↦ scaled m places true cs
    | false ↦ (m, exponent_of cs +ℤ neg places)
  ]
]

abbrev without_sign : List ℕ → List ℕ
without_sign [] = []
without_sign (c ∷ cs) = if c == b'-' then cs else c ∷ cs

abbrev below_limit : ℕ × ℤ → Bool
below_limit (m, pos e) = ltb (m * 10 ^ e) float64_limit
below_limit (m, negsuc e) = ltb m (float64_limit * 10 ^ suc e)

-- strconv.ParseFloat gives no range error.
unfoldable pub in_float64 : String → Bool
unfolding scaled bytes
in_float64 s = below_limit (scaled 0 0 false (without_sign (bytes s)))

abbrev pub magnitude : ℤ → ℕ
magnitude (pos n) = n
magnitude (negsuc n) = suc n

-- An integer up to 2^53 is a float64, and is written as it was.
abbrev as_float64 : ℤ → Option Value
as_float64 n =
    if leb (magnitude n) (2 ^ 53)
    then some (int n)
    else if ltb (magnitude n) float64_limit
    then some (rounded (show_ℤ n))
    else none

abbrev runes_before : List ℕ → List ℕ → Bool
runes_before s [] = false
runes_before [] (d ∷ t) = true
runes_before (c ∷ s) (d ∷ t) = ltb c d || c == d && runes_before s t

-- The order of the keys: UTF-8 keeps that of the code points.
unfoldable pub before : String → String → Bool
unfolding runes
before s t = runes_before (runes s) (runes t)

-- A member in front of the others, whose keys are in order.
unfoldable pub put_first : String → Value → Fields → Fields
unfolding before
put_first k v end = field k v end
put_first k v (field k' v' fs) =
    let rest = put_first k v fs in
    if before k k'
    then field k v (field k' v' fs)
    else if str_eq k k'
    then field k' v' fs
    else field k' v' rest

unfoldable mutual
  unfolding in_float64 put_first

  pub as_interface : Value → Option Value
  as_interface null = some null
  as_interface (bool b) = some (bool b)
  as_interface (int n) = as_float64 n
  as_interface (float s) = if in_float64 s then some (rounded s) else none
  as_interface (rounded s) = some (rounded s)
  as_interface (str s) = some (str s)
  as_interface (arr vs) = elim (as_items vs) [ none ↦ none | some xs ↦ some (arr xs) ]
  as_interface (obj fs) = elim (as_fields fs) [ none ↦ none | some xs ↦ some (obj xs) ]

  pub as_items : Items → Option Items
  as_items nil = some nil
  as_items (cons v vs) = elim (as_interface v) [
    | none ↦ none
    | some x ↦ elim (as_items vs) [ none ↦ none | some xs ↦ some (cons x xs) ]
  ]

  pub as_fields : Fields → Option Fields
  as_fields end = some end
  as_fields (field k v fs) = elim (as_interface v) [
    | none ↦ none
    | some x ↦ elim (as_fields fs) [ none ↦ none | some xs ↦ some (put_first k x xs) ]
  ]
