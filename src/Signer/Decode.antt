-- ===== src/Signer/Decode.antt =====
-- internal/signer/transaction.go: decoding the parameters of a transaction. What fastjson and ethgo
-- do is a parameter; an error is its text.
pub mod Laws
use web3signer_go.Base.{
  ltb, ◌==◌, if◌then◌else◌, length, ℤ, pos, neg, str_eq, ◌+++◌, bytes, Result, ok, err, ◌>>=◌,
  map_err, ℕ, ◌%◌, String, Bool, false, not, ◌&&◌, Option, none, some, List, [], ◌∷◌, map,
}
use Prim.Native.Char.{Char, code}
use mathlib.Core.Option
use Prim.Native.String.{◌∷◌ as ◌∷ˢ◌, [] as []ˢ}
use web3signer_go.Jsonrpc.Value.{Value}
use web3signer_go.Utils.{is_valid_eth_address, hex_number, hex_decode}
use web3signer_go.Signer.Transaction.{Address, AccessEntry, u64}

-- github.com/valyala/fastjson: Parse (an error is its text), Get, String, Type() == TypeNull,
-- GetStringBytes (empty where there is no such string) and Array.
pub record Fastjson : Type 0 where
  pub parse_error : Value → Option String
  pub get : Value → String → Option Value
  pub text : Value → String
  pub is_null : Value → Bool
  pub get_string : Value → String → String
  pub array : Option Value → Result String (List Value)
  pub string_bytes : Value → Result String String

-- github.com/umbracle/ethgo: UnmarshalText of an address and of a hash, Address.String.
pub record Ethgo : Type 0 where
  pub address_of_text : String → Result String Address
  pub hash_of_text : String → Result String (List ℕ)
  pub address_text : Address → String

abbrev is_quote : Char → Bool
is_quote c = code c == b'"'

abbrev trim_left : String → String
trim_left []ˢ = ""
trim_left (c ∷ˢ s) = let rest = trim_left s in if is_quote c then rest else c ∷ˢ s

abbrev trim_right : String → String
trim_right []ˢ = ""
trim_right (c ∷ˢ s) =
    let rest = trim_right s in if is_quote c && str_eq rest "" then "" else c ∷ˢ rest

-- strings.Trim(s, "\"").
unfoldable pub trim_quotes : String → String
trim_quotes s = trim_right (trim_left s)

-- What follows the prefix 0x, if the text has it.
unfoldable pub strip_0x : String → Option String
strip_0x []ˢ = none
strip_0x (c ∷ˢ []ˢ) = none
strip_0x (c ∷ˢ (d ∷ˢ s)) = if code c == b'0' && code d == b'x' then some s else none

abbrev quoted : String → String
quoted key = "field '" +++ (key +++ "'")

abbrev no_prefix : String → String → String
no_prefix key text = quoted key +++ (" does not have 0x prefix: '" +++ (text +++ "'"))

-- strconv.ParseUint(text, 16, 64).
unfoldable pub parse_uint : String → Option ℕ
unfolding hex_number bytes
parse_uint text = elim (hex_number (bytes text)) [
  | none ↦ none
  | some n ↦ if ltb n u64 then some n else none
]

abbrev negate : ℕ → ℤ
negate n = neg n

-- (*big.Int).SetString(text, 16): digits behind an optional sign.
unfoldable pub parse_big : String → Option ℤ
unfolding hex_number bytes
parse_big []ˢ = none
parse_big (c ∷ˢ s) =
    if code c == b'-'
    then Option.map negate (hex_number (bytes s))
    else if code c == b'+'
    then Option.map pos (hex_number (bytes s))
    else Option.map pos (hex_number (bytes (c ∷ˢ s)))

abbrev pub or_zero : String → String
or_zero text = if str_eq text "" then "0" else text

module _ (fj : Fastjson) where
  unfoldable pub is_key_set : Value → String → Bool
  is_key_set v key = elim (fj.get v key) [ none ↦ false | some x ↦ not (fj.is_null x) ]

  unfoldable pub decode_uint : Value → String → Result String ℕ
  decode_uint v key = elim (fj.get v key) [
    | none ↦ err (quoted key +++ " not found")
    | some x ↦
        let text = trim_quotes (fj.text x) in
        elim (strip_0x text) [
          | none ↦ err (no_prefix key text)
          | some digits ↦ elim (parse_uint (or_zero digits)) [
            | none ↦ err (quoted key +++ (" failed to decode uint: " +++ text))
            | some n ↦ ok n
          ]
        ]
  ]

  unfoldable pub decode_uint_optional : Value → String → Result String ℕ
  unfolding is_key_set decode_uint
  decode_uint_optional v key = if is_key_set v key then decode_uint v key else ok 0

  unfoldable pub decode_big_int : Value → String → Result String (Option ℤ)
  decode_big_int v key = elim (fj.get v key) [
    | none ↦ err (quoted key +++ " not found")
    | some x ↦
        let text = trim_quotes (fj.text x) in
        elim (strip_0x text) [
          | none ↦ err (no_prefix key text)
          | some digits ↦ elim (parse_big (or_zero digits)) [
            | none ↦ err (quoted key +++ (" failed to decode big int: '" +++ (text +++ "'")))
            | some n ↦ ok (some n)
          ]
        ]
  ]

  unfoldable pub decode_big_int_optional : Value → String → Result String (Option ℤ)
  unfolding is_key_set decode_big_int
  decode_big_int_optional v key = if is_key_set v key then decode_big_int v key else ok none

  abbrev even_digits : List ℕ → List ℕ
  even_digits cs = if length cs % 2 == 0 then cs else b'0' ∷ cs

  -- `hex_failure` is the message of encoding/hex.
  unfoldable pub decode_bytes : (String → String) → Value → String → Result String (List ℕ)
  unfolding is_key_set
  decode_bytes hex_failure v key =
      if is_key_set v key
      then elim (fj.get v key) [
        | none ↦ ok []
        | some x ↦
            let text = trim_quotes (fj.text x) in
            elim (strip_0x text) [
              | none ↦ err (no_prefix key text)
              | some digits ↦ elim (hex_decode (even_digits (bytes digits))) [
                | none ↦ err (hex_failure digits)
                | some bs ↦ ok bs
              ]
            ]
      ]
      else ok []

  module _ (eg : Ethgo) where
    unfoldable pub decode_addr : Value → String → Result String Address
    decode_addr v key =
        let text = fj.get_string v key in
        if str_eq text ""
        then err (quoted key +++ " not found")
        else if not (is_valid_eth_address text)
        then err (quoted key +++ (" has invalid address format: '" +++ (text +++ "'")))
        else map_err (λ e. quoted key +++ (" failed to decode address: " +++ e))
            (eg.address_of_text text)

    abbrev decode_hashes : List Value → Result String (List (List ℕ))
    decode_hashes [] = ok []
    decode_hashes (v ∷ vs) = fj.string_bytes v >>= λ text.
        eg.hash_of_text text >>= λ h. decode_hashes vs >>= λ hs. ok (h ∷ hs)

    abbrev decode_entry : Value → Result String AccessEntry
    decode_entry elem = do
      address ← decode_addr elem "address"
      keys ← fj.array (fj.get elem "storageKeys")
      storage ← decode_hashes keys
      ok (record { address = address; storage = storage })

    abbrev decode_entries : List Value → Result String (List AccessEntry)
    decode_entries [] = ok []
    decode_entries (v ∷ vs) = decode_entry v >>= λ e. decode_entries vs >>= λ es. ok (e ∷ es)

    unfoldable pub unmarshal_access_list : Option Value → Result String (List AccessEntry)
    unmarshal_access_list v = fj.array v >>= decode_entries
