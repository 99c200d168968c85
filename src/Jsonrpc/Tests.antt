-- ===== src/Jsonrpc/Tests.antt =====
-- Requests and codes at concrete inputs.
use web3signer_go.Base.{
  show_ℕ, show_ℤ, bytes, runes, ◌^◌, ◌+◌, All, pos, equal_fold, ok, ◌≡◌, refl, true, none, some, [],
  ◌∷◌, map, arith, eq_iff,
}
use web3signer_go.Jsonrpc.Value.{
  null, float, rounded, Value, bool, int, str, arr, obj, end, field, of_items, nil,
}
use web3signer_go.Jsonrpc.Interface.{as_interface, in_float64, put_first, before}
use web3signer_go.Jsonrpc.Interface.Laws.{IsHeld}
use web3signer_go.Jsonrpc.Types.{Request, marshal_request}
use web3signer_go.Jsonrpc.Parse.{parse_request}
use web3signer_go.Jsonrpc.Parse.Laws.{IsValid, Decodes, parse_request_sound, parse-marshal}

abbrev block_number : Request
block_number = record {
  jsonrpc = "2.0";
  method = "eth_blockNumber";
  params = some (arr nil);
  id = int (pos 7);
}

abbrev chain_id : Request
chain_id = record { jsonrpc = "2.0"; method = "eth_chainId"; params = none; id = str "a" }

-- The members in another order and another case, with one that is skipped.
abbrev body : Value
body = obj (
    field "ID" (str "a") (
      field "method" (str "eth_chainId") (field "x" (bool true) (field "jsonrpc" (str "2.0") end))))

body-parsed : parse_request (some body) ≡ ok (chain_id ∷ [])
unfolding parse_request equal_fold as_interface
body-parsed = refl

parse_request_sound_example :
    (v : Value) × (some body ≡ some v) × Decodes v (chain_id ∷ []) × All IsValid (chain_id ∷ [])
parse_request_sound_example = parse_request_sound (some body) (chain_id ∷ []) body-parsed

block_number-IsValid : IsValid block_number
block_number-IsValid = record {
  version = refl;
  named = (λ e. ground (arith, eq_iff "eth_blockNumber" ""));
  id = tt;
}

chain_id-IsValid : IsValid chain_id
chain_id-IsValid = record {
  version = refl;
  named = (λ e. ground (arith, eq_iff "eth_chainId" ""));
  id = tt;
}

parse-marshal_example :
    (parse_request (some (marshal_request block_number)) ≡ ok (block_number ∷ []))
    × (parse_request (some (arr (of_items (map marshal_request (block_number ∷ chain_id ∷ [])))))
        ≡ ok (block_number ∷ chain_id ∷ []))
unfolding IsHeld
parse-marshal_example =
    parse-marshal block_number (chain_id ∷ []) (block_number-IsValid, (chain_id-IsValid, tt))
      (omega arith, (tt, tt))

-- A number beyond 2^53 becomes a float64, one beyond the range of those is an error, and the keys
-- of an object are put in order.
beyond_53 : as_interface (int (pos (2 ^ 53 + 1))) ≡ some (rounded "9007199254740993")
unfolding as_interface show_ℕ show_ℤ
beyond_53 = refl

too_large : as_interface (float "1.5e309") ≡ none
unfolding as_interface in_float64 bytes
too_large = refl

largest :
    as_interface (float "-1.7976931348623157E+308") ≡ some (rounded "-1.7976931348623157E+308")
unfolding as_interface in_float64 bytes
largest = refl

tiny : as_interface (float "0.1e-400") ≡ some (rounded "0.1e-400")
unfolding as_interface in_float64 bytes
tiny = refl

ordered :
    as_interface (obj (field "b" null (field "a" (bool true) (field "b" (str "x") end))))
    ≡ some (obj (field "a" (bool true) (field "b" (str "x") end)))
unfolding as_interface put_first before runes
ordered = refl
