-- ===== src/Router/Responses.antt =====
-- internal/router/base.go: what every handler builds its responses with.
use web3signer_go.Base.{
  ◌==◌, if◌then◌else◌, length, ℤ, ◌+++◌, show_ℕ, Result, ok, err, ℕ, String, Option, none, some,
  List, [], ◌∷◌,
}
use web3signer_go.Jsonrpc.Value.{Value, null, arr, items}
use web3signer_go.Jsonrpc.Interface.{as_items}
use web3signer_go.Jsonrpc.Codes.{code_invalid_params}
use web3signer_go.Jsonrpc.Types.{Response, new_response, new_error_response}

unfoldable pub create_success_response : Value → Value → Response
unfolding new_response
create_success_response id result = new_response id result

unfoldable pub create_error_response : Value → ℤ → String → Value → Response
unfolding new_error_response
create_error_response id code message content =
    new_error_response id (record { code = code; message = message; content = content })

unfoldable pub create_invalid_params_response : Value → String → Response
unfolding create_error_response
create_invalid_params_response id message =
    create_error_response id code_invalid_params message null

-- json.Unmarshal into a []json.RawMessage.
abbrev as_array : Value → Option (List Value)
as_array null = some []
as_array (arr vs) = some (items vs)
as_array _ = none

-- The same into a []interface{}.
abbrev as_interfaces : Value → Option (List Value)
as_interfaces (arr vs) = elim (as_items vs) [ none ↦ none | some xs ↦ some (items xs) ]
as_interfaces v = as_array v

-- `json_failure` is the message of encoding/json.
unfoldable pub validate_params : (Value → String) → Option Value → ℕ → Result String (List Value)
validate_params json_failure none expected = err "params is required"
validate_params json_failure (some v) expected = elim (as_interfaces v) [
  | none ↦ err ("params must be an array: " +++ json_failure v)
  | some vs ↦
      if length vs == expected
      then ok vs
      else err ("expected " +++ (show_ℕ expected +++ (" parameters, got " +++ show_ℕ (length vs))))
]

-- `unmarshal` is json.Unmarshal into the target.
unfoldable pub parse_params {ℓ} :
    {A : Type ℓ} → (Value → Result String A) → Option Value → Result String A
parse_params unmarshal none = err "params is required"
parse_params unmarshal (some v) = elim (as_array v) [
  | none ↦ unmarshal v
  | some [] ↦ unmarshal v
  | some (x ∷ xs) ↦ unmarshal x
]
