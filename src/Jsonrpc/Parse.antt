-- ===== src/Jsonrpc/Parse.antt =====
-- internal/jsonrpc/types.go: decoding and validation of requests. A body is `none` where it is not
-- one well-formed JSON text. The texts of the errors are kept as constructors.
pub mod Laws
use web3signer_go.Base.{
  ℕ, suc, String, Bool, true, false, not, Option, none, some, List, [], ◌∷◌, str_eq, equal_fold,
  if◌then◌else◌, Result, ok, err, ◌>>=◌, ◌>>◌, fail_if, map_err,
}
use web3signer_go.Jsonrpc.Value.{
  Value, null, bool, int, float, rounded, str, arr, obj, Items, nil, cons, Fields, end, field,
}
use web3signer_go.Jsonrpc.Interface.{as_interface}
use web3signer_go.Jsonrpc.Types.{Request, jsonrpc_version}

abbrev pub zero_request : Request
zero_request = record { jsonrpc = ""; method = ""; params = none; id = null }

-- A JSON value stored in a string field: null leaves the field as it is.
abbrev pub decode_string : Value → String → Option String
decode_string null old = some old
decode_string (str s) old = some s
decode_string _ old = none

-- One member of the object. encoding/json finds the field by its name, in any case, and skips
-- other members.
unfoldable pub decode_member : String → Value → Request → Option Request
decode_member k v r =
    if equal_fold k "jsonrpc"
    then elim (decode_string v r.jsonrpc) [ none ↦ none | some s ↦ some (record r { jsonrpc = s }) ]
    else if equal_fold k "method"
    then elim (decode_string v r.method) [ none ↦ none | some s ↦ some (record r { method = s }) ]
    else if equal_fold k "params"
    then some (record r { params = some v })
    else if equal_fold k "id"
    then elim (as_interface v) [ none ↦ none | some id ↦ some (record r { id = id }) ]
    else some r

unfoldable pub decode_members : Fields → Request → Option Request
unfolding decode_member
decode_members end r = some r
decode_members (field k v fs) r = elim (decode_member k v r) [
  | none ↦ none
  | some r' ↦ decode_members fs r'
]

-- json.Unmarshal into a Request.
unfoldable pub decode_request : Value → Option Request
unfolding decode_members
decode_request null = some zero_request
decode_request (obj fs) = decode_members fs zero_request
decode_request _ = none

-- json.Unmarshal into a []Request.
unfoldable pub decode_items : Items → Option (List Request)
unfolding decode_request
decode_items nil = some []
decode_items (cons v vs) = elim (decode_request v) [
  | none ↦ none
  | some r ↦ elim (decode_items vs) [ none ↦ none | some rs ↦ some (r ∷ rs) ]
]

unfoldable pub decode_requests : Value → Option (List Request)
unfolding decode_items
decode_requests null = some []
decode_requests (arr vs) = decode_items vs
decode_requests _ = none

-- `%T` of a decoded value.
abbrev pub type_name : Value → String
type_name null = "<nil>"
type_name (bool b) = "bool"
type_name (int n) = "float64"
type_name (float s) = "float64"
type_name (rounded s) = "float64"
type_name (str s) = "string"
type_name (arr vs) = "[]interface {}"
type_name (obj fs) = "map[string]interface {}"

pub data ValidationError : Type 0 where
  invalid_version : String → ValidationError
  method_required : ValidationError
  invalid_id_type : String → ValidationError

pub data ParseError : Type 0 where
  invalid_request : ValidationError → ParseError
  not_json_rpc : ParseError
  empty_batch : ParseError
  at_index : ℕ → ValidationError → ParseError

abbrev validate_id : Value → Result ValidationError (Unit {0})
validate_id null = ok tt
validate_id (int n) = ok tt
validate_id (float s) = ok tt
validate_id (rounded s) = ok tt
validate_id (str s) = ok tt
validate_id v = err (invalid_id_type (type_name v))

unfoldable pub validate_request : Request → Result ValidationError (Unit {0})
validate_request r = do
  fail_if (not (str_eq r.jsonrpc jsonrpc_version)) (invalid_version r.jsonrpc)
  fail_if (str_eq r.method "") method_required
  validate_id r.id

unfoldable pub validate_from : ℕ → List Request → Result ParseError (Unit {0})
unfolding validate_request
validate_from i [] = ok tt
validate_from i (r ∷ rs) = map_err (at_index i) (validate_request r) >> validate_from (suc i) rs

abbrev parse_batch : Option (List Request) → Result ParseError (List Request)
parse_batch none = err not_json_rpc
parse_batch (some []) = err empty_batch
parse_batch (some rs) = validate_from 0 rs >> ok rs

abbrev parse_value : Option Request → Value → Result ParseError (List Request)
parse_value (some r) v = map_err invalid_request (validate_request r) >> ok (r ∷ [])
parse_value none v = parse_batch (decode_requests v)

unfoldable pub parse_request : Option Value → Result ParseError (List Request)
unfolding decode_request decode_requests validate_request validate_from
parse_request none = err not_json_rpc
parse_request (some v) = parse_value (decode_request v) v
