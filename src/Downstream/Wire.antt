-- ===== src/Downstream/Wire.antt =====
-- internal/downstream/client.go and internal/jsonrpc/types.go: how encoding/json reads a Response,
-- strictly (DisallowUnknownFields) for one response and leniently for a batch.
pub mod Laws
use web3signer_go.Base.{
  if◌then◌else◌, ℤ, pos, neg, ltb_ℤ, leb_ℤ, equal_fold, ◌^◌, String, Bool, false, ◌&&◌, Option,
  none, some, List, [], ◌∷◌,
}
use web3signer_go.Jsonrpc.Value.{Value, null, int, arr, obj, Items, nil, cons, Fields, end, field}
use web3signer_go.Jsonrpc.Codes.{RpcError}
use web3signer_go.Jsonrpc.Interface.{as_interface}
use web3signer_go.Jsonrpc.Types.{Response}
use web3signer_go.Jsonrpc.Parse.{decode_string}

-- The range of a Go int.
pub in_int : ℤ → Bool
in_int n = leb_ℤ (neg (2 ^ 63)) n && ltb_ℤ n (pos (2 ^ 63))

abbrev pub decode_int : Value → ℤ → Option ℤ
decode_int null old = some old
decode_int (int n) old = if in_int n then some n else none
decode_int _ old = none

abbrev known : Bool → Option RpcError → Option RpcError
known strict o = if strict then none else o

abbrev zero_error : RpcError
zero_error = record { code = pos 0; message = ""; content = null }

unfoldable pub decode_error_member : Bool → String → Value → RpcError → Option RpcError
decode_error_member strict k v e =
    if equal_fold k "code"
    then elim (decode_int v e.code) [ none ↦ none | some c ↦ some (record e { code = c }) ]
    else if equal_fold k "message"
    then elim (decode_string v e.message) [ none ↦ none | some s ↦ some (record e { message = s }) ]
    else if equal_fold k "data"
    then elim (as_interface v) [ none ↦ none | some x ↦ some (record e { content = x }) ]
    else if strict
    then none
    else some e

unfoldable pub decode_error_members : Bool → Fields → RpcError → Option RpcError
unfolding decode_error_member
decode_error_members strict end e = some e
decode_error_members strict (field k v fs) e = elim (decode_error_member strict k v e) [
  | none ↦ none
  | some e' ↦ decode_error_members strict fs e'
]

abbrev held : Option RpcError → RpcError
held none = zero_error
held (some e) = e

-- A member of type *Error: null makes it nil, an object is read into the Error that is there or a
-- new one.
unfoldable pub decode_error : Bool → Value → Option RpcError → Option (Option RpcError)
unfolding decode_error_members
decode_error strict null old = some none
decode_error strict (obj fs) old = elim (decode_error_members strict fs (held old)) [
  | none ↦ none
  | some e ↦ some (some e)
]
decode_error strict _ old = none

unfoldable pub decode_response_member : Bool → String → Value → Response → Option Response
decode_response_member strict k v r =
    if equal_fold k "jsonrpc"
    then elim (decode_string v r.jsonrpc) [ none ↦ none | some s ↦ some (record r { jsonrpc = s }) ]
    else if equal_fold k "result"
    then some (record r { result = some v })
    else if equal_fold k "error"
    then elim (decode_error strict v r.error) [
      | none ↦ none
      | some e ↦ some (record r { error = e })
    ]
    else if equal_fold k "id"
    then elim (as_interface v) [ none ↦ none | some id ↦ some (record r { id = id }) ]
    else if strict
    then none
    else some r

unfoldable pub decode_response_members : Bool → Fields → Response → Option Response
unfolding decode_response_member
decode_response_members strict end r = some r
decode_response_members strict (field k v fs) r = elim (decode_response_member strict k v r) [
  | none ↦ none
  | some r' ↦ decode_response_members strict fs r'
]

abbrev pub zero_response : Response
zero_response = record { jsonrpc = ""; result = none; error = none; id = null }

unfoldable pub decode_response : Bool → Value → Option Response
unfolding decode_response_members
decode_response strict null = some zero_response
decode_response strict (obj fs) = decode_response_members strict fs zero_response
decode_response strict _ = none

unfoldable pub decode_response_items : Items → Option (List Response)
decode_response_items nil = some []
decode_response_items (cons v vs) = elim (decode_response false v) [
  | none ↦ none
  | some r ↦ elim (decode_response_items vs) [ none ↦ none | some rs ↦ some (r ∷ rs) ]
]

-- json.Unmarshal into a []Response.
unfoldable pub decode_responses : Value → Option (List Response)
unfolding decode_response_items
decode_responses null = some []
decode_responses (arr vs) = decode_response_items vs
decode_responses _ = none
