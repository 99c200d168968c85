-- ===== src/Jsonrpc/Types.antt =====
-- internal/jsonrpc/types.go and constants.go: requests, responses and how they are written.
-- `Params` and `Result` are `none` where the raw message is empty; an `ID` of nil is `null`.
use web3signer_go.Base.{String, Option, none, some, List, [], ◌∷◌, map}
use web3signer_go.Jsonrpc.Value.{Value, null, int, str, arr, obj, Fields, end, field, of_items}
use web3signer_go.Jsonrpc.Codes.{RpcError}

abbrev pub jsonrpc_version : String
jsonrpc_version = "2.0"

pub record Request : Type 0 where
  pub jsonrpc : String
  pub method : String
  pub params : Option Value
  pub id : Value

pub record Response : Type 0 where
  pub jsonrpc : String
  pub result : Option Value
  pub error : Option RpcError
  pub id : Value

-- Every value of the model has a JSON text, so the error result of json.Marshal does not arise.
unfoldable pub new_response : Value → Value → Response
new_response id result = record {
  jsonrpc = jsonrpc_version;
  result = some result;
  error = none;
  id = id;
}

unfoldable pub new_error_response : Value → RpcError → Response
new_error_response id e = record {
  jsonrpc = jsonrpc_version;
  result = none;
  error = some e;
  id = id;
}

-- A field with `omitempty`.
abbrev optional : String → Option Value → Fields → Fields
optional k none fs = fs
optional k (some v) fs = field k v fs

abbrev not_nil : Value → Option Value
not_nil null = none
not_nil v = some v

unfoldable pub marshal_request : Request → Value
marshal_request r = obj (
    field "jsonrpc" (str r.jsonrpc)
      (field "method" (str r.method) (optional "params" r.params (field "id" r.id end))))

unfoldable pub marshal_error : RpcError → Value
marshal_error e = obj (
    field "code" (int e.code)
      (field "message" (str e.message) (optional "data" (not_nil e.content) end)))

abbrev marshal_error? : Option RpcError → Option Value
marshal_error? none = none
marshal_error? (some e) = some (marshal_error e)

unfoldable pub marshal_response : Response → Value
marshal_response r = obj (
    field "jsonrpc" (str r.jsonrpc) (
      optional "result" r.result (optional "error" (marshal_error? r.error) (field "id" r.id end))))

-- A nil *Response is written as null.
unfoldable pub marshal_response? : Option Response → Value
unfolding marshal_response
marshal_response? none = null
marshal_response? (some r) = marshal_response r

unfoldable pub marshal_responses : List (Option Response) → Value
unfolding marshal_response?
marshal_responses (r ∷ []) = marshal_response? r
marshal_responses rs = arr (of_items (map marshal_response? rs))
