-- ===== src/Errors/App.antt =====
-- internal/errors/errors.go: AppError. Its Context is a map, kept as an association list.
use web3signer_go.Base.{ℤ, str_eq, String, Bool, false, Option, none, some, List, [], ◌∷◌}
use web3signer_go.Base.Dict.{insert}
use web3signer_go.Jsonrpc.Value.{Value, int, str, obj, Fields, end, field}
use web3signer_go.Jsonrpc.Codes.{
  RpcError, code_invalid_params, code_method_not_found, code_internal_error,
  code_server_error_start,
}
use web3signer_go.Errors.Types.{
  ErrorType, internal, config, validation, connection, timeout, network, method_not_found,
  invalid_params, type_text, GoError, app, Cause, no_cause, because, error_text,
}

pub record AppError : Type 0 where
  pub kind : ErrorType
  pub code : ℤ
  pub message : String
  pub details : String
  pub context : List (String × Value)
  pub original : Cause

abbrev pub as_error : AppError → GoError
as_error e = app e.kind e.code e.message e.details e.context e.original

-- The type assertion err.(*AppError).
unfoldable pub as_app : GoError → Option AppError
as_app (app t c m d ctx cause) =
    some (record { kind = t; code = c; message = m; details = d; context = ctx; original = cause })
as_app _ = none

unfoldable pub new : ErrorType → ℤ → String → AppError
new kind code message = record {
  kind = kind;
  code = code;
  message = message;
  details = "";
  context = [];
  original = no_cause;
}

-- Wrap of an error that is not nil.
unfoldable pub wrap : (Value → String) → GoError → ErrorType → ℤ → String → AppError
unfolding new
wrap fmt_v e kind code message = record (new kind code message) {
  original = because e;
  details = error_text fmt_v e;
}

unfoldable pub with_context : String → Value → AppError → AppError
with_context k v e = record e { context = insert k v e.context }

unfoldable pub with_details : String → AppError → AppError
with_details d e = record e { details = d }

-- AppError.Is: the types are equal as strings.
unfoldable pub is : AppError → GoError → Bool
is e (app t c m d ctx cause) = str_eq (type_text e.kind) (type_text t)
is e _ = false

unfoldable pub rpc_code : ErrorType → ℤ
rpc_code invalid_params = code_invalid_params
rpc_code validation = code_invalid_params
rpc_code method_not_found = code_method_not_found
rpc_code internal = code_internal_error
rpc_code config = code_internal_error
rpc_code connection = code_server_error_start
rpc_code timeout = code_server_error_start
rpc_code network = code_server_error_start
rpc_code _ = code_internal_error

-- `for k, v := range e.Context { errorData[k] = v }`
unfoldable pub put_all : List (String × Value) → List (String × Value) → List (String × Value)
put_all [] m = m
put_all ((k, v) ∷ ctx) m = put_all ctx (insert k v m)

unfoldable pub error_content : AppError → List (String × Value)
unfolding put_all
error_content e =
    put_all e.context
      (("type", str (type_text e.kind)) ∷ ("code", int e.code) ∷ ("details", str e.details) ∷ [])

abbrev of_fields : List (String × Value) → Fields
of_fields [] = end
of_fields ((k, v) ∷ m) = field k v (of_fields m)

unfoldable pub to_rpc : AppError → RpcError
unfolding rpc_code error_content
to_rpc e = record {
  code = rpc_code e.kind;
  message = e.message;
  content = obj (of_fields (error_content e));
}

-- ToJSONRPCWithCode of converter.go, for an error that is not nil.
unfoldable pub to_rpc_with_code : AppError → ℤ → RpcError
unfolding error_content
to_rpc_with_code e code = record {
  code = code;
  message = e.message;
  content = obj (of_fields (error_content e));
}
