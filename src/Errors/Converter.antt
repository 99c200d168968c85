-- ===== src/Errors/Converter.antt =====
-- internal/errors/converter.go. A nil argument is `none`; the functions below take the others.
pub mod Laws
use web3signer_go.Base.{
  if◌then◌else◌, take, ℤ, pos, ◌+ℤ◌, eqb_ℤ, str_eq, ℕ, String, Bool, true, false, not, [], ◌∷◌,
}
use web3signer_go.Jsonrpc.Value.{Value}
use web3signer_go.Jsonrpc.Codes.{
  RpcError, code_parse_error, code_invalid_request, code_method_not_found, code_invalid_params,
  code_internal_error, code_server_error_start, is_server_error,
}
use web3signer_go.Errors.Types.{
  ErrorType, internal, validation, connection, timeout, network, kms_unavailable, address_mismatch,
  json_rpc, method_not_found, invalid_params, downstream_error, forward, type_text, ErrorCode,
  connection_failed, request_failed, invalid_response, timed_out, id_mismatch, batch_size_mismatch,
  unlisted, GoError, plain, rpc, downstream, app, no_cause,
}
use web3signer_go.Errors.App.{AppError, as_error, wrap, to_rpc}

unfoldable pub rpc_type : ℤ → ErrorType
unfolding is_server_error
rpc_type code =
    if eqb_ℤ code code_parse_error
    then json_rpc
    else if eqb_ℤ code code_invalid_request
    then json_rpc
    else if eqb_ℤ code code_method_not_found
    then method_not_found
    else if eqb_ℤ code code_invalid_params
    then invalid_params
    else if eqb_ℤ code code_internal_error
    then internal
    else if is_server_error code
    then internal
    else json_rpc

unfoldable pub from_rpc : RpcError → AppError
unfolding rpc_type
from_rpc e = record {
  kind = rpc_type e.code;
  code = e.code;
  message = e.message;
  details = "";
  context = ("original_data", e.content) ∷ [];
  original = no_cause;
}

-- The type, the offset from CodeServerErrorStart and the message for each downstream code.
unfoldable pub downstream_type : ErrorCode → ErrorType
downstream_type connection_failed = connection
downstream_type request_failed = forward
downstream_type invalid_response = downstream_error
downstream_type timed_out = timeout
downstream_type id_mismatch = downstream_error
downstream_type batch_size_mismatch = downstream_error
downstream_type (unlisted n) = downstream_error

unfoldable pub downstream_offset : ErrorCode → ℕ
downstream_offset connection_failed = 0
downstream_offset request_failed = 1
downstream_offset invalid_response = 2
downstream_offset timed_out = 3
downstream_offset id_mismatch = 4
downstream_offset batch_size_mismatch = 5
downstream_offset (unlisted n) = 10

unfoldable pub downstream_message : ErrorCode → String
downstream_message connection_failed = "Connection to downstream service failed"
downstream_message request_failed = "Request forwarding failed"
downstream_message invalid_response = "Invalid response from downstream service"
downstream_message timed_out = "Downstream service timeout"
downstream_message id_mismatch = "Response ID mismatch from downstream service"
downstream_message batch_size_mismatch = "Batch response size mismatch from downstream service"
downstream_message (unlisted n) = "Downstream service error"

module _ (fmt_v : Value → String) where
  unfoldable pub from_downstream : GoError → AppError
  unfolding wrap downstream_type downstream_offset downstream_message
  from_downstream (downstream c m cause) =
      wrap fmt_v (downstream c m cause) (downstream_type c)
        (code_server_error_start +ℤ pos (downstream_offset c)) (downstream_message c)
  from_downstream e =
      wrap fmt_v e downstream_error (code_server_error_start +ℤ pos 10) "Downstream service error"

  unfoldable pub convert_error : GoError → AppError
  unfolding from_rpc from_downstream wrap
  convert_error (app t c m d ctx cause) = record {
    kind = t;
    code = c;
    message = m;
    details = d;
    context = ctx;
    original = cause;
  }
  convert_error (rpc e) = from_rpc e
  convert_error (downstream c m cause) = from_downstream (downstream c m cause)
  convert_error (plain s) = wrap fmt_v (plain s) internal code_internal_error "Internal error"

  unfoldable pub convert_to_rpc : GoError → RpcError
  unfolding convert_error to_rpc
  convert_to_rpc e = to_rpc (convert_error e)

unfoldable pub to_downstream : AppError → GoError
to_downstream e = elim e.kind [
  | connection ↦ downstream connection_failed e.message e.original
  | timeout ↦ downstream timed_out e.message e.original
  | network ↦ downstream connection_failed e.message e.original
  | downstream_error ↦ downstream request_failed e.message e.original
  | forward ↦ downstream request_failed e.message e.original
  | _ ↦ as_error e
]

unfoldable pub retryable : ErrorType → Bool
retryable connection = true
retryable timeout = true
retryable network = true
retryable kms_unavailable = true
retryable _ = false

unfoldable pub client_side : ErrorType → Bool
client_side validation = true
client_side invalid_params = true
client_side method_not_found = true
client_side address_mismatch = true
client_side _ = false

abbrev of_app : (ErrorType → Bool) → GoError → Bool
of_app test (app t c m d ctx cause) = test t
of_app test _ = false

unfoldable pub is_error_type : GoError → ErrorType → Bool
is_error_type e kind = of_app (λ t. str_eq (type_text t) (type_text kind)) e

unfoldable pub is_retryable : GoError → Bool
unfolding retryable
is_retryable e = of_app retryable e

unfoldable pub is_client_error : GoError → Bool
unfolding client_side
is_client_error e = of_app client_side e

-- IsServerError of converter.go.
unfoldable pub is_server_side : GoError → Bool
unfolding is_client_error
is_server_side e = not (is_client_error e)
