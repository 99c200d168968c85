-- ===== src/Jsonrpc/Codes.antt =====
-- internal/jsonrpc/errors.go: error values and their codes. `Data` is nil where it is `null`.
use web3signer_go.Base.{String, Bool, ◌&&◌, ◌||◌, ℤ, neg, ltb_ℤ, leb_ℤ, if◌then◌else◌}
use web3signer_go.Jsonrpc.Value.{Value, null}

abbrev pub code_parse_error : ℤ
code_parse_error = neg 32700

abbrev pub code_invalid_request : ℤ
code_invalid_request = neg 32600

abbrev pub code_method_not_found : ℤ
code_method_not_found = neg 32601

abbrev pub code_invalid_params : ℤ
code_invalid_params = neg 32602

abbrev pub code_internal_error : ℤ
code_internal_error = neg 32603

abbrev pub code_server_error_start : ℤ
code_server_error_start = neg 32000

abbrev pub code_server_error_end : ℤ
code_server_error_end = neg 32099

pub record RpcError : Type 0 where
  pub code : ℤ
  pub message : String
  pub content : Value

abbrev pub parse_error : RpcError
parse_error = record { code = code_parse_error; message = "Parse error"; content = null }

abbrev pub invalid_request_error : RpcError
invalid_request_error = record {
  code = code_invalid_request;
  message = "Invalid request";
  content = null;
}

abbrev pub method_not_found_error : RpcError
method_not_found_error = record {
  code = code_method_not_found;
  message = "Method not found";
  content = null;
}

abbrev pub invalid_params_error : RpcError
invalid_params_error = record {
  code = code_invalid_params;
  message = "Invalid params";
  content = null;
}

abbrev pub internal_error : RpcError
internal_error = record { code = code_internal_error; message = "Internal error"; content = null }

unfoldable pub new_server_error : ℤ → String → Value → RpcError
new_server_error code message content =
    if ltb_ℤ code code_server_error_start || ltb_ℤ code_server_error_end code
    then record { code = code_internal_error; message = message; content = content }
    else record { code = code; message = message; content = content }

pub new_custom_error : ℤ → String → Value → RpcError
new_custom_error code message content = record { code = code; message = message; content = content }

unfoldable pub is_server_error : ℤ → Bool
is_server_error code = leb_ℤ code_server_error_end code && leb_ℤ code code_server_error_start
