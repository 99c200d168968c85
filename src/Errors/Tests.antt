-- ===== src/Errors/Tests.antt =====
-- The conversions at concrete errors.
mod Loggers
use web3signer_go.Base.{String, ◌≡◌, ◌↔◌, ◌⊎◌}
use web3signer_go.Jsonrpc.Value.{Value, null}
use web3signer_go.Jsonrpc.Codes.{
  RpcError, code_method_not_found, code_invalid_params, code_internal_error,
}
use web3signer_go.Errors.Types.{GoError, rpc, downstream, no_cause, timed_out}
use web3signer_go.Errors.Converter.{convert_to_rpc}
use web3signer_go.Errors.Converter.Laws.{convert_to_rpc-rpc}

abbrev no_text : Value → String
no_text v = ""

abbrev not_there : RpcError
not_there = record { code = code_method_not_found; message = "Method not found"; content = null }

convert_to_rpc-rpc_example :
    let back = convert_to_rpc no_text (rpc not_there) in
    (back.message ≡ "Method not found")
    × ((back.code ≡ code_method_not_found) ↔ (
        (code_method_not_found ≡ code_method_not_found)
        ⊎ ((code_method_not_found ≡ code_invalid_params)
            ⊎ (code_method_not_found ≡ code_internal_error))))
    × ((back.code ≡ code_method_not_found) ⊎ (back.code ≡ code_internal_error))
convert_to_rpc-rpc_example = convert_to_rpc-rpc no_text not_there

abbrev late : GoError
late = downstream timed_out "request timeout" no_cause
