-- ===== src/Errors/Converter/Laws.antt =====
-- What the conversions between the error types keep and lose.
use web3signer_go.Base.{ℤ, pos, negsuc, String, ◌≡◌, refl, ◌↔◌, ◌⊎◌, inl, inr, true, arith}
use web3signer_go.Jsonrpc.Value.{Value}
use web3signer_go.Jsonrpc.Codes.{
  RpcError, code_method_not_found, code_invalid_params, code_internal_error, is_server_error,
}
use web3signer_go.Errors.Types.{
  ErrorCode, connection_failed, request_failed, invalid_response, timed_out, id_mismatch,
  batch_size_mismatch, unlisted, GoError, rpc, downstream, app, Cause, because,
}
use web3signer_go.Errors.App.{rpc_code}
use web3signer_go.Errors.Converter.{
  rpc_type, from_downstream, convert_to_rpc, to_downstream, is_retryable, is_server_side,
}

rpc_code-kept :
    (c : ℤ)
    → (rpc_code (rpc_type c) ≡ c)
      ↔ ((c ≡ code_method_not_found) ⊎ ((c ≡ code_invalid_params) ⊎ (c ≡ code_internal_error)))
unfolding rpc_code rpc_type
rpc_code-kept (pos n) = ground arith
rpc_code-kept (negsuc n) = ground arith

rpc_code-cases :
    (c : ℤ) → (rpc_code (rpc_type c) ≡ c) ⊎ (rpc_code (rpc_type c) ≡ code_internal_error)
unfolding rpc_code rpc_type
rpc_code-cases (pos n) = ground arith
rpc_code-cases (negsuc n) = ground arith

-- Converting a JSON-RPC error to an AppError and back keeps its message, and keeps its code
-- exactly when the code is method-not-found, invalid-params or internal-error; any other code
-- comes back as internal-error.
pub convert_to_rpc-rpc :
    (fmt_v : Value → String) (e : RpcError)
    → let back = convert_to_rpc fmt_v (rpc e) in
      (back.message ≡ e.message)
      × ((back.code ≡ e.code) ↔ (
          (e.code ≡ code_method_not_found)
          ⊎ ((e.code ≡ code_invalid_params) ⊎ (e.code ≡ code_internal_error))))
      × ((back.code ≡ e.code) ⊎ (back.code ≡ code_internal_error))
unfolding convert_to_rpc
convert_to_rpc-rpc fmt_v e = (refl, rpc_code-kept e.code, rpc_code-cases e.code)

-- Of the codes that FromDownstream assigns, only that of a failed connection lies in the range
-- that JSON-RPC reserves for server errors.
pub from_downstream-is_server_error :
    (fmt_v : Value → String) (e : GoError)
    → (is_server_error (from_downstream fmt_v e).code ≡ true)
      ↔ ((m : String) × (c : Cause) × (e ≡ downstream connection_failed m c))
unfolding from_downstream is_server_error
from_downstream-is_server_error fmt_v (downstream connection_failed m c) =
    ((λ h. (m, c, refl)), (λ h. refl))
from_downstream-is_server_error fmt_v (downstream c' m c) = ground arith
from_downstream-is_server_error fmt_v _ = ground arith

abbrev pub Survives : ErrorCode → Type 0
Survives connection_failed = Unit {0}
Survives request_failed = Unit {0}
Survives timed_out = Unit {0}
Survives _ = ⊥

-- A downstream error goes to an AppError and back as a downstream error around the original,
-- whose code is the original one for a failed connection, a failed request and a timeout, and
-- request-failed for every other code.
pub to_downstream-from_downstream :
    (fmt_v : Value → String) (c : ErrorCode) (m : String) (cause : Cause)
    → let e = downstream c m cause in
      (c' : ErrorCode) × (m' : String) × (to_downstream (from_downstream fmt_v e)
        ≡ downstream c' m' (because e))
      × ((Survives c × (c' ≡ c)) ⊎ ((¬ Survives c) × (c' ≡ request_failed)))
unfolding to_downstream from_downstream
to_downstream-from_downstream fmt_v connection_failed m cause = (_, _, refl, inl (tt, refl))
to_downstream-from_downstream fmt_v request_failed m cause = (_, _, refl, inl (tt, refl))
to_downstream-from_downstream fmt_v timed_out m cause = (_, _, refl, inl (tt, refl))
to_downstream-from_downstream fmt_v invalid_response m cause = (_, _, refl, inr ((λ h. h), refl))
to_downstream-from_downstream fmt_v id_mismatch m cause = (_, _, refl, inr ((λ h. h), refl))
to_downstream-from_downstream fmt_v batch_size_mismatch m cause = (_, _, refl, inr ((λ h. h), refl))
to_downstream-from_downstream fmt_v (unlisted n) m cause = (_, _, refl, inr ((λ h. h), refl))

-- An error that may be retried is never a client error.
pub is_retryable-is_server_side : (e : GoError) → is_retryable e ≡ true → is_server_side e ≡ true
unfolding is_retryable is_server_side
is_retryable-is_server_side (app t c m d ctx cause) h = ground arith
is_retryable-is_server_side _ h = ground arith
