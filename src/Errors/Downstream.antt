-- ===== src/Errors/Downstream.antt =====
-- internal/downstream/errors.go. WrapError of a nil error is nil, which `none` stands for.
use web3signer_go.Base.{◌+++◌, show_ℕ, ℕ, String, Bool, true, false, Option, none, some}
use web3signer_go.Jsonrpc.Value.{Value}
use web3signer_go.Errors.Types.{
  ErrorCode, connection_failed, request_failed, invalid_response, timed_out, id_mismatch,
  batch_size_mismatch, GoError, downstream, no_cause, because,
}

unfoldable pub wrap_error : Option GoError → ErrorCode → String → Option GoError
wrap_error none code message = none
wrap_error (some e) code message = some (downstream code message (because e))

-- WrapError of an error that is not nil.
abbrev pub wrapped : GoError → ErrorCode → String → GoError
wrapped e code message = downstream code message (because e)

abbrev pub connection_error : GoError → GoError
connection_error e = wrapped e connection_failed "failed to connect to downstream service"

abbrev pub request_error : GoError → GoError
request_error e = wrapped e request_failed "request to downstream service failed"

abbrev pub invalid_response_error : GoError → GoError
invalid_response_error e = wrapped e invalid_response "invalid response from downstream service"

abbrev pub timeout_error : GoError → GoError
timeout_error e = wrapped e timed_out "request to downstream service timed out"

abbrev pub batch_size_mismatch_error : ℕ → ℕ → GoError
batch_size_mismatch_error expected actual =
    downstream batch_size_mismatch
      ("batch response size mismatch: expected "
        +++ (show_ℕ expected +++ (", got " +++ show_ℕ actual)))
      no_cause

unfoldable pub id_mismatch_error : (Value → String) → Value → Value → GoError
id_mismatch_error fmt_v expected actual =
    downstream id_mismatch
      ("response ID mismatch: expected " +++ (fmt_v expected +++ (", got " +++ fmt_v actual)))
      no_cause

-- IsConnectionError, IsTimeoutError and IsInvalidResponseError look at the error itself, not at
-- what it wraps.
unfoldable pub is_connection_error : GoError → Bool
is_connection_error (downstream connection_failed m c) = true
is_connection_error _ = false

unfoldable pub is_timeout_error : GoError → Bool
is_timeout_error (downstream timed_out m c) = true
is_timeout_error _ = false

unfoldable pub is_invalid_response_error : GoError → Bool
is_invalid_response_error (downstream invalid_response m c) = true
is_invalid_response_error _ = false
