-- ===== src/Errors/Types.antt =====
-- The dynamic types behind the `error` interface: text of fmt.Errorf, *jsonrpc.Error,
-- *downstream.Error (internal/downstream/errors.go) and *AppError (internal/errors/errors.go).
use web3signer_go.Base.{if◌then◌else◌, ℤ, pos, str_eq, ◌+++◌, show_ℤ, String, List}
use web3signer_go.Jsonrpc.Value.{Value, null}
use web3signer_go.Jsonrpc.Codes.{RpcError}

-- ErrorType is a string; a value that is no constant of the package is `other`.
pub data ErrorType : Type 0 where
  internal config validation connection timeout network : ErrorType
  kms_sign kms_auth kms_unavailable sign invalid_signature address_mismatch : ErrorType
  invalid_transaction transaction_build json_rpc method_not_found invalid_params : ErrorType
  downstream_error forward : ErrorType
  other : String → ErrorType

unfoldable pub type_text : ErrorType → String
type_text internal = "INTERNAL_ERROR"
type_text config = "CONFIG_ERROR"
type_text validation = "VALIDATION_ERROR"
type_text connection = "CONNECTION_ERROR"
type_text timeout = "TIMEOUT_ERROR"
type_text network = "NETWORK_ERROR"
type_text kms_sign = "KMS_SIGN_ERROR"
type_text kms_auth = "KMS_AUTH_ERROR"
type_text kms_unavailable = "KMS_UNAVAILABLE"
type_text sign = "SIGN_ERROR"
type_text invalid_signature = "INVALID_SIGNATURE"
type_text address_mismatch = "ADDRESS_MISMATCH"
type_text invalid_transaction = "INVALID_TRANSACTION"
type_text transaction_build = "TRANSACTION_BUILD_ERROR"
type_text json_rpc = "JSONRPC_ERROR"
type_text method_not_found = "METHOD_NOT_FOUND"
type_text invalid_params = "INVALID_PARAMS"
type_text downstream_error = "DOWNSTREAM_ERROR"
type_text forward = "FORWARD_ERROR"
type_text (other s) = s

-- downstream.ErrorCode is an int that counts its constants from 1; any other int is `unlisted`.
pub data ErrorCode : Type 0 where
  connection_failed request_failed invalid_response timed_out id_mismatch : ErrorCode
  batch_size_mismatch : ErrorCode
  unlisted : ℤ → ErrorCode

unfoldable pub code_number : ErrorCode → ℤ
code_number connection_failed = pos 1
code_number request_failed = pos 2
code_number invalid_response = pos 3
code_number timed_out = pos 4
code_number id_mismatch = pos 5
code_number batch_size_mismatch = pos 6
code_number (unlisted n) = n

mutual
  pub data GoError : Type 0 where
    plain : String → GoError
    rpc : RpcError → GoError
    downstream : ErrorCode → String → Cause → GoError
    app : ErrorType → ℤ → String → String → List (String × Value) → Cause → GoError

  -- A field of type `error`, which may be nil.
  pub data Cause : Type 0 where
    no_cause : Cause
    because : GoError → Cause

-- `fmt_v` is what `%v` prints for a value of type interface{}.
module _ (fmt_v : Value → String) where
  abbrev rpc_text : RpcError → Value → String
  rpc_text e null = "JSON-RPC error " +++ (show_ℤ e.code +++ (": " +++ e.message))
  rpc_text e v =
      "JSON-RPC error "
      +++ (show_ℤ e.code +++ (": " +++ (e.message +++ (" (data: " +++ (fmt_v v +++ ")")))))

  -- [type:code], as AppError.Error prints it.
  abbrev app_tag : ErrorType → ℤ → String
  app_tag t c = " [" +++ (type_text t +++ (":" +++ (show_ℤ c +++ "]")))

  abbrev details_text : String → String
  details_text d = " (details: " +++ (d +++ ")")

  unfoldable mutual
    -- The Error method of each type.
    pub error_text : GoError → String
    error_text (plain s) = s
    error_text (rpc e) = rpc_text e e.content
    error_text (downstream c m cause) =
        "downstream error [" +++ (show_ℤ (code_number c) +++ ("]: " +++ (m +++ cause_text cause)))
    error_text (app t c m d ctx cause) =
        m +++ (app_tag t c +++ (cause_text cause +++ (if str_eq d "" then "" else details_text d)))

    -- `: ` and the text of the wrapped error, if there is one.
    pub cause_text : Cause → String
    cause_text no_cause = ""
    cause_text (because e) = ": " +++ error_text e
