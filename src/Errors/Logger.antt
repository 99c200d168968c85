-- ===== src/Errors/Logger.antt =====
-- internal/errors/logger.go: loggers derived from one another. A Go map is shared by
-- all that hold it, so that a logger holds the place of its fields in a store.
pub mod Calls
pub mod Laws
pub mod Setup
use web3signer_go.Base.{
  ◌==◌, if◌then◌else◌, length, get_elem?, set, ℤ, pos, str_eq, ◌+++◌, ℕ, ◌+◌, String, Bool, true,
  false, not, Option, none, some, List, [], ◌∷◌, ◌++◌,
}
use web3signer_go.Base.Dict.{lookup, insert}
use web3signer_go.Errors.Types.{
  GoError, plain, app, Cause, no_cause, because, error_text, type_text, ErrorType,
}
use web3signer_go.Jsonrpc.Value.{Value, str, int}
use web3signer_go.Errors.Context.{
  Fields, Context, text_of, get_request_id, get_operation, new_context_with_request_id,
  new_context_with_operation,
}

pub data LogLevel : Type 0 where
  debug info warn error fatal panic : LogLevel

pub record StructuredLogger : Type 0 where
  pub fields : ℕ
  pub request_id : String
  pub operation : String

-- A call of logrus, `logger.WithFields(fields).Log(level, msg)`.
pub record LogCall : Type 0 where
  pub level : LogLevel
  pub message : String
  pub fields : Fields

pub record Store : Type 0 where
  pub maps : List Fields
  pub calls : List LogCall

-- A place that was never made has no fields.
abbrev or_empty : Option Fields → Fields
or_empty none = []
or_empty (some fs) = fs

unfoldable pub own_fields : StructuredLogger → Store → Fields
own_fields l st = or_empty (get_elem? st.maps l.fields)

-- `for k, v := range more { fields[k] = v }`.
unfoldable pub put_all : Fields → Fields → Fields
put_all [] fs = fs
put_all ((k, v) ∷ more) fs = put_all more (insert k v fs)

-- NewLogger, where logrus accepts the configuration.
unfoldable pub new_logger : Store → StructuredLogger × Store
new_logger st = (
  record { fields = length st.maps; request_id = ""; operation = "" },
  record st { maps = st.maps ++ [] ∷ [] },
)

unfoldable pub clone : StructuredLogger → Store → StructuredLogger × Store
unfolding own_fields put_all
clone l st = (
  record l { fields = length st.maps },
  record st { maps = st.maps ++ put_all (own_fields l st) [] ∷ [] },
)

-- `l.fields[k] = v`.
unfoldable pub write : StructuredLogger → Fields → Store → Store
unfolding own_fields put_all
write l more st = record st { maps = set st.maps l.fields (put_all more (own_fields l st)) }

-- WithField has one entry.
unfoldable pub with_fields : Fields → StructuredLogger → Store → StructuredLogger × Store
unfolding clone write
with_fields more l st = let (l', st') = clone l st in (l', write l' more st')

unfoldable pub with_request_id : String → StructuredLogger → Store → StructuredLogger × Store
unfolding clone
with_request_id id l st = let (l', st') = clone l st in (record l' { request_id = id }, st')

unfoldable pub with_operation : String → StructuredLogger → Store → StructuredLogger × Store
unfolding clone
with_operation name l st = let (l', st') = clone l st in (record l' { operation = name }, st')

unfoldable pub with_context : Context → StructuredLogger → Store → StructuredLogger × Store
unfolding clone
with_context ctx l st =
    let (l', st') = clone l st in
    let id = get_request_id ctx in (if str_eq id "" then l' else record l' { request_id = id }, st')

module _ (fmt_v : Value → String) where
  -- The details only where there are some.
  unfoldable pub error_fields : GoError → Fields
  error_fields (app t c m d ctx cause) =
      ("error_type", str (type_text t))
      ∷ ("error_code", int c)
      ∷ (if str_eq d "" then [] else ("error_details", str d) ∷ [])
  error_fields e = ("error", str (error_text fmt_v e)) ∷ []

  unfoldable pub with_error : GoError → StructuredLogger → Store → StructuredLogger × Store
  unfolding with_fields error_fields
  with_error e l st = with_fields (error_fields e) l st

unfoldable pub put_text : String → String → Fields → Fields
put_text k s fs = if str_eq s "" then fs else insert k (str s) fs

-- The pairs of keysAndValues: a key that is no text is skipped with its value, and a last key
-- without a value is dropped.
unfoldable pub put_pairs : List Value → Fields → Fields
put_pairs [] fs = fs
put_pairs (k ∷ []) fs = fs
put_pairs (str k ∷ v ∷ more) fs = put_pairs more (insert k v fs)
put_pairs (k ∷ v ∷ more) fs = put_pairs more fs

unfoldable pub call_fields : StructuredLogger → List Value → Store → Fields
unfolding own_fields put_all put_text put_pairs
call_fields l pairs st = put_pairs pairs (
    put_text "operation" l.operation
      (put_text "request_id" l.request_id (put_all (own_fields l st) [])))

-- Debugw, Infow, Warnw, Errorw, Fatalw and Panicw, each with its level.
unfoldable pub log_with_fields : LogLevel → String → List Value → StructuredLogger → Store → Store
unfolding call_fields
log_with_fields level message pairs l st = record st {
  calls =
      st.calls ++ record { level = level; message = message; fields = call_fields l pairs st } ∷ [];
}

-- `now` is time.Now().UnixNano().
unfoldable pub log_request : ℤ → String → String → Value → StructuredLogger → Store → Store
unfolding log_with_fields
log_request now method path params = log_with_fields info "HTTP request received" (
    str "method"
    ∷ str method
    ∷ str "path"
    ∷ str path
    ∷ str "params"
    ∷ params
    ∷ str "timestamp"
    ∷ int now
    ∷ [])

module _ (fmt_v : Value → String) where
  abbrev cause_of : Cause → Option GoError
  cause_of no_cause = none
  cause_of (because e) = some e

  unfoldable pub log_response :
      ℤ → ℤ → String → String → Option GoError → StructuredLogger → Store → Store
  unfolding log_with_fields
  log_response now milliseconds method path failure =
      let pairs =
        str "method"
        ∷ str method
        ∷ str "path"
        ∷ str path
        ∷ str "duration_ms"
        ∷ int milliseconds
        ∷ str "timestamp"
        ∷ int now
        ∷ [] in
      elim failure as (λ _. StructuredLogger → Store → Store) [
        | none ↦ log_with_fields info "HTTP request completed successfully" pairs
        | some e ↦
            log_with_fields error "HTTP request completed with error"
              (pairs ++ (str "error" ∷ str (error_text fmt_v e) ∷ []))
      ]

  unfoldable pub log_operation : ℤ → String → Option GoError → StructuredLogger → Store → Store
  unfolding log_with_fields
  log_operation milliseconds operation failure =
      let pairs = str "operation" ∷ str operation ∷ str "duration_ms" ∷ int milliseconds ∷ [] in
      elim failure as (λ _. StructuredLogger → Store → Store) [
        | none ↦ log_with_fields info "Operation completed successfully" pairs
        | some e ↦
            log_with_fields error "Operation failed"
              (pairs ++ (str "error" ∷ str (error_text fmt_v e) ∷ []))
      ]

  -- The pairs of a context whose keys are texts.
  unfoldable pub text_pairs : List Value → List Value
  text_pairs [] = []
  text_pairs (k ∷ []) = []
  text_pairs (str k ∷ v ∷ more) = str k ∷ v ∷ text_pairs more
  text_pairs (k ∷ v ∷ more) = text_pairs more

  -- The entries of AppError.Context, in the order in which the map is walked.
  unfoldable pub context_pairs : Fields → List Value
  context_pairs [] = []
  context_pairs ((k, v) ∷ more) = str ("context_" +++ k) ∷ v ∷ context_pairs more

  abbrev original_pairs : Cause → List Value
  original_pairs no_cause = []
  original_pairs (because e) = str "original_error" ∷ str (error_text fmt_v e) ∷ []

  unfoldable pub error_pairs : GoError → List Value
  unfolding context_pairs
  error_pairs (app t c m d ctx cause) =
      (str "error_type"
        ∷ str (type_text t)
        ∷ str "error_code"
        ∷ int c
        ∷ str "error_message"
        ∷ str m
        ∷ [])
      ++ ((if str_eq d "" then [] else str "error_details" ∷ str d ∷ [])
          ++ (original_pairs cause ++ context_pairs ctx))
  error_pairs e = str "error" ∷ str (error_text fmt_v e) ∷ []

  abbrev error_message : GoError → String
  error_message (app t c m d ctx cause) = "Application error with context"
  error_message e = "Application error occurred"

  -- LogError, and LogAppError for an AppError.
  unfoldable pub log_error : GoError → List Value → StructuredLogger → Store → Store
  unfolding log_with_fields error_pairs text_pairs
  log_error e context =
      log_with_fields error (error_message e) (error_pairs e ++ text_pairs context)
