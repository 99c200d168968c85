-- ===== src/Kms/Wire.antt =====
-- internal/kms/types.go: how encoding/json reads the answers of the MPC-KMS.
use web3signer_go.Base.{if◌then◌else◌, ℤ, pos, str_eq, equal_fold, String, Option, none, some}
use web3signer_go.Jsonrpc.Value.{Value, null, obj, Fields, end, field}
use web3signer_go.Jsonrpc.Parse.{decode_string}
use web3signer_go.Downstream.Wire.{decode_int}
use web3signer_go.Kms.Types.{
  TaskStatus, pending_approval, approved, rejected, done, failed, unknown, TaskResult,
}

-- The members of an object, read one after the other into a struct.
abbrev decode_members {ℓ} : {A : Type ℓ} → (String → Value → A → Option A) → Fields → A → Option A
decode_members member end a = some a
decode_members member (field k v fs) a = elim (member k v a) [
  | none ↦ none
  | some a' ↦ decode_members member fs a'
]

-- json.Unmarshal into a struct whose zero value is `a`; null leaves it as it is.
abbrev decode_struct {ℓ} : {A : Type ℓ} → (String → Value → A → Option A) → A → Value → Option A
decode_struct member a null = some a
decode_struct member a (obj fs) = decode_members member fs a
decode_struct member a _ = none

-- A struct with the one string field `name`.
abbrev only_string : String → String → Value → String → Option String
only_string name k v old = if equal_fold k name then decode_string v old else some old

-- SignResponse and TaskResponse, each its one field.
unfoldable pub unmarshal_sign_response : Value → Option String
unmarshal_sign_response v = decode_struct (only_string "signature") "" v

unfoldable pub unmarshal_task_response : Value → Option String
unmarshal_task_response v = decode_struct (only_string "task_id") "" v

-- TaskStatus is the string itself.
unfoldable pub status_of : String → TaskStatus
status_of s =
    if str_eq s "PENDING_APPROVAL"
    then pending_approval
    else if str_eq s "APPROVED"
    then approved
    else if str_eq s "REJECTED"
    then rejected
    else if str_eq s "DONE"
    then done
    else if str_eq s "FAILED"
    then failed
    else unknown s

record RawResult : Type 0 where
  status : String
  message : String
  response : String

abbrev result_member : String → Value → RawResult → Option RawResult
result_member k v r =
    if equal_fold k "status"
    then elim (decode_string v r.status) [ none ↦ none | some s ↦ some (record r { status = s }) ]
    else if equal_fold k "msg"
    then elim (decode_string v r.message) [ none ↦ none | some s ↦ some (record r { message = s }) ]
    else if equal_fold k "response"
    then elim (decode_string v r.response) [
      | none ↦ none
      | some s ↦ some (record r { response = s })
    ]
    else some r

unfoldable pub unmarshal_task_result : Value → Option TaskResult
unfolding status_of
unmarshal_task_result v =
    elim (decode_struct result_member (record { status = ""; message = ""; response = "" }) v) [
      | none ↦ none
      | some r ↦
          some (record { status = status_of r.status; message = r.message; response = r.response })
    ]

pub record ErrorResponse : Type 0 where
  pub code : ℤ
  pub message : String

abbrev error_member : String → Value → ErrorResponse → Option ErrorResponse
error_member k v r =
    if equal_fold k "code"
    then elim (decode_int v r.code) [ none ↦ none | some n ↦ some (record r { code = n }) ]
    else if equal_fold k "message"
    then elim (decode_string v r.message) [ none ↦ none | some s ↦ some (record r { message = s }) ]
    else some r

unfoldable pub unmarshal_error_response : Value → Option ErrorResponse
unmarshal_error_response v = decode_struct error_member (record { code = pos 0; message = "" }) v
