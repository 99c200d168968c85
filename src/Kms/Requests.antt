-- ===== src/Kms/Requests.antt =====
-- internal/kms/client.go: the URLs of the MPC-KMS with their caches; internal/kms/types.go: the body of
-- a request for a signature.
pub mod Urls
use web3signer_go.Base.{if◌then◌else◌, str_eq, ◌+++◌, String, Option, none, some}
use web3signer_go.Jsonrpc.Value.{Value, str, obj, Fields, end, field}
use web3signer_go.Kms.Types.{SignSummary, SignRequest}

-- The client's own state.
pub record UrlCache : Type 0 where
  pub sign_url : String
  pub task_url_template : String

abbrev pub new_cache : UrlCache
new_cache = record { sign_url = ""; task_url_template = "" }

unfoldable pub reset_url_cache : UrlCache → UrlCache
reset_url_cache c = new_cache

abbrev pub or_else : String → String → String
or_else s default = if str_eq s "" then default else s

unfoldable pub get_sign_url : String → String → UrlCache → String × UrlCache
get_sign_url endpoint key_id c =
    let base = or_else c.sign_url (endpoint +++ "/api/v1/keys/") in
    (base +++ (key_id +++ "/sign"), record c { sign_url = base })

unfoldable pub get_task_url : String → String → UrlCache → String × UrlCache
get_task_url endpoint task_id c =
    let base = or_else c.task_url_template (endpoint +++ "/api/v1/tasks/") in
    (base +++ task_id, record c { task_url_template = base })

-- `omitempty`.
abbrev pub not_empty : String → String → Fields → Fields
not_empty k s fs = if str_eq s "" then fs else field k (str s) fs

abbrev pub marshal_summary : SignSummary → Value
marshal_summary s = obj (
    field "type" (str s.kind) (
      field "from" (str s.from) (
        field "to" (str s.to) (
          field "amount" (str s.amount)
            (not_empty "remark" s.remark (field "token" (str s.token) end))))))

abbrev pub summary_field : Option SignSummary → Fields → Fields
summary_field none fs = fs
summary_field (some s) fs = field "summary" (marshal_summary s) fs

unfoldable pub marshal_sign_request : SignRequest → Value
marshal_sign_request r = obj (
    field "data" (str r.content) (
      not_empty "data_encoding" r.data_encoding
        (summary_field r.summary (not_empty "callback_url" r.callback_url end))))
