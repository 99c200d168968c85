-- ===== src/Errors/Context.antt =====
-- internal/errors/context.go: the request id and the operation in a context.
use web3signer_go.Base.{if◌then◌else◌, str_eq, String, Option, none, some, List, ◌∷◌}
use web3signer_go.Base.Dict.{lookup}
use web3signer_go.Jsonrpc.Value.{Value, str}

abbrev pub Fields : Type 0
Fields = List (String × Value)

-- The values of a context under the keys of the package; a nil context is `none`.
abbrev pub Context : Type 0
Context = Option Fields

abbrev pub text_of : Option Value → String
text_of (some (str s)) = s
text_of _ = ""

unfoldable pub get_request_id : Context → String
unfolding lookup
get_request_id none = ""
get_request_id (some values) = text_of (lookup "request_id" values)

unfoldable pub get_operation : Context → String
unfolding lookup
get_operation none = ""
get_operation (some values) = text_of (lookup "operation" values)

-- `fresh` is a new UUID.
unfoldable pub new_context_with_request_id : String → Fields → String → Context
new_context_with_request_id fresh values id =
    some (("request_id", str (if str_eq id "" then fresh else id)) ∷ values)

unfoldable pub new_context_with_operation : Fields → String → Context
new_context_with_operation values operation = some (("operation", str operation) ∷ values)
