-- ===== src/Errors/Tests/Loggers.antt =====
-- Loggers of one session.
use web3signer_go.Base.{get_elem?, ℕ, ◌≡◌, refl, some, List, [], ◌∷◌, arith}
use web3signer_go.Base.Dict.{lookup}
use web3signer_go.Jsonrpc.Value.{Value, str}
use web3signer_go.Errors.Logger.{info, StructuredLogger, Store, own_fields, call_fields}
use web3signer_go.Errors.Logger.Laws.{
  Action, adds, names_request, logs, Session, acts, acts-call_fields,
}
use web3signer_go.Errors.Logger.Calls.{or_next, last_pair, named, lookup-call_fields}
use web3signer_go.Errors.Tests.{no_text}

abbrev server_log : StructuredLogger
server_log = record { fields = 0; request_id = "r1"; operation = "" }

abbrev store : Store
store = record { maps = (("component", str "http_server") ∷ []) ∷ []; calls = [] }

abbrev session : Session
session = record { loggers = server_log ∷ []; store = store }

abbrev steps : List (ℕ × Action)
steps =
    (0, adds (("component", str "kms") ∷ []))
    ∷ (1, names_request "r2")
    ∷ (0, logs info "started" [])
    ∷ []

abbrev pairs : List Value
pairs = str "request_id" ∷ str "r3" ∷ []

acts-call_fields_example :
    (get_elem? (acts no_text steps session).loggers 0 ≡ some server_log)
    × (call_fields server_log pairs (acts no_text steps session).store
        ≡ call_fields server_log pairs store)
acts-call_fields_example =
    acts-call_fields no_text steps session 0 server_log pairs (omega arith, tt) refl

lookup-call_fields_example :
    lookup "request_id" (call_fields server_log pairs store)
    ≡ or_next (last_pair "request_id" pairs) (
        or_next (named "operation" "" "request_id") (
          or_next
            (named "request_id" "r1" "request_id")
            (lookup "request_id" (own_fields server_log store))))
unfolding own_fields lookup
lookup-call_fields_example = lookup-call_fields "request_id" server_log pairs store (refl, tt)
