-- ===== src/Router/Table.antt =====
-- internal/router/router.go: the table of the handlers, and the routing of one request.
pub mod Laws
use web3signer_go.Base.{
  if◌then◌else◌, str_eq, ◌+++◌, Result, ok, err, ℕ, ◌*◌, String, Bool, true, false, Option, none,
  some, List, [],
}
use web3signer_go.Base.Dict.{lookup, insert, delete}
use web3signer_go.Errors.Types.{GoError, plain, rpc, error_text}
use web3signer_go.Jsonrpc.Value.{null, str}
use web3signer_go.Jsonrpc.Codes.{
  RpcError, code_internal_error, invalid_request_error, method_not_found_error, internal_error,
  new_server_error,
}
use web3signer_go.Jsonrpc.Types.{jsonrpc_version, Request, Response, new_error_response}
use web3signer_go.Router.Node.{Libraries}
use web3signer_go.Router.SignHandler.{SignHandler, handle_sign}
use web3signer_go.Router.ForwardHandler.{ForwardHandler, handle_forward}

-- The dynamic types behind the Handler interface; `wraps` is a MethodHandler of factory.go. The
-- response of a handler may be nil.
pub data Handler (W : Type 0) : Type 0 where
  signs : SignHandler W → Handler W
  forwards : ForwardHandler W → Handler W
  wraps : Handler W → String → Handler W
  other : String → (Request → W → Result GoError (Option Response) × W) → Handler W

unfoldable pub method_of : {W : Type 0} → Handler W → String
method_of (signs h) = "sign_handler"
method_of (forwards h) = "forward_handler"
method_of (wraps h method) = method
method_of (other method f) = method

pub record Router (W : Type 0) : Type 0 where
  pub handlers : List (String × Handler W)
  pub default_handler : Option (Handler W)
  pub max_request_size : ℕ

abbrev pub default_max_request_size : ℕ
default_max_request_size = 10 * 1024 * 1024

unfoldable pub new_router : {W : Type 0} → ℕ → Router W
new_router max_request_size = record {
  handlers = [];
  default_handler = none;
  max_request_size = max_request_size;
}

module _ {W : Type 0} where
  unfoldable pub set_default_handler : Handler W → Router W → Router W
  set_default_handler h r = record r { default_handler = some h }

  unfoldable pub register : Handler W → Router W → Result GoError (Router W)
  unfolding method_of
  register h r =
      let method = method_of h in
      if str_eq method ""
      then err (plain "handler method name cannot be empty")
      else elim (lookup method r.handlers) [
        | some old ↦ err (plain ("handler for method " +++ (method +++ " already registered")))
        | none ↦ ok (record r { handlers = insert method h r.handlers })
      ]

  unfoldable pub unregister : String → Router W → Router W
  unregister method r = record r { handlers = delete method r.handlers }

  unfoldable pub get_handler : String → Router W → Option (Handler W)
  get_handler method r = lookup method r.handlers

  unfoldable pub has_handler : String → Router W → Bool
  unfolding get_handler
  has_handler method r = elim (get_handler method r) [ none ↦ false | some h ↦ true ]

  abbrev or_default : Option (Handler W) → Option (Handler W) → Option (Handler W)
  or_default (some h) default = some h
  or_default none default = default

  -- The handler that a request goes to.
  unfoldable pub select_handler : String → Router W → Option (Handler W)
  unfolding get_handler
  select_handler method r = or_default (get_handler method r) r.default_handler

module _ (libs : Libraries) where
  -- The error of a handler: a *jsonrpc.Error as it is, any other as an internal error.
  unfoldable pub error_of : String → GoError → RpcError
  unfolding new_server_error
  error_of message (rpc e) = e
  error_of message e = new_server_error code_internal_error message (str (error_text libs.fmt_v e))

  -- What a handler returned, as the response to the request.
  unfoldable pub finish_response : Request → Result GoError (Option Response) → Response
  unfolding new_error_response error_of
  finish_response req (err e) = new_error_response req.id (error_of "Internal server error" e)
  finish_response req (ok none) = new_error_response req.id internal_error
  finish_response req (ok (some r)) = record r { id = req.id; jsonrpc = jsonrpc_version }

  module _ {W : Type 0} where
    unfoldable pub handle : Handler W → Request → W → Result GoError (Option Response) × W
    handle (signs h) req w = let (r, w') = handle_sign libs h req w in (ok (some r), w')
    handle (forwards h) req w = let (r, w') = handle_forward libs.fmt_v h req w in (ok (some r), w')
    handle (wraps h method) req w = handle h req w
    handle (other method f) req w = f req w

    -- A nil request is `none`.
    unfoldable pub route_request : Router W → Option Request → W → Response × W
    unfolding new_error_response select_handler finish_response
    route_request r none w = (new_error_response null invalid_request_error, w)
    route_request r (some req) w = elim (select_handler req.method r) [
      | none ↦ (new_error_response req.id method_not_found_error, w)
      | some h ↦ let (got, w') = handle h req w in (finish_response req got, w')
    ]

    -- Route and RouteWithContext.
    unfoldable pub route : Router W → Option Request → W → Response × W
    unfolding route_request
    route r req w = route_request r req w
