-- ===== src/Router/ForwardHandler.antt =====
-- internal/router/forward_handler.go: what is passed on to the node as it is.
use web3signer_go.Base.{if◌then◌else◌, str_eq, ◌+++◌, Result, ok, err, map_err, String, Bool, not}
use web3signer_go.Errors.Types.{GoError, plain, error_text}
use web3signer_go.Jsonrpc.Value.{Value, str, arr, nil}
use web3signer_go.Jsonrpc.Codes.{code_internal_error}
use web3signer_go.Jsonrpc.Types.{Request, Response}
use web3signer_go.Downstream.Client.{DownstreamClient}
use web3signer_go.Router.Responses.{create_success_response, create_error_response}
use web3signer_go.Router.SignHandler.{is_sign_method}

pub record ForwardHandler (W : Type 0) : Type 0 where
  pub client : DownstreamClient W

-- Every case but that of the signing methods says true.
unfoldable pub is_forward_method : String → Bool
unfolding is_sign_method
is_forward_method method = not (is_sign_method method)

module _ (fmt_v : Value → String) {W : Type 0} (h : ForwardHandler W) where
  unfoldable pub forward_to_downstream : Request → W → Result GoError Response × W
  forward_to_downstream req w =
      let (got, w') = h.client.forward_request req w in
      (map_err (λ e. plain ("downstream service error: " +++ error_text fmt_v e)) got, w')

  abbrev forward_answer : Request → Result GoError Response → Response
  forward_answer req (ok r) = r
  forward_answer req (err e) =
      create_error_response req.id code_internal_error "Failed to forward request"
        (str (error_text fmt_v e))

  unfoldable pub handle_forward : Request → W → Response × W
  unfolding forward_to_downstream create_success_response create_error_response
  handle_forward req w =
      if str_eq req.method "eth_accounts"
      then (create_success_response req.id (arr nil), w)
      else (let (got, w') = forward_to_downstream req w in (forward_answer req got, w'))
