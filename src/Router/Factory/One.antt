-- ===== src/Router/Factory/One.antt =====
-- One request for a signing method through the server's router.
use web3signer_go.Base.{true, ◌∙◌, false, arith, ◌≤◌, ok, none, [], ◌≡◌, ◌∷◌, ℕ, String, some, refl}
use web3signer_go.Jsonrpc.Parse.{parse_request}
use web3signer_go.Jsonrpc.Types.{Request, Response, marshal_responses}
use web3signer_go.Downstream.Client.{DownstreamClient}
use web3signer_go.Signer.MultiKey.{Key}
use web3signer_go.Router.Node.{Libraries, EthNode}
use web3signer_go.Router.SignHandler.{
  SignHandler, is_sign_method, handle_eth_sign, handle_eth_sign_transaction, handle_sign,
}
use web3signer_go.Router.Table.{
  select_handler, signs, wraps, Router, handle, finish_response, route_request,
}
use web3signer_go.Router.Http.{
  HttpBody, HttpReply, okay, as_forward_handler, route_all, parse_and_route, read_and_route,
  handle_http_request_with_context,
}
use web3signer_go.Router.Factory.{create_router}
use web3signer_go.Router.Factory.Laws.{create_router-select}

-- One request, through reading, parsing and the limit of a batch.
module _ (libs : Libraries) {W : Type 0} where
  abbrev pub replied : Response × W → HttpReply × W
  replied out = (okay (marshal_responses (some out.0 ∷ [])), out.1)

  pub read_one :
      (r : Router W) (method : String) (body : HttpBody) (w : W) (q : Request)
      → as_forward_handler r.default_handler ≡ none
      → body.size ≤ r.max_request_size
      → body.broken ≡ false
      → parse_request body.document ≡ ok (q ∷ [])
      → handle_http_request_with_context libs r method body w
        ≡ replied (route_request libs r (some q) w)
  unfolding handle_http_request_with_context read_and_route parse_and_route route_all
  read_one r method body w q plain fits whole good = ground arith

  -- A request whose handler is a sign handler.
  route_to_signing :
      (r : Router W) (q : Request) (w : W) (h : SignHandler W) (name : String)
      → select_handler q.method r ≡ some (wraps (signs h) name)
      → route_request libs r (some q) w ≡ (
        finish_response libs q (ok (some (handle_sign libs h q w).0)),
        (handle_sign libs h q w).1,
      )
  unfolding route_request handle
  route_to_signing r q w h name e = rw (e, route_request) refl

module _ (libs : Libraries) {W : Type 0} (max_request_size : ℕ) (signer : Key W)
    (client : DownstreamClient W) (rpc : EthNode W) where
  abbrev pub signing : SignHandler W
  signing = record { signer = signer; client = client; downstream_rpc = rpc }

  -- The handlers of two methods.
  pub handle_sign-eth_sign :
      (q : Request) (w : W)
      → q.method ≡ "eth_sign"
      → (is_sign_method q.method ≡ true)
        × (handle_sign libs signing q w ≡ handle_eth_sign libs signing q w)
  unfolding handle_sign is_sign_method
  handle_sign-eth_sign q w is_sign = (rw is_sign refl, rw is_sign refl)

  pub handle_sign-eth_sign_transaction :
      (q : Request) (w : W)
      → q.method ≡ "eth_signTransaction"
      → (is_sign_method q.method ≡ true)
        × (handle_sign libs signing q w ≡ handle_eth_sign_transaction libs signing q w)
  unfolding handle_sign is_sign_method
  handle_sign-eth_sign_transaction q w is_sign = (rw is_sign refl, rw is_sign refl)

  pub route-handle_sign :
      (q : Request) (w : W)
      → is_sign_method q.method ≡ true
      → route_request libs (create_router max_request_size signer client rpc) (some q) w ≡ (
        finish_response libs q (ok (some (handle_sign libs signing q w).0)),
        (handle_sign libs signing q w).1,
      )
  route-handle_sign q w signs_it =
      route_to_signing libs (create_router max_request_size signer client rpc) q w signing q.method
        (create_router-select max_request_size signer client rpc q.method ∙ rw signs_it refl)
