-- ===== src/Router/Factory/Laws.antt =====
-- Where the server's router sends a method, and how it treats a batch.
use web3signer_go.Base.{
  refl, if◌then◌else◌, length, ok, ℕ, ◌≤◌, String, ◌≡◌, Option, none, some, List, map, arith,
  eq_iff,
}
use web3signer_go.Base.Dict.{lookup, insert}
use web3signer_go.Jsonrpc.Value.{Value}
use web3signer_go.Jsonrpc.Parse.{parse_request}
use web3signer_go.Jsonrpc.Types.{Request, marshal_responses}
use web3signer_go.Downstream.Client.{DownstreamClient}
use web3signer_go.Signer.MultiKey.{Key}
use web3signer_go.Router.Node.{Libraries, EthNode}
use web3signer_go.Router.SignHandler.{is_sign_method}
use web3signer_go.Router.Table.{
  Handler, signs, forwards, wraps, method_of, register, select_handler, get_handler,
}
use web3signer_go.Router.Http.{as_forward_handler, max_batch_size, parse_and_route, route_all, okay}
use web3signer_go.Router.Factory.{create_router}

module _ {W : Type 0} (max_request_size : ℕ) (signer : Key W) (client : DownstreamClient W)
    (rpc : EthNode W) where
  abbrev pub sign_handler : Handler W
  sign_handler = signs (record { signer = signer; client = client; downstream_rpc = rpc })

  -- The router of the server sends the four signing methods to the sign handler, under their
  -- names, and every other method to the handler that forwards to the node.
  pub create_router-select :
      (method : String)
      → select_handler method (create_router max_request_size signer client rpc)
        ≡ some (
            if is_sign_method method
            then wraps sign_handler method
            else wraps (forwards (record { client = client })) "forward_handler")
  unfolding select_handler get_handler create_router is_sign_method lookup insert register method_of
  create_router-select method = ground (
    arith,
    eq_iff "eth_accounts" method,
    eq_iff method "eth_accounts",
    eq_iff "eth_sign" method,
    eq_iff method "eth_sign",
    eq_iff "eth_signTransaction" method,
    eq_iff method "eth_signTransaction",
    eq_iff "eth_sendTransaction" method,
    eq_iff method "eth_sendTransaction",
  )

  pub create_router-default :
      as_forward_handler (create_router max_request_size signer client rpc).default_handler ≡ none
  unfolding create_router as_forward_handler
  create_router-default = ground arith

  pub create_router-limit :
      (create_router max_request_size signer client rpc).max_request_size ≡ max_request_size
  unfolding create_router lookup insert
  create_router-limit = refl

  -- The router of the server routes the requests of an accepted batch of at most 100 one after
  -- the other and never forwards them to the node in one batch, since its default handler is a
  -- MethodHandler.
  pub create_router-one_by_one :
      (libs : Libraries) (document : Option Value) (reqs : List Request) (w : W)
      → parse_request document ≡ ok reqs
      → length reqs ≤ max_batch_size
      → parse_and_route libs (create_router max_request_size signer client rpc) document w ≡ (
        okay (
            marshal_responses (
              map some
                (route_all libs (create_router max_request_size signer client rpc) reqs w).0)),
        (route_all libs (create_router max_request_size signer client rpc) reqs w).1,
      )
  unfolding parse_and_route
  create_router-one_by_one libs document reqs w e n =
      let plain = create_router-default in ground arith
