-- ===== src/Router/Factory.antt =====
-- internal/router/factory.go: the router that the server runs.
pub mod Laws
pub mod One
use web3signer_go.Base.{ok, err, ℕ}
use web3signer_go.Downstream.Client.{DownstreamClient}
use web3signer_go.Signer.MultiKey.{Key}
use web3signer_go.Router.Node.{EthNode}
use web3signer_go.Router.Table.{
  Handler, signs, forwards, wraps, Router, new_router, register, set_default_handler,
}

module _ {W : Type 0} where
  -- A failed registration is logged, and the router goes on without it.
  abbrev try_register : Handler W → Router W → Router W
  try_register h r = elim (register h r) [ err e ↦ r | ok r' ↦ r' ]

  unfoldable pub create_router : ℕ → Key W → DownstreamClient W → EthNode W → Router W
  unfolding register new_router set_default_handler
  create_router max_request_size signer client rpc =
      let sign_handler =
        signs (record { signer = signer; client = client; downstream_rpc = rpc }) in
      set_default_handler (wraps (forwards (record { client = client })) "forward_handler") (
        try_register (wraps sign_handler "eth_sendTransaction") (
          try_register (wraps sign_handler "eth_signTransaction") (
            try_register (wraps sign_handler "eth_sign")
              (try_register (wraps sign_handler "eth_accounts") (new_router max_request_size)))))
