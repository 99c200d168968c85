-- ===== src/Server/Builder.antt =====
-- internal/server/builder.go: Build, from a configuration to the engine that the server runs.
pub mod Laws
pub mod Serving
pub mod Transactions
use web3signer_go.Base.{
  ltb, if◌then◌else◌, ℤ, pos, negsuc, str_eq, Result, ok, err, ◌>>=◌, ℕ, suc, ◌+◌, ◌-◌, ◌*◌, ◌%◌,
  ◌^◌, String, Bool, Option, some, List, map_err,
}
use web3signer_go.Errors.Types.{GoError, error_text}
use web3signer_go.Jsonrpc.Value.{Value}
use web3signer_go.Kms.Types.{KmsClient}
use web3signer_go.Downstream.Client.{DownstreamClient}
use web3signer_go.Signer.Transaction.{Address}
use web3signer_go.Signer.Mpc.{Hashing, MpcSigner}
use web3signer_go.Signer.MultiKey.{
  Key, Client, mpc, MultiKeySigner, new_multi_key_signer, add_client, address, multi_sign,
  multi_sign_transaction,
}
use web3signer_go.Router.Node.{Libraries, EthNode}
use web3signer_go.Router.Factory.{create_router}
use web3signer_go.Config.Whole.{Config, validate}
use web3signer_go.Server.Engine.{Engine, create_gin_router}

-- MaxRequestSizeMB * 1024 * 1024 in an int64. http.MaxBytesReader takes a negative limit for 0.
unfoldable pub max_request_size : ℤ → ℕ
max_request_size mb =
    let size = elim mb as (λ _. ℕ) [
      | pos n ↦ n * 1024 * 1024 % 2 ^ 64
      | negsuc n ↦ (2 ^ 64 - suc n * 1024 * 1024 % 2 ^ 64) % 2 ^ 64
    ] in
    if ltb size (2 ^ 63) then size else 0

-- What Build calls: the clients that it makes for the sections of the configuration, what the node
-- answers for the chain id, ethgo.HexToAddress, os.Stat, and what the libraries do.
pub record Outside (W : Type 0) : Type 0 where
  pub exists : String → Bool
  pub libs : Libraries
  pub hashing : Hashing
  pub hex_failure : List ℕ → GoError
  pub hex_to_address : String → Address
  pub kms_client : Config → KmsClient W
  pub downstream_client : Config → DownstreamClient W
  pub rpc_client : Config → Result String (EthNode W)
  pub chain_id : Config → Result String (Option ℤ)

module _ {W : Type 0} (o : Outside W) where
  unfoldable pub mpc_signer : Config → Option ℤ → MpcSigner W
  mpc_signer c chain_id = record {
    client = o.kms_client c;
    key_id = c.kms.key_id;
    address = o.hex_to_address c.kms.address;
    chain_id = chain_id;
  }

  -- A MultiKeySigner as the signer of the handlers.
  unfoldable pub as_key : MultiKeySigner W → Key W
  as_key m = record {
    address = address m;
    sign = multi_sign o.hashing o.libs.fmt_v o.hex_failure m;
    sign_transaction = multi_sign_transaction o.hashing o.libs.fmt_v o.hex_failure m;
  }

  -- From the signer on, with what the node has answered.
  unfoldable pub assemble :
      String → String → Config → EthNode W → Option ℤ → Result String (Engine W)
  unfolding new_multi_key_signer
  assemble fresh now c rpc chain_id = do
    signer ← map_err (error_text o.libs.fmt_v) (
        add_client c.kms.key_id (some (mpc (mpc_signer c chain_id)))
          (new_multi_key_signer c.kms.key_id chain_id))
    ok (
        create_gin_router o.libs fresh now c (
          create_router (max_request_size c.http.max_request_size_mb) (as_key signer)
            (o.downstream_client c) rpc))

  -- The error is what is logged before the process ends.
  unfoldable pub build : String → String → Config → Result String (Engine W)
  build fresh now given = do
    c ← validate o.exists given
    rpc ← o.rpc_client c
    chain_id ← o.chain_id c
    assemble fresh now c rpc chain_id
