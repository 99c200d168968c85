-- ===== src/Server/Builder/Laws.antt =====
-- The server that is built.
use mathlib.Core.Path.{fun_ext}
use web3signer_go.Base.{
  ◌↔◌, [], ℤ, pos, Result, ok, ◌>>=◌, >>=-eq-ok, ℕ, ◌*◌, ◌^◌, ◌<◌, String, ◌≡◌, ◌≢◌, ◌∙◌, ◌↔◌, sym,
  ap, refl, Option, some, arith, eq_iff,
}
use web3signer_go.Base.Dict.{lookup, insert}
use web3signer_go.Signer.Mpc.{MpcSigner, sign, sign_transaction}
use web3signer_go.Signer.MultiKey.{
  Key, mpc, MultiKeySigner, new_multi_key_signer, add_client, get_client, address, multi_sign,
  multi_sign_transaction,
}
use web3signer_go.Router.Node.{EthNode}
use web3signer_go.Router.Factory.{create_router}
use web3signer_go.Config.Whole.{Config, validate}
use web3signer_go.Config.Laws.{IsChecked, with_defaults, validate_iff}
use web3signer_go.Server.Engine.{Engine, create_gin_router}
use web3signer_go.Server.Builder.{max_request_size, Outside, mpc_signer, as_key, assemble, build}

module _ {W : Type 0} (o : Outside W) where
  -- The signer of the configuration: its key id, its address, and the chain id of the node.
  abbrev pub configured : Config → Option ℤ → MpcSigner W
  configured c chain_id = record {
    client = o.kms_client c;
    key_id = c.kms.key_id;
    address = o.hex_to_address c.kms.address;
    chain_id = chain_id;
  }

  -- The signer with the one key of the configuration.
  pub record IsOwnKey (c : Config) (chain_id : Option ℤ) (key : Key W) : Type 0 where
    pub own_address : key.address ≡ o.hex_to_address c.kms.address
    pub own_sign : key.sign ≡ sign o.hashing o.libs.fmt_v o.hex_failure (configured c chain_id)
    pub own_sign_transaction :
        key.sign_transaction
        ≡ sign_transaction o.hashing o.libs.fmt_v o.hex_failure (configured c chain_id)

  abbrev own_signer : Config → Option ℤ → MultiKeySigner W
  own_signer c chain_id = record {
    clients = insert c.kms.key_id (mpc (mpc_signer o c chain_id)) [];
    default_key_id = c.kms.key_id;
    chain_id = chain_id;
  }

  added :
      (c : Config) (chain_id : Option ℤ)
      → c.kms.key_id ≢ ""
      → add_client c.kms.key_id
          (some (mpc (mpc_signer o c chain_id)))
          (new_multi_key_signer c.kms.key_id chain_id)
        ≡ ok (own_signer c chain_id)
  unfolding add_client new_multi_key_signer lookup
  added c chain_id given = ground (arith, eq_iff c.kms.key_id "")

  IsOwnKey-own_signer :
      (c : Config) (chain_id : Option ℤ) → IsOwnKey c chain_id (as_key o (own_signer c chain_id))
  unfolding as_key address get_client lookup insert multi_sign multi_sign_transaction mpc_signer
  IsOwnKey-own_signer c chain_id = record {
    own_address = ground (arith, eq_iff c.kms.key_id c.kms.key_id);
    own_sign = fun_ext (λ hash. fun_ext (λ w. ground (arith, eq_iff c.kms.key_id c.kms.key_id)));
    own_sign_transaction =
        fun_ext (λ tx. fun_ext (λ w. ground (arith, eq_iff c.kms.key_id c.kms.key_id)));
  }

  IsOwnKey-unique :
      (c : Config) (chain_id : Option ℤ) (key key' : Key W)
      → IsOwnKey c chain_id key
      → IsOwnKey c chain_id key'
      → key ≡ key'
  IsOwnKey-unique c chain_id key key' k k' i = record {
    address = (k.own_address ∙ sym k'.own_address) i;
    sign = (k.own_sign ∙ sym k'.own_sign) i;
    sign_transaction = (k.own_sign_transaction ∙ sym k'.own_sign_transaction) i;
  }

  abbrev pub engine_of : String → String → Config → EthNode W → Key W → Engine W
  engine_of fresh now c rpc key =
      create_gin_router o.libs fresh now c (
        create_router (max_request_size c.http.max_request_size_mb) key (o.downstream_client c) rpc)

  -- From a checked configuration, with its defaults, and what the node answered.
  abbrev pub Assembled : String → String → Config → Engine W → Type 0
  Assembled fresh now c engine =
      (rpc : EthNode W) × (chain_id : Option ℤ) × (key : Key W) × (o.rpc_client c ≡ ok rpc)
      × (o.chain_id c ≡ ok chain_id)
      × IsOwnKey c chain_id key
      × (engine ≡ engine_of fresh now c rpc key)

  module _ (fresh now : String) (c : Config) (given : c.kms.key_id ≢ "") where
    assemble-ok :
        (rpc : EthNode W) (chain_id : Option ℤ)
        → assemble o fresh now c rpc chain_id
          ≡ ok (engine_of fresh now c rpc (as_key o (own_signer c chain_id)))
    unfolding assemble
    assemble-ok rpc chain_id = rw (added c chain_id given) refl

    abbrev assembled : Result String (Engine W)
    assembled =
        o.rpc_client c >>= λ rpc. o.chain_id c >>= λ chain_id. assemble o fresh now c rpc chain_id

    assembled-to : (engine : Engine W) → assembled ≡ ok engine → Assembled fresh now c engine
    assembled-to engine h =
        let (rpc, rpc_is, h₁) = >>=-eq-ok (o.rpc_client c) _ h in
        let (chain_id, chain_is, h₂) = >>=-eq-ok (o.chain_id c) _ h₁ in
        (
          rpc,
          chain_id,
          as_key o (own_signer c chain_id),
          rpc_is,
          chain_is,
          IsOwnKey-own_signer c chain_id,
          cc (h₂, assemble-ok rpc chain_id),
        )

    assembled-from : (engine : Engine W) → Assembled fresh now c engine → assembled ≡ ok engine
    assembled-from engine (rpc, chain_id, key, rpc_is, chain_is, own, same) =
        rw (rpc_is, chain_is)
          (assemble-ok rpc chain_id
            ∙ ap (λ k. ok (engine_of fresh now c rpc k))
                (IsOwnKey-unique c chain_id _ key (IsOwnKey-own_signer c chain_id) own)
            ∙ ap ok (sym same))

  -- Build gives an engine exactly when the configuration passes its checks and the node
  -- answers; the engine is that of the configuration with its defaults, with a router whose
  -- signer has the configured address and signs with the MPC-KMS under the configured key id
  -- and the node's chain id.
  pub build_iff :
      (fresh now : String) (given : Config) (engine : Engine W)
      → (build o fresh now given ≡ ok engine)
        ↔ (IsChecked o.exists given × Assembled fresh now (with_defaults given) engine)
  unfolding build
  build_iff fresh now given engine = (to, from)
    where
      checked : IsChecked o.exists given → validate o.exists given ≡ ok (with_defaults given)
      checked v = (validate_iff o.exists given (with_defaults given)).1 (v, refl)

      to :
          build o fresh now given ≡ ok engine
          → IsChecked o.exists given × Assembled fresh now (with_defaults given) engine
      to h =
          let (c, c_is, rest) = >>=-eq-ok (validate o.exists given) _ h in
          let v = ((validate_iff o.exists given c).0 c_is).0 in
          (
            v,
            assembled-to fresh now (with_defaults given) v.kms.key_id engine (rw (checked v) at h),
          )

      from :
          IsChecked o.exists given × Assembled fresh now (with_defaults given) engine
          → build o fresh now given ≡ ok engine
      from (v, a) =
          rw (checked v) (assembled-from fresh now (with_defaults given) v.kms.key_id engine a)

-- Unless the size overflows an int64, the limit is the megabytes of the configuration.
max_request_size_lem : (n : ℕ) → n < 2 ^ 43 → max_request_size (pos n) ≡ n * 1048576
unfolding max_request_size
max_request_size_lem n h = ground arith
