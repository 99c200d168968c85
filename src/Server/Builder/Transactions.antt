-- ===== src/Server/Builder/Transactions.antt =====
-- From a POST with eth_signTransaction to a server that is built down to the call of the MPC-KMS.
use web3signer_go.Base.{equal_fold, true, err, ◌⊎◌, ℤ, ok, String, ◌≡◌, Option, Result}
use web3signer_go.Errors.Types.{GoError, error_text}
use web3signer_go.Jsonrpc.Value.{str}
use web3signer_go.Jsonrpc.Codes.{code_internal_error}
use web3signer_go.Jsonrpc.Types.{Request, Response}
use web3signer_go.Utils.{is_valid_eth_address}
use web3signer_go.Signer.Transaction.{Address, Transaction}
use web3signer_go.Signer.Params.{parse_transaction}
use web3signer_go.Signer.Mpc.{sign_transaction}
use web3signer_go.Router.Responses.{
  create_invalid_params_response, create_success_response, create_error_response,
}
use web3signer_go.Router.SignHandler.{SignHandler}
use web3signer_go.Config.Whole.{Config}
use web3signer_go.Server.Engine.{Engine, WebRequest, WebReply, Gin, Documented}
use web3signer_go.Server.Builder.{Outside}
use web3signer_go.Server.Builder.Laws.{configured}
use web3signer_go.Server.Builder.Serving.{answered}

module _ {W : Type 0} (o : Outside W) (g : Gin W) (doc : Documented g) where
  -- The response to eth_signTransaction for what came of the signing.
  abbrev pub transaction_response : Request → Result GoError Transaction → Response
  transaction_response q (ok tx) = create_success_response q.id (o.libs.transaction_json tx)
  transaction_response q (err e) =
      create_error_response q.id code_internal_error "Failed to sign transaction"
        (str (error_text o.libs.fmt_v e))

  abbrev pub mpc_transaction : Config → Option ℤ → Transaction → W → Result GoError Transaction × W
  mpc_transaction c chain_id =
      sign_transaction o.hashing o.libs.fmt_v o.hex_failure (configured o c chain_id)

  -- A sender that has no text or is the address given, up to case.
  abbrev pub SenderIs : Address → Address → Type 0
  SenderIs own from =
      (o.libs.ethgo.address_text from ≡ "")
      ⊎ ((is_valid_eth_address (o.libs.ethgo.address_text from) ≡ true)
          × (equal_fold (o.libs.ethgo.address_text from) (o.libs.ethgo.address_text own) ≡ true))

  -- What a request for eth_signTransaction comes to.
  abbrev pub TransactionOrRefused :
      String → Config → WebRequest → Request → W → WebReply × W → Type 0
  TransactionOrRefused fresh c req q w reply =
      ((message : String) × (reply
          ≡ answered o g doc fresh c req q (create_invalid_params_response q.id message, w)))
      ⊎ ((tx : Transaction) × (chain_id : Option ℤ) × (parse_transaction o.libs.fastjson
              o.libs.ethgo o.libs.messages q.params
            ≡ ok tx)
          × SenderIs (o.hex_to_address c.kms.address) tx.from
          × (o.chain_id c ≡ ok chain_id)
          × (reply
              ≡ answered o g doc fresh c req q (
                transaction_response q (mpc_transaction c chain_id tx w).0,
                (mpc_transaction c chain_id tx w).1,
              )))
