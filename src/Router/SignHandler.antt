-- ===== src/Router/SignHandler.antt =====
-- internal/router/sign_handler.go: the methods that the MPC-KMS signs for. `W` is the world: the
-- MPC-KMS and the node.
pub mod Guards
pub mod Sending
pub mod Fees
use web3signer_go.Base.{
  ◌==◌, if◌then◌else◌, str_eq, ◌+++◌, bytes, equal_fold, Result, ok, err, ◌>>=◌, map_err, ℕ, String,
  Bool, not, ◌&&◌, ◌||◌, none, some, List, [], ◌∷◌,
}
use web3signer_go.Utils.{hex_encode, is_valid_eth_address}
use web3signer_go.Errors.Types.{GoError, error_text}
use web3signer_go.Jsonrpc.Value.{null, str, arr, of_items}
use web3signer_go.Jsonrpc.Codes.{code_internal_error, code_method_not_found}
use web3signer_go.Jsonrpc.Types.{jsonrpc_version, Request, Response}
use web3signer_go.Downstream.Client.{DownstreamClient}
use web3signer_go.Signer.Transaction.{Transaction}
use web3signer_go.Signer.Params.{parse_transaction, parse_sign_params}
use web3signer_go.Signer.MultiKey.{Key}
use web3signer_go.Router.Responses.{
  create_success_response, create_error_response, create_invalid_params_response,
}
use web3signer_go.Router.Node.{EthNode, Libraries, fill_gas_price, call_msg, with_margin}

pub record SignHandler (W : Type 0) : Type 0 where
  pub signer : Key W
  pub client : DownstreamClient W
  pub downstream_rpc : EthNode W

unfoldable pub is_sign_method : String → Bool
is_sign_method method =
    str_eq method "eth_accounts"
    || str_eq method "eth_sign"
    || str_eq method "eth_signTransaction"
    || str_eq method "eth_sendTransaction"

module _ (libs : Libraries) {W : Type 0} (h : SignHandler W) where
  abbrev text : GoError → String
  text = error_text libs.fmt_v

  abbrev because : String → GoError → String
  because prefix e = prefix +++ (": " +++ text e)

  -- A response with the text of an error.
  abbrev pub failure : Request → String → String → Response
  failure req message e = create_error_response req.id code_internal_error message (str e)

  unfoldable pub handle_eth_accounts : Request → Response
  unfolding create_success_response
  handle_eth_accounts req =
      create_success_response req.id
        (arr (of_items (str (libs.ethgo.address_text h.signer.address) ∷ [])))

  -- The parameters of eth_sign that are signed: the 32 bytes, for the signer's own address.
  unfoldable pub sign_subject : Request → Result String (List ℕ)
  sign_subject req =
      map_err (λ e. "Invalid parameters: " +++ e)
        (parse_sign_params libs.fastjson libs.ethgo libs.messages req.params)
      >>= λ (address, content).
          if not (is_valid_eth_address address)
          then err "Invalid Ethereum address format"
          else if not (equal_fold address (libs.ethgo.address_text h.signer.address))
          then err "Address mismatch"
          else ok content

  abbrev pub sign_answer : Request → Result GoError (List ℕ) → Response
  sign_answer req (err e) = failure req "Failed to sign data" (text e)
  sign_answer req (ok signature) = create_success_response req.id (str (hex_encode signature))

  unfoldable pub handle_eth_sign : Request → W → Response × W
  unfolding create_success_response create_error_response create_invalid_params_response
  handle_eth_sign req w = elim (sign_subject req) [
    | err message ↦ (create_invalid_params_response req.id message, w)
    | ok content ↦ let (got, w') = h.signer.sign content w in (sign_answer req got, w')
  ]

  -- The transaction that is signed: its sender is the signer. The texts of the errors differ
  -- between the two methods.
  unfoldable pub sender_checked :
      String → String → Result String Transaction → Result String Transaction
  sender_checked bad_format mismatch parsed = parsed >>= λ tx.
      let from = libs.ethgo.address_text tx.from in
      if not (str_eq from "") && not (is_valid_eth_address from)
      then err bad_format
      else if not (str_eq from "")
          && not (equal_fold from (libs.ethgo.address_text h.signer.address))
      then err mismatch
      else ok tx

  abbrev pub parsed : Request → Result String Transaction
  parsed req = parse_transaction libs.fastjson libs.ethgo libs.messages req.params

  abbrev pub transaction_answer : Request → Result GoError Transaction → Response
  transaction_answer req (err e) = failure req "Failed to sign transaction" (text e)
  transaction_answer req (ok tx) = create_success_response req.id (libs.transaction_json tx)

  unfoldable pub handle_eth_sign_transaction : Request → W → Response × W
  unfolding create_success_response create_error_response create_invalid_params_response
  handle_eth_sign_transaction req w =
      elim (sender_checked "Invalid From address format" "From address mismatch"
        (map_err (λ e. "Invalid transaction parameters: " +++ e) (parsed req))) [
          | err message ↦ (create_invalid_params_response req.id message, w)
          | ok tx ↦
              let (got, w') = h.signer.sign_transaction tx w in (transaction_answer req got, w')
        ]

  unfoldable pub validate_request : Request → Result String Transaction
  unfolding sender_checked
  validate_request req =
      sender_checked "invalid From address format" "from address mismatch"
        (map_err (λ e. "invalid transaction parameters: " +++ e) (parsed req))

  unfoldable pub fetch_nonce : Transaction → W → Result String ℕ × W
  fetch_nonce tx w =
      if not (tx.nonce == 0)
      then (ok tx.nonce, w)
      else (let (got, w') = h.downstream_rpc.get_nonce h.signer.address w in
          (map_err (because "failed to get nonce") got, w'))

  unfoldable pub fetch_gas_price : Transaction → W → Result String Transaction × W
  unfolding fill_gas_price
  fetch_gas_price tx w =
      let (got, w') = h.downstream_rpc.gas_price w in
      (map_err (because "failed to get gasPrice") got >>= λ price. ok (fill_gas_price price tx), w')

  unfoldable pub estimate_gas_if_needed : Transaction → W → Result String Transaction × W
  unfolding call_msg with_margin
  estimate_gas_if_needed tx w =
      if not (tx.gas == 0)
      then (ok tx, w)
      else (let (got, w') = h.downstream_rpc.estimate_gas (call_msg h.signer.address tx) w in
          (
            map_err (because "failed to estimate gas") got >>= λ estimated.
                ok (record tx { gas = with_margin estimated }),
            w',
          ))

  unfoldable pub sign_prepared : Transaction → W → Result String Transaction × W
  sign_prepared tx w =
      let (got, w') = h.signer.sign_transaction tx w in
      (map_err (because "failed to sign transaction") got, w')

  abbrev pub raw_request : Request → List ℕ → Request
  raw_request req rlp = record {
    jsonrpc = "2.0";
    method = "eth_sendRawTransaction";
    params = some (arr (of_items (str ("0x" +++ hex_encode rlp) ∷ [])));
    id = req.id;
  }

  -- A response without an error gets the id of the request.
  abbrev pub answered_as : Request → Response → Response
  answered_as req r = elim r.error [
    | some e ↦ r
    | none ↦ record r { id = req.id; jsonrpc = jsonrpc_version }
  ]

  unfoldable pub forward_transaction : Request → Transaction → W → Result String Response × W
  forward_transaction req signed w = elim (libs.marshal_rlp signed) [
    | err e ↦ (err (because "failed to marshal transaction" e), w)
    | ok rlp ↦
        let (got, w') = h.client.forward_request (raw_request req rlp) w in
        (map_err (because "failed to forward transaction") got >>= λ r. ok (answered_as req r), w')
  ]

  -- A step of eth_sendTransaction: an error ends it with a response of its own.
  abbrev step :
      {A : Type 0} → Request → String → Result String A × W → (A → W → Response × W) → Response × W
  step req message (err e, w) next = (failure req message e, w)
  step req message (ok a, w) next = next a w

  abbrev forward_signed : Request → Transaction → W → Response × W
  forward_signed req signed w =
      step req "Failed to forward transaction" (forward_transaction req signed w) λ r w'. (r, w')

  abbrev sign_and_forward : Request → Transaction → W → Response × W
  sign_and_forward req tx w =
      step req "Failed to sign transaction" (sign_prepared tx w) (forward_signed req)

  abbrev estimate_and_send : Request → Transaction → W → Response × W
  estimate_and_send req tx w =
      step req "Failed to estimate gas" (estimate_gas_if_needed tx w) (sign_and_forward req)

  abbrev price_and_send : Request → Transaction → ℕ → W → Response × W
  price_and_send req tx nonce w =
      step req "Failed to get gasPrice" (fetch_gas_price (record tx { nonce = nonce }) w)
        (estimate_and_send req)

  unfoldable pub handle_eth_send_transaction : Request → W → Response × W
  unfolding create_error_response create_invalid_params_response
  handle_eth_send_transaction req w = elim (validate_request req) [
    | err e ↦ (create_invalid_params_response req.id ("Invalid transaction parameters: " +++ e), w)
    | ok tx ↦ step req "Failed to get nonce" (fetch_nonce tx w) (price_and_send req tx)
  ]

  unfoldable pub handle_sign : Request → W → Response × W
  unfolding handle_eth_accounts handle_eth_sign handle_eth_sign_transaction
      handle_eth_send_transaction create_error_response
  handle_sign req w =
      if str_eq req.method "eth_accounts"
      then (handle_eth_accounts req, w)
      else if str_eq req.method "eth_sign"
      then handle_eth_sign req w
      else if str_eq req.method "eth_signTransaction"
      then handle_eth_sign_transaction req w
      else if str_eq req.method "eth_sendTransaction"
      then handle_eth_send_transaction req w
      else (
        create_error_response req.id code_method_not_found "Method not supported by sign handler"
            null,
        w,
      )
