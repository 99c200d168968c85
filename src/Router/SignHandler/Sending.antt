-- ===== src/Router/SignHandler/Sending.antt =====
-- eth_sendTransaction: what a sent transaction rests on.
use web3signer_go.Base.{
  Result, ok, err, Result-cases, map_err-ok, ℕ, String, ◌≡◌, refl, ap, ap₂, subst, ◌∙◌, inl, inr,
  none, List, arith,
}
use web3signer_go.Jsonrpc.Types.{Request, Response}
use web3signer_go.Signer.Transaction.{Transaction}
use web3signer_go.Router.Responses.{create_error_response, create_invalid_params_response}
use web3signer_go.Router.Node.{Libraries, fill_gas_price}
use web3signer_go.Router.SignHandler.{
  SignHandler, parsed, validate_request, step, fetch_nonce, fetch_gas_price, estimate_gas_if_needed,
  sign_prepared, forward_transaction, raw_request, answered_as, handle_eth_send_transaction,
  price_and_send, estimate_and_send, sign_and_forward, forward_signed,
}
use web3signer_go.Router.SignHandler.Guards.{OwnSender, sender_checked-ok}

module _ (libs : Libraries) {W : Type 0} (h : SignHandler W) where
  validate_request-ok :
      (req : Request) (tx : Transaction)
      → validate_request libs h req ≡ ok tx
      → (parsed libs h req ≡ ok tx) × OwnSender libs h tx.from
  unfolding validate_request
  validate_request-ok req tx e =
      let (got, sender) = sender_checked-ok libs h _ _ _ tx e in
      (map_err-ok _ (parsed libs h req) got, sender)

  step-ok :
      {A : Type 0} (req : Request) (message : String) (got : Result String A × W)
      (next : A → W → Response × W) (r : Response) (w' : W)
      → step libs h req message got next ≡ (r, w')
      → r.error ≡ none
      → (a : A) × (w₁ : W) × (got ≡ (ok a, w₁)) × (next a w₁ ≡ (r, w'))
  unfolding create_error_response
  step-ok req message (ok a, w) next r w' e fine = (a, w, refl, e)
  step-ok req message (err x, w) next r w' e fine = absurd (ground arith)

  fetch_gas_price-ok :
      (tx tx' : Transaction) (w w' : W)
      → fetch_gas_price libs h tx w ≡ (ok tx', w')
      → (price : ℕ) × (h.downstream_rpc.gas_price w ≡ (ok price, w'))
        × (tx' ≡ fill_gas_price price tx)
  unfolding fetch_gas_price
  fetch_gas_price-ok tx tx' w w' e = elim (Result-cases (h.downstream_rpc.gas_price w).0) [
    | inl (price, g) ↦ (price, ground arith, ground arith)
    | inr (x, g) ↦ absurd (ground arith)
  ]

  sign_prepared-ok :
      (tx signed : Transaction) (w w' : W)
      → sign_prepared libs h tx w ≡ (ok signed, w')
      → h.signer.sign_transaction tx w ≡ (ok signed, w')
  unfolding sign_prepared
  sign_prepared-ok tx signed w w' e =
      let same = map_err-ok _ (h.signer.sign_transaction tx w).0 (ap (λ p. p.0) e) in
      ap₂ (λ a b. (a, b)) same (ap (λ p. p.1) e)

  forward_transaction-ok :
      (req : Request) (signed : Transaction) (w : W) (r : Response) (w' : W)
      → forward_transaction libs h req signed w ≡ (ok r, w')
      → (rlp : List ℕ) × (reply : Response) × (libs.marshal_rlp signed ≡ ok rlp)
        × (h.client.forward_request (raw_request libs h req rlp) w ≡ (ok reply, w'))
        × (r ≡ answered_as libs h req reply)
  unfolding forward_transaction
  forward_transaction-ok req signed w r w' e = elim (Result-cases (libs.marshal_rlp signed)) [
    | inr (x, g) ↦ absurd (ground arith)
    | inl (rlp, g) ↦
        elim (Result-cases (h.client.forward_request (raw_request libs h req rlp) w).0) [
          | inr (x, g') ↦ absurd (ground arith)
          | inl (reply, g') ↦ (rlp, reply, g, ground arith, ground arith)
        ]
  ]

  -- The signed transaction is encoded and posted with the id of the request; the node answers.
  abbrev pub Forwarded : Request → Transaction → W → Response → W → Type 0
  Forwarded req signed w r w' =
      (rlp : List ℕ) × (reply : Response) × (libs.marshal_rlp signed ≡ ok rlp)
      × (h.client.forward_request (raw_request libs h req rlp) w ≡ (ok reply, w'))
      × (r ≡ answered_as libs h req reply)

  abbrev pub Signed : Request → Transaction → W → Response → W → Type 0
  Signed req tx w r w' =
      (signed : Transaction) × (w₁ : W) × (h.signer.sign_transaction tx w ≡ (ok signed, w₁))
      × Forwarded req signed w₁ r w'

  abbrev pub Estimated : Request → Transaction → W → Response → W → Type 0
  Estimated req tx w r w' =
      (prepared : Transaction) × (w₁ : W) × (estimate_gas_if_needed libs h tx w ≡ (ok prepared, w₁))
      × Signed req prepared w₁ r w'

  abbrev pub Priced : Request → Transaction → W → Response → W → Type 0
  Priced req tx w r w' =
      (price : ℕ) × (w₁ : W) × (h.downstream_rpc.gas_price w ≡ (ok price, w₁))
      × Estimated req (fill_gas_price price tx) w₁ r w'

  -- The course of a transaction that is sent, from the request to the node's response.
  abbrev pub Sent : Request → W → Response → W → Type 0
  Sent req w r w' =
      (tx : Transaction) × (nonce : ℕ) × (w₁ : W) × (parsed libs h req ≡ ok tx)
      × OwnSender libs h tx.from
      × (fetch_nonce libs h tx w ≡ (ok nonce, w₁))
      × Priced req (record tx { nonce = nonce }) w₁ r w'

  forward_signed-Forwarded :
      (req : Request) (signed : Transaction) (w : W) (r : Response) (w' : W)
      → forward_signed libs h req signed w ≡ (r, w')
      → r.error ≡ none
      → Forwarded req signed w r w'
  forward_signed-Forwarded req signed w r w' e fine =
      let (r₁, w₁, got, same) =
        step-ok req "Failed to forward transaction" (forward_transaction libs h req signed w)
          (λ x y. (x, y)) r w' e fine in
      forward_transaction-ok req signed w r w' (got ∙ ap (λ p. (ok p.0, p.1)) same)

  sign_and_forward-Signed :
      (req : Request) (tx : Transaction) (w : W) (r : Response) (w' : W)
      → sign_and_forward libs h req tx w ≡ (r, w')
      → r.error ≡ none
      → Signed req tx w r w'
  sign_and_forward-Signed req tx w r w' e fine =
      let (signed, w₁, got, rest) =
        step-ok req "Failed to sign transaction" (sign_prepared libs h tx w)
          (forward_signed libs h req) r w' e fine in
      (
        signed,
        w₁,
        sign_prepared-ok tx signed w w₁ got,
        forward_signed-Forwarded req signed w₁ r w' rest fine,
      )

  estimate_and_send-Estimated :
      (req : Request) (tx : Transaction) (w : W) (r : Response) (w' : W)
      → estimate_and_send libs h req tx w ≡ (r, w')
      → r.error ≡ none
      → Estimated req tx w r w'
  estimate_and_send-Estimated req tx w r w' e fine =
      let (prepared, w₁, got, rest) =
        step-ok req "Failed to estimate gas" (estimate_gas_if_needed libs h tx w)
          (sign_and_forward libs h req) r w' e fine in
      (prepared, w₁, got, sign_and_forward-Signed req prepared w₁ r w' rest fine)

  price_and_send-Priced :
      (req : Request) (tx : Transaction) (nonce : ℕ) (w : W) (r : Response) (w' : W)
      → price_and_send libs h req tx nonce w ≡ (r, w')
      → r.error ≡ none
      → Priced req (record tx { nonce = nonce }) w r w'
  price_and_send-Priced req tx nonce w r w' e fine =
      let numbered = record tx { nonce = nonce } in
      let (priced, w₁, got, rest) =
        step-ok req "Failed to get gasPrice" (fetch_gas_price libs h numbered w)
          (estimate_and_send libs h req) r w' e fine in
      let (price, has_price, same) = fetch_gas_price-ok numbered priced w w₁ got in
      (
        price,
        w₁,
        has_price,
        subst (λ t. Estimated req t w₁ r w') same
            (estimate_and_send-Estimated req priced w₁ r w' rest fine),
      )

  -- An eth_sendTransaction answered without an error has sent the transaction of its
  -- parameters, whose sender's text is empty or a valid address equal to the signer's up to
  -- case: with the nonce, price and gas filled in, signed, encoded and posted to the node with
  -- the request's id; the response is the node's.
  pub handle_eth_send_transaction_sound :
      (req : Request) (w : W) (r : Response) (w' : W)
      → handle_eth_send_transaction libs h req w ≡ (r, w')
      → r.error ≡ none
      → Sent req w r w'
  unfolding handle_eth_send_transaction create_invalid_params_response create_error_response
  handle_eth_send_transaction_sound req w r w' e fine =
      elim (Result-cases (validate_request libs h req)) [
        | inr (x, g) ↦ absurd (ground arith)
        | inl (tx, g) ↦
            let (is_parsed, own_sender) = validate_request-ok req tx g in
            let (nonce, w₁, got, rest) =
              step-ok req "Failed to get nonce" (fetch_nonce libs h tx w)
                (price_and_send libs h req tx) r w' (ground arith) fine in
            (
              tx,
              nonce,
              w₁,
              is_parsed,
              own_sender,
              got,
              price_and_send-Priced req tx nonce w₁ r w' rest fine,
            )
      ]
