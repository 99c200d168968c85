-- ===== src/Router/SignHandler/Guards.antt =====
-- Whom the MPC-KMS signs for.
use web3signer_go.Base.{
  Bool-cases, str_eq, ◌+++◌, equal_fold, Result, ok, err, map_err, Result-cases, map_err-ok, ℕ,
  String, ◌≡◌, ap, subst, ◌⊎◌, inl, inr, true, List, arith, eq_iff,
}
use web3signer_go.Utils.{is_valid_eth_address}
use web3signer_go.Jsonrpc.Types.{Request}
use web3signer_go.Signer.Transaction.{Transaction, Address}
use web3signer_go.Signer.Params.{parse_sign_params}
use web3signer_go.Router.Responses.{create_invalid_params_response}
use web3signer_go.Router.Node.{Libraries}
use web3signer_go.Router.SignHandler.{
  SignHandler, handle_eth_sign, sign_subject, sign_answer, sender_checked, parsed,
  handle_eth_sign_transaction, transaction_answer,
}

module _ (libs : Libraries) {W : Type 0} (h : SignHandler W) where
  -- The text of the signer's address.
  abbrev pub own : String
  own = libs.ethgo.address_text h.signer.address

  -- A sender that the transaction methods accept.
  abbrev pub OwnSender : Address → Type 0
  OwnSender a =
      (libs.ethgo.address_text a ≡ "")
      ⊎ ((is_valid_eth_address (libs.ethgo.address_text a) ≡ true)
          × (equal_fold (libs.ethgo.address_text a) own ≡ true))

  sign_subject-ok :
      (req : Request) (content : List ℕ)
      → sign_subject libs h req ≡ ok content
      → (address : String) × (parse_sign_params libs.fastjson libs.ethgo libs.messages req.params
          ≡ ok (address, content))
        × (is_valid_eth_address address ≡ true)
        × (equal_fold address own ≡ true)
  unfolding sign_subject
  sign_subject-ok req content e =
      elim (Result-cases (parse_sign_params libs.fastjson libs.ethgo libs.messages req.params)) [
        | inr (bad, b) ↦ absurd (ground arith)
        | inl ((address, c), g) ↦ (address, ground arith, ground arith, ground arith)
      ]

  sender_checked-own :
      (bad_format mismatch : String) (t tx : Transaction)
      → sender_checked libs h bad_format mismatch (ok t) ≡ ok tx
      → (t ≡ tx) × OwnSender t.from
  unfolding sender_checked
  sender_checked-own bad_format mismatch t tx e =
      elim (Bool-cases (str_eq (libs.ethgo.address_text t.from) "")) [
        | inl empty ↦
            (ground arith, inl (ground (arith, eq_iff (libs.ethgo.address_text t.from) "")))
        | inr given ↦ (ground arith, inr (ground arith, ground arith))
      ]

  pub sender_checked-ok :
      (bad_format mismatch : String) (got : Result String Transaction) (tx : Transaction)
      → sender_checked libs h bad_format mismatch got ≡ ok tx
      → (got ≡ ok tx) × OwnSender tx.from
  unfolding sender_checked
  sender_checked-ok bad_format mismatch (err e) tx eq = absurd (ground arith)
  sender_checked-ok bad_format mismatch (ok t) tx eq =
      let (same, sender) = sender_checked-own bad_format mismatch t tx eq in
      (ap ok same, subst (λ x. OwnSender x.from) same sender)

  -- eth_sign either asks the signer to sign the bytes of the parameters, given with a valid
  -- address equal to the signer's up to case, and answers with the outcome, or answers with an
  -- error of the parameters and the signer is not asked.
  pub handle_eth_sign-guarded :
      (req : Request) (w : W)
      → ((message : String) × (handle_eth_sign libs h req w
            ≡ (create_invalid_params_response req.id message, w)))
        ⊎ ((address : String) × (content : List ℕ) × (parse_sign_params libs.fastjson libs.ethgo
                libs.messages req.params
              ≡ ok (address, content))
            × (is_valid_eth_address address ≡ true)
            × (equal_fold address own ≡ true)
            × (handle_eth_sign libs h req w ≡ (
              sign_answer libs h req (h.signer.sign content w).0,
              (h.signer.sign content w).1,
            )))
  unfolding handle_eth_sign
  handle_eth_sign-guarded req w = elim (Result-cases (sign_subject libs h req)) [
    | inr (message, e) ↦ inl (message, ground arith)
    | inl (content, e) ↦
        let (address, is_parsed, valid, same) = sign_subject-ok req content e in
        inr (address, content, is_parsed, valid, same, ground arith)
  ]

  -- eth_signTransaction either asks the signer for the transaction of the parameters, whose
  -- sender's text is empty or a valid address equal to the signer's up to case, and answers
  -- with the outcome, or answers with an error of the parameters and the signer is not asked.
  pub handle_eth_sign_transaction-guarded :
      (req : Request) (w : W)
      → ((message : String) × (handle_eth_sign_transaction libs h req w
            ≡ (create_invalid_params_response req.id message, w)))
        ⊎ ((tx : Transaction) × (parsed libs h req ≡ ok tx)
            × OwnSender tx.from
            × (handle_eth_sign_transaction libs h req w ≡ (
              transaction_answer libs h req (h.signer.sign_transaction tx w).0,
              (h.signer.sign_transaction tx w).1,
            )))
  unfolding handle_eth_sign_transaction
  handle_eth_sign_transaction-guarded req w =
      let got = map_err (λ e. "Invalid transaction parameters: " +++ e) (parsed libs h req) in
      elim (Result-cases
        (sender_checked libs h "Invalid From address format" "From address mismatch" got)) [
          | inr (message, e) ↦ inl (message, ground arith)
          | inl (tx, e) ↦
              let (is_got, sender) =
                sender_checked-ok "Invalid From address format" "From address mismatch" got tx e in
              inr (tx, map_err-ok _ (parsed libs h req) is_got, sender, ground arith)
        ]
