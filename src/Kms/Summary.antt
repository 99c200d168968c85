-- ===== src/Kms/Summary.antt =====
-- internal/kms/transaction.go and interface.go: the summary of a raw transaction, and the signer that
-- sends it along. The RLP reader and the text of addresses are ethgo's.
use web3signer_go.Base.{
  if◌then◌else◌, ℤ, pos, eqb_ℤ, show_ℤ, Result, ok, err, ◌>>=◌, ℕ, String, Option, none, some, List,
}
use web3signer_go.Errors.Types.{GoError}
use web3signer_go.Kms.Types.{SignSummary, new_transfer_summary, hex, KmsClient}

-- What is read of a transaction.
pub record RawTransaction (Address : Type 0) : Type 0 where
  pub to : Option Address
  pub value : Option ℤ

module _ {Address : Type 0} (unmarshal_rlp : List ℕ → Result GoError (RawTransaction Address)) where
  module _ (address_text : Address → String) where
    abbrev to_text : Option Address → String
    to_text none = ""
    to_text (some a) = address_text a

    abbrev amount_text : Option ℤ → String
    amount_text none = "0"
    amount_text (some v) = if eqb_ℤ v (pos 0) then "0" else show_ℤ v

    unfoldable pub parse_transaction_summary : List ℕ → Result GoError SignSummary
    unfolding new_transfer_summary
    parse_transaction_summary content = do
      tx ← unmarshal_rlp content
      ok (new_transfer_summary "" (to_text tx.to) (amount_text tx.value) "ETH" "")

    module _ {W : Type 0} (client : KmsClient W) (key_id : String) where
      unfoldable pub sign_message : List ℕ → W → Result GoError (List ℕ) × W
      sign_message message w = client.sign key_id message w

      unfoldable pub sign_raw_transaction : List ℕ → W → Result GoError (List ℕ) × W
      unfolding parse_transaction_summary
      sign_raw_transaction content w = elim (parse_transaction_summary content) [
        | err e ↦ (err e, w)
        | ok summary ↦ client.sign_with_options key_id content hex (some summary) "" w
      ]
