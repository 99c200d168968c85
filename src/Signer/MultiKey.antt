-- ===== src/Signer/MultiKey.antt =====
-- internal/signer/multikey_signer.go: several signers under key ids, one of them the default. The
-- mutex makes each method one step.
pub mod Laws
use web3signer_go.Base.{
  if◌then◌else◌, ℤ, str_eq, ◌+++◌, Result, ok, err, ℕ, String, not, Option, none, some, List, [],
}
use web3signer_go.Base.Dict.{lookup, insert, delete}
use web3signer_go.Errors.Types.{GoError, plain, error_text}
use web3signer_go.Jsonrpc.Value.{Value}
use web3signer_go.Signer.Transaction.{Address, zero_address, Transaction}
use web3signer_go.Kms.Types.{SignSummary}
use web3signer_go.Signer.Mpc.{
  Hashing, MpcSigner, sign, sign_transaction, sign_transaction_with_summary,
  create_transfer_summary,
}

-- signer.Client, which ethgo.Key is as well.
pub record Key (W : Type 0) : Type 0 where
  pub address : Address
  pub sign : List ℕ → W → Result GoError (List ℕ) × W
  pub sign_transaction : Transaction → W → Result GoError Transaction × W

-- A Client is an MPCKMSSigner or another implementation.
pub data Client (W : Type 0) : Type 0 where
  mpc : MpcSigner W → Client W
  other : Key W → Client W

pub record MultiKeySigner (W : Type 0) : Type 0 where
  pub clients : List (String × Client W)
  pub default_key_id : String
  pub chain_id : Option ℤ

unfoldable pub new_multi_key_signer : {W : Type 0} → String → Option ℤ → MultiKeySigner W
new_multi_key_signer default_key_id chain_id = record {
  clients = [];
  default_key_id = default_key_id;
  chain_id = chain_id;
}

abbrev pub not_found : String → GoError
not_found key_id = plain ("keyID " +++ (key_id +++ " not found"))

module _ {W : Type 0} where
  -- A client that is nil is `none`.
  unfoldable pub add_client :
      String → Option (Client W) → MultiKeySigner W → Result GoError (MultiKeySigner W)
  add_client key_id none m =
      if str_eq key_id ""
      then err (plain "keyID cannot be empty")
      else err (plain "client cannot be nil")
  add_client key_id (some c) m =
      if str_eq key_id ""
      then err (plain "keyID cannot be empty")
      else elim (lookup key_id m.clients) [
        | some old ↦ err (plain ("keyID " +++ (key_id +++ " already registered")))
        | none ↦ ok (record m { clients = insert key_id c m.clients })
      ]

  unfoldable pub remove_client : String → MultiKeySigner W → Result GoError (MultiKeySigner W)
  remove_client key_id m =
      if str_eq key_id m.default_key_id
      then err (plain ("cannot remove default keyID: " +++ key_id))
      else elim (lookup key_id m.clients) [
        | none ↦ err (not_found key_id)
        | some old ↦ ok (record m { clients = delete key_id m.clients })
      ]

  unfoldable pub get_client : String → MultiKeySigner W → Result GoError (Client W)
  get_client key_id m = elim (lookup key_id m.clients) [
    | none ↦ err (not_found key_id)
    | some c ↦ ok c
  ]

  abbrev pub client_address : Client W → Address
  client_address (mpc s) = s.address
  client_address (other k) = k.address

  unfoldable pub address : MultiKeySigner W → Address
  address m = elim (get_client m.default_key_id m) [
    | err e ↦ zero_address
    | ok c ↦ client_address c
  ]

abbrev pub with_prefix : (Value → String) → String → GoError → GoError
with_prefix fmt_v prefix e = plain (prefix +++ error_text fmt_v e)

abbrev no_client : (Value → String) → String → GoError → GoError
no_client fmt_v key_id = with_prefix fmt_v ("failed to get client for keyID " +++ (key_id +++ ": "))

abbrev unsupported : String → String → GoError
unsupported key_id what =
    plain ("client for keyID " +++ (key_id +++ (" does not support " +++ what)))

module _ (hs : Hashing) (fmt_v : Value → String) (hex_failure : List ℕ → GoError) where
  module _ {W : Type 0} where
    abbrev pub client_sign : Client W → List ℕ → W → Result GoError (List ℕ) × W
    client_sign (mpc s) = sign hs fmt_v hex_failure s
    client_sign (other k) = k.sign

    abbrev pub client_sign_transaction : Client W → Transaction → W → Result GoError Transaction × W
    client_sign_transaction (mpc s) = sign_transaction hs fmt_v hex_failure s
    client_sign_transaction (other k) = k.sign_transaction

    unfoldable pub multi_sign : MultiKeySigner W → List ℕ → W → Result GoError (List ℕ) × W
    multi_sign m hash w = elim (get_client m.default_key_id m) [
      | err e ↦ (err (with_prefix fmt_v "failed to get default client: " e), w)
      | ok c ↦ client_sign c hash w
    ]

    unfoldable pub multi_sign_transaction :
        MultiKeySigner W → Transaction → W → Result GoError Transaction × W
    multi_sign_transaction m tx w = elim (get_client m.default_key_id m) [
      | err e ↦ (err (with_prefix fmt_v "failed to get default client: " e), w)
      | ok c ↦ client_sign_transaction c tx w
    ]

    unfoldable pub sign_transaction_with_key_id :
        MultiKeySigner W → Transaction → String → W → Result GoError Transaction × W
    sign_transaction_with_key_id m tx key_id w = elim (get_client key_id m) [
      | err e ↦ (err (no_client fmt_v key_id e), w)
      | ok c ↦ client_sign_transaction c tx w
    ]

    abbrev summary_client :
        Client W → Transaction → String → Option SignSummary → W → Result GoError Transaction × W
    summary_client (mpc s) tx key_id summary w =
        sign_transaction_with_summary hs fmt_v hex_failure s tx summary w
    summary_client (other k) tx key_id summary w =
        (err (unsupported key_id "SignTransactionWithSummary"), w)

    unfoldable pub multi_sign_transaction_with_summary :
        MultiKeySigner W
        → Transaction
        → String
        → Option SignSummary
        → W
        → Result GoError Transaction × W
    multi_sign_transaction_with_summary m tx key_id summary w = elim (get_client key_id m) [
      | err e ↦ (err (no_client fmt_v key_id e), w)
      | ok c ↦ summary_client c tx key_id summary w
    ]

    abbrev summary_of :
        (Address → String)
        → (ℤ → String)
        → Client W
        → Transaction
        → String
        → String
        → String
        → Result GoError SignSummary
    summary_of address_text show (mpc s) tx key_id token remark =
        ok (create_transfer_summary address_text show s tx token remark)
    summary_of address_text show (other k) tx key_id token remark =
        err (unsupported key_id "CreateTransferSummary")

    unfoldable pub multi_create_transfer_summary :
        (Address → String)
        → (ℤ → String)
        → MultiKeySigner W
        → Transaction
        → String
        → String
        → String
        → Result GoError SignSummary
    multi_create_transfer_summary address_text show m tx key_id token remark =
        elim (get_client key_id m) [
          | err e ↦ err (no_client fmt_v key_id e)
          | ok c ↦ summary_of address_text show c tx key_id token remark
        ]
