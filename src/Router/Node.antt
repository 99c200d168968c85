-- ===== src/Router/Node.antt =====
-- internal/router/sign_handler.go: what the signing methods use of libraries and of the node, and the
-- fields of a transaction that the node's answers fill.
use web3signer_go.Base.{
  ◌==◌, if◌then◌else◌, ℤ, pos, negsuc, Result, ℕ, suc, ◌*◌, ◌/◌, ◌%◌, String, Bool, true, Option,
  none, some, List,
}
use web3signer_go.Errors.Types.{GoError}
use web3signer_go.Jsonrpc.Value.{Value}
use web3signer_go.Signer.Transaction.{legacy, access_list, dynamic_fee, Address, Transaction, u64}
use web3signer_go.Signer.Decode.{Fastjson, Ethgo}
use web3signer_go.Signer.Params.{Messages}

-- ethgo.CallMsg, as far as it is filled in.
pub record CallMsg : Type 0 where
  pub from : Address
  pub to : Option Address
  pub value : ℤ
  pub content : List ℕ

-- The JSON-RPC client of ethgo: the node is asked for a nonce, a price and an estimate, each a
-- uint64.
pub record EthNode (W : Type 0) : Type 0 where
  pub get_nonce : Address → W → Result GoError ℕ × W
  pub gas_price : W → Result GoError ℕ × W
  pub estimate_gas : CallMsg → W → Result GoError ℕ × W

-- What is used of fastjson, ethgo, encoding/json and fmt.
pub record Libraries : Type 0 where
  pub fastjson : Fastjson
  pub ethgo : Ethgo
  pub messages : Messages
  pub fmt_v : Value → String
  pub transaction_json : Transaction → Value
  pub marshal_rlp : Transaction → Result GoError (List ℕ)

-- `fee == nil || fee.Uint64() == 0`; Uint64 is the magnitude modulo 2^64.
unfoldable pub is_unset : Option ℤ → Bool
is_unset none = true
is_unset (some (pos n)) = n % u64 == 0
is_unset (some (negsuc n)) = suc n % u64 == 0

abbrev pub fill_fee : ℕ → Option ℤ → Option ℤ
fill_fee price fee = if is_unset fee then some (pos price) else fee

unfoldable pub fill_gas_price : ℕ → Transaction → Transaction
fill_gas_price price tx = elim tx.kind [
  | dynamic_fee ↦ record tx {
    max_fee_per_gas = fill_fee price tx.max_fee_per_gas;
    max_priority_fee_per_gas = fill_fee price tx.max_priority_fee_per_gas;
  }
  | legacy ↦ record tx { gas_price = if tx.gas_price == 0 then price else tx.gas_price }
  | access_list ↦ record tx { gas_price = if tx.gas_price == 0 then price else tx.gas_price }
]

abbrev pub or_zero : Option ℤ → ℤ
or_zero none = pos 0
or_zero (some n) = n

unfoldable pub call_msg : Address → Transaction → CallMsg
call_msg from tx = record { from = from; to = tx.to; value = or_zero tx.value; content = tx.input }

-- 20% more, in a uint64.
unfoldable pub with_margin : ℕ → ℕ
with_margin estimated = estimated * 120 % u64 / 100
