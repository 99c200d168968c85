-- ===== src/Signer/Transaction.antt =====
-- What internal/signer and internal/router use of ethgo: the fields of a transaction. An address
-- and a hash are the lists of their bytes, a byte slice that is nil is empty, a *big.Int that is nil
-- is `none`.
use web3signer_go.Base.{replicate, ℤ, ℕ, ◌^◌, Option, none, List, []}

pub data TxType : Type 0 where
  legacy access_list dynamic_fee : TxType

abbrev pub Address : Type 0
Address = List ℕ

abbrev pub zero_address : Address
zero_address = replicate 20 0

pub record AccessEntry : Type 0 where
  pub address : Address
  pub storage : List (List ℕ)

pub record Transaction : Type 0 where
  pub kind : TxType
  pub from : Address
  pub nonce : ℕ
  pub gas : ℕ
  pub gas_price : ℕ
  pub to : Option Address
  pub value : Option ℤ
  pub chain_id : Option ℤ
  pub max_fee_per_gas : Option ℤ
  pub max_priority_fee_per_gas : Option ℤ
  pub input : List ℕ
  pub access : List AccessEntry
  pub r : List ℕ
  pub s : List ℕ
  pub v : List ℕ

abbrev pub zero_transaction : Transaction
zero_transaction = record {
  kind = legacy;
  from = zero_address;
  nonce = 0;
  gas = 0;
  gas_price = 0;
  to = none;
  value = none;
  chain_id = none;
  max_fee_per_gas = none;
  max_priority_fee_per_gas = none;
  input = [];
  access = [];
  r = [];
  s = [];
  v = [];
}

-- A uint64.
abbrev pub u64 : ℕ
u64 = 2 ^ 64
