-- ===== src/Signer/Params/Laws.antt =====
-- What the decoded parameters are.
use web3signer_go.Base.{
  Result, ok, err, >>=-eq-ok, ◌<◌, String, ◌≡◌, ◌≢◌, ◌↔◌, Bool, true, false, ◌||◌, none, some,
  arith,
}
use web3signer_go.Jsonrpc.Value.{Value}
use web3signer_go.Signer.Transaction.{
  legacy, access_list, dynamic_fee, Transaction, zero_transaction, u64,
}
use web3signer_go.Signer.Decode.{Fastjson, Ethgo, is_key_set, decode_uint}
use web3signer_go.Signer.Decode.Laws.{decode_uint_iff, decode_uint_optional-lt}
use web3signer_go.Signer.Params.{
  Messages, failed, decode_gas, decode_input, decode_value, decode_nonce, decode_to, decode_from,
  decode_fees, decode_access, unmarshal_fields,
}

failed-ok {ℓ} :
    {A : Type ℓ} (name : String) (r : Result String A) (a : A) → failed name r ≡ ok a → r ≡ ok a
failed-ok name (ok b) a h = cc
failed-ok name (err e) a h = cc

module _ (fj : Fastjson) (v : Value) where
  abbrev has_fee : Bool
  has_fee = is_key_set fj v "maxFeePerGas" || is_key_set fj v "maxPriorityFeePerGas"

  -- The type of a transaction decoded from v, and what goes with it.
  pub record Typed (tx : Transaction) : Type 0 where
    -- Either of the two fee fields makes the type dynamic_fee; without them an access list makes it
    -- access_list, and no access list legacy.
    pub fees : (tx.kind ≡ dynamic_fee) ↔ (has_fee ≡ true)
    pub listed : tx.kind ≡ access_list → is_key_set fj v "accessList" ≡ true
    pub plain : tx.kind ≡ legacy → is_key_set fj v "accessList" ≡ false
    -- Only the price fields of the type are filled.
    pub unpriced : tx.kind ≡ dynamic_fee → tx.gas_price ≡ 0
    pub no_fees :
        tx.kind ≢ dynamic_fee → (tx.max_fee_per_gas ≡ none) × (tx.max_priority_fee_per_gas ≡ none)
    pub gas_price_small : tx.gas_price < u64

module _ (fj : Fastjson) (eg : Ethgo) (ms : Messages) (v : Value) where
  decode_fees-Typed :
      (old tx : Transaction)
      → old.gas_price ≡ 0
      → old.max_fee_per_gas ≡ none
      → old.max_priority_fee_per_gas ≡ none
      → decode_fees fj eg ms v old ≡ ok tx
      → Typed fj v tx × (tx.gas ≡ old.gas) × (tx.nonce ≡ old.nonce)
  unfolding decode_fees
  decode_fees-Typed old tx p q r h = (
    record {
      fees = ground arith;
      listed = ground arith;
      plain = ground arith;
      unpriced = ground arith;
      no_fees = ground arith;
      gas_price_small = ground (arith, decode_uint_optional-lt fj v "gasPrice" tx.gas_price);
    },
    ground arith,
    ground arith,
  )

  -- What the steps before the fees establish and keep.
  record Started (tx : Transaction) : Type 0 where
    gas_given : (x : Value) × (fj.get v "gas" ≡ some x)
    gas_small : tx.gas < u64
    nonce_small : tx.nonce < u64
    gas_price : tx.gas_price ≡ 0
    fee : tx.max_fee_per_gas ≡ none
    tip : tx.max_priority_fee_per_gas ≡ none

  decode_gas-Started :
      (tx : Transaction) → decode_gas fj eg ms v zero_transaction ≡ ok tx → Started tx
  unfolding decode_gas
  decode_gas-Started tx h =
      let (n, e, h') = >>=-eq-ok (failed "gas" (decode_uint fj v "gas")) _ h in
      let (digits, (x, got, text), spelt, small) =
        (decode_uint_iff fj v "gas" n).0 (failed-ok "gas" _ n e) in
      record {
        gas_given = (x, got);
        gas_small = ground arith;
        nonce_small = ground arith;
        gas_price = ground arith;
        fee = ground arith;
        tip = ground arith;
      }

  decode_input-Started :
      (old tx : Transaction) → Started old → decode_input fj eg ms v old ≡ ok tx → Started tx
  unfolding decode_input
  decode_input-Started old tx s h = ground arith

  decode_value-Started :
      (old tx : Transaction) → Started old → decode_value fj eg ms v old ≡ ok tx → Started tx
  unfolding decode_value
  decode_value-Started old tx s h = ground arith

  decode_nonce-Started :
      (old tx : Transaction) → Started old → decode_nonce fj eg ms v old ≡ ok tx → Started tx
  unfolding decode_nonce
  decode_nonce-Started old tx s h = ground (arith, decode_uint_optional-lt fj v "nonce" tx.nonce)

  decode_to-Started :
      (old tx : Transaction) → Started old → decode_to fj eg ms v old ≡ ok tx → Started tx
  unfolding decode_to
  decode_to-Started old tx s h = ground arith

  decode_from-Started :
      (old tx : Transaction) → Started old → decode_from fj eg ms v old ≡ ok tx → Started tx
  unfolding decode_from
  decode_from-Started old tx s h = ground arith

  decode_access-Typed :
      (old tx : Transaction)
      → Typed fj v old
      → decode_access fj eg ms v old ≡ ok tx
      → Typed fj v tx × (tx.gas ≡ old.gas) × (tx.nonce ≡ old.nonce)
  unfolding decode_access
  decode_access-Typed old tx t h = ground arith

  -- A transaction decoded from an object has a gas field there; its gas, nonce and gas price
  -- are below 2^64; its type is the one that its fee and access-list fields ask for, and only
  -- the price fields of that type are filled.
  pub unmarshal_fields_sound :
      (tx : Transaction)
      → unmarshal_fields fj eg ms v ≡ ok tx
      → ((x : Value) × (fj.get v "gas" ≡ some x))
        × (tx.gas < u64)
        × (tx.nonce < u64)
        × Typed fj v tx
  unfolding unmarshal_fields
  unmarshal_fields_sound tx h =
      let (t7, h, h7) = >>=-eq-ok _ (decode_access fj eg ms v) h in
      let (t6, h, h6) = >>=-eq-ok _ (decode_fees fj eg ms v) h in
      let (t5, h, h5) = >>=-eq-ok _ (decode_from fj eg ms v) h in
      let (t4, h, h4) = >>=-eq-ok _ (decode_to fj eg ms v) h in
      let (t3, h, h3) = >>=-eq-ok _ (decode_nonce fj eg ms v) h in
      let (t2, h, h2) = >>=-eq-ok _ (decode_value fj eg ms v) h in
      let (t1, h, h1) = >>=-eq-ok _ (decode_input fj eg ms v) h in
      let s1 = decode_input-Started t1 t2 (decode_gas-Started t1 h) h1 in
      let s2 = decode_value-Started t2 t3 s1 h2 in
      let s3 = decode_nonce-Started t3 t4 s2 h3 in
      let s4 = decode_to-Started t4 t5 s3 h4 in
      let s5 = decode_from-Started t5 t6 s4 h5 in
      let (typed, gas, nonce) = decode_fees-Typed t6 t7 s5.gas_price s5.fee s5.tip h6 in
      let (typed', gas', nonce') = decode_access-Typed t7 tx typed h7 in
      (s5.gas_given, ground (arith, s5.gas_small), ground (arith, s5.nonce_small), typed')
