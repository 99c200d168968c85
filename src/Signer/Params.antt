-- ===== src/Signer/Params.antt =====
-- internal/signer: transaction.go (JSONRPCTransaction), transaction_parser.go and builder.go: the
-- parameters of eth_sendTransaction, eth_signTransaction and eth_sign.
pub mod Laws
pub mod SignData
use web3signer_go.Base.{
  ◌==◌, if◌then◌else◌, length, drop, str_eq, ◌+++◌, bytes, is_prefix, show_ℕ, Result, ok, err,
  ◌>>=◌, ◌>>◌, fail_if, map_err, ℕ, zero, ◌%◌, String, not, ◌||◌, Option, none, some, List, [], ◌∷◌,
  ◌++◌,
}
use web3signer_go.Jsonrpc.Value.{Value, null, str, arr, Items, nil, cons}
use web3signer_go.Jsonrpc.Interface.{as_items}
use web3signer_go.Utils.{hex_decode}
use web3signer_go.Signer.Transaction.{
  legacy, access_list, dynamic_fee, Transaction, zero_transaction,
}
use web3signer_go.Signer.Decode.{
  Fastjson, Ethgo, is_key_set, decode_uint, decode_uint_optional, decode_big_int_optional,
  decode_bytes, decode_addr, unmarshal_access_list,
}

-- `failed to decode <field>: <error>`.
abbrev failed {ℓ} : {A : Type ℓ} → String → Result String A → Result String A
failed name = map_err λ e. "failed to decode " +++ (name +++ (": " +++ e))

-- The messages of encoding/hex and encoding/json.
pub record Messages : Type 0 where
  pub hex_failure : String → String
  pub json_failure : Option Value → String

module _ (fj : Fastjson) (eg : Ethgo) (ms : Messages) where
  -- The steps of unmarshalJSON, each on the transaction that the one before left.
  unfoldable pub decode_gas : Value → Transaction → Result String Transaction
  decode_gas v tx = failed "gas" (decode_uint fj v "gas") >>= λ n. ok (record tx { gas = n })

  unfoldable pub decode_input : Value → Transaction → Result String Transaction
  decode_input v tx = failed "data" (decode_bytes fj ms.hex_failure v "data") >>= λ bs.
      ok (record tx { input = bs })

  unfoldable pub decode_value : Value → Transaction → Result String Transaction
  decode_value v tx =
      failed "value" (decode_big_int_optional fj v "value") >>= λ n. ok (record tx { value = n })

  unfoldable pub decode_nonce : Value → Transaction → Result String Transaction
  decode_nonce v tx =
      failed "nonce" (decode_uint_optional fj v "nonce") >>= λ n. ok (record tx { nonce = n })

  abbrev shown : Option Value → String
  shown none = ""
  shown (some x) = fj.text x

  unfoldable pub decode_to : Value → Transaction → Result String Transaction
  decode_to v tx =
      if is_key_set fj v "to"
      then (if str_eq (shown (fj.get v "to")) "null"
          then ok tx
          else failed "to" (decode_addr fj eg v "to") >>= λ a. ok (record tx { to = some a }))
      else ok tx

  unfoldable pub decode_from : Value → Transaction → Result String Transaction
  decode_from v tx =
      if is_key_set fj v "from"
      then (failed "from" (decode_addr fj eg v "from") >>= λ a. ok (record tx { from = a }))
      else ok tx

  -- The fields that the type of the transaction decides on.
  unfoldable pub decode_fees : Value → Transaction → Result String Transaction
  decode_fees v tx =
      if is_key_set fj v "maxFeePerGas" || is_key_set fj v "maxPriorityFeePerGas"
      then (failed "maxPriorityFeePerGas" (decode_big_int_optional fj v "maxPriorityFeePerGas")
          >>= λ tip. failed "maxFeePerGas" (decode_big_int_optional fj v "maxFeePerGas") >>= λ fee.
              failed "chainId" (decode_big_int_optional fj v "chainId") >>= λ chain. ok (record tx {
                kind = dynamic_fee;
                max_priority_fee_per_gas = tip;
                max_fee_per_gas = fee;
                chain_id = chain;
              }))
      else if is_key_set fj v "accessList"
      then (failed "gasPrice" (decode_uint_optional fj v "gasPrice") >>= λ price.
          failed "chainId" (decode_big_int_optional fj v "chainId") >>= λ chain.
          ok (record tx { kind = access_list; gas_price = price; chain_id = chain }))
      else (failed "gasPrice" (decode_uint_optional fj v "gasPrice") >>= λ price.
          ok (record tx { kind = legacy; gas_price = price }))

  unfoldable pub decode_access : Value → Transaction → Result String Transaction
  decode_access v tx =
      if is_key_set fj v "accessList"
      then (failed "accessList" (unmarshal_access_list fj eg (fj.get v "accessList")) >>= λ entries.
          ok (record tx { access = tx.access ++ entries }))
      else ok tx

  -- JSONRPCTransaction.unmarshalJSON, into a zero transaction.
  unfoldable pub unmarshal_fields : Value → Result String Transaction
  unmarshal_fields v =
      decode_gas v zero_transaction
      >>= decode_input v
      >>= decode_value v
      >>= decode_nonce v
      >>= decode_to v
      >>= decode_from v
      >>= decode_fees v
      >>= decode_access v

  unfoldable pub unmarshal_json : Value → Result String Transaction
  unmarshal_json v = elim (fj.parse_error v) [
    | some e ↦ err ("failed to parse JSON: " +++ e)
    | none ↦ unmarshal_fields v
  ]

  abbrev parse_failure : Result String Transaction → Result String Transaction
  parse_failure = map_err λ e. "failed to parse transaction params: " +++ e

  -- The parameters as an array with at least one element, or as the object itself.
  unfoldable pub parse_transaction : Option Value → Result String Transaction
  parse_transaction none = parse_failure (err (ms.json_failure none))
  parse_transaction (some (arr (cons v vs))) = parse_failure (unmarshal_json v)
  parse_transaction (some v) = parse_failure (unmarshal_json v)

  abbrev odd_padded : List ℕ → List ℕ
  odd_padded cs = if length cs % 2 == 0 then cs else b'0' ∷ cs

  abbrev without_0x : List ℕ → List ℕ
  without_0x cs = if is_prefix (b'0' ∷ b'x' ∷ []) cs then drop 2 cs else cs

  unfoldable pub parse_hex : String → Result String (List ℕ)
  parse_hex s =
      if str_eq s "" then ok [] else elim (hex_decode (odd_padded (without_0x (bytes s)))) [
        | none ↦ err (ms.hex_failure s)
        | some bs ↦ ok bs
      ]

  abbrev sign_data : String → Value → Result String (String × List ℕ)
  sign_data address (str text) = do
    content ← map_err (λ e. "failed to parse data: " +++ e) (parse_hex text)
    fail_if (not (length content == 32))
        ("invalid data length: expected 32 bytes, got " +++ show_ℕ (length content))
    ok (address, content)
  sign_data address _ = err "invalid data parameter"

  abbrev sign_array : Items → Result String (String × List ℕ)
  sign_array (cons (str address) (cons content vs)) = sign_data address content
  sign_array (cons _ (cons content vs)) = err "invalid address parameter"
  sign_array _ = err "insufficient parameters for eth_sign"

  abbrev sign_interfaces : Value → Option Items → Result String (String × List ℕ)
  sign_interfaces v none = err ("failed to parse sign params: " +++ ms.json_failure (some v))
  sign_interfaces v (some xs) = sign_array xs

  -- ParseSignParams reads a []interface{}, and null as an empty array.
  unfoldable pub parse_sign_params : Option Value → Result String (String × List ℕ)
  unfolding parse_hex
  parse_sign_params (some (arr vs)) = sign_interfaces (arr vs) (as_items vs)
  parse_sign_params (some null) = sign_array nil
  parse_sign_params v = err ("failed to parse sign params: " +++ ms.json_failure v)
