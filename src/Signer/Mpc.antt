-- ===== src/Signer/Mpc.antt =====
-- internal/signer/signer.go: a signer whose key is in the MPC-KMS. RLP and Keccak-256 are
-- parameters. tx.Copy() is the identity here, since values are not shared.
pub mod Laws
use web3signer_go.Base.{
  ◌==◌, if◌then◌else◌, length, get_elem?, take, drop, ℤ, pos, negsuc, ◌+ℤ◌, str_eq, ◌+++◌, bytes,
  show_ℕ, Result, ok, err, ◌>>=◌, map_err, ℕ, zero, suc, ◌/◌, ◌%◌, String, Bool, true, false, not,
  Option, none, some, List, [], ◌∷◌, ◌++◌,
}
use web3signer_go.Utils.{hex_decode}
use web3signer_go.Errors.Types.{GoError, plain, error_text}
use web3signer_go.Jsonrpc.Value.{Value}
use web3signer_go.Signer.Transaction.{
  TxType, legacy, access_list, dynamic_fee, Address, AccessEntry, Transaction, u64,
}
use web3signer_go.Kms.Types.{KmsClient, SignSummary, new_transfer_summary, hex}

-- An element of the RLP list that is signed.
pub data Item : Type 0 where
  big : Option ℤ → Item
  uint : ℕ → Item
  null_item : Item
  content : List ℕ → Item
  entries : List AccessEntry → Item

-- github.com/umbracle/fastrlp and ethgo: the bytes of an RLP list, where an access list may fail to
-- be encoded, and Keccak-256.
pub record Hashing : Type 0 where
  pub access_error : List AccessEntry → Option GoError
  pub marshal : List Item → List ℕ
  pub keccak : List ℕ → List ℕ

pub record MpcSigner (W : Type 0) : Type 0 where
  pub client : KmsClient W
  pub key_id : String
  pub address : Address
  pub chain_id : Option ℤ

unfoldable pub trim_bytes_zeros : List ℕ → List ℕ
trim_bytes_zeros [] = 0 ∷ []
trim_bytes_zeros (b ∷ bs) = if b == 0 then trim_bytes_zeros bs else b ∷ bs

-- (*big.Int).Bytes: big-endian, without leading zeros; one byte for each round.
big_bytes_from : ℕ → ℕ → List ℕ → List ℕ
big_bytes_from zero n acc = acc
big_bytes_from (suc fuel) n acc =
    let more = big_bytes_from fuel (n / 256) (n % 256 ∷ acc) in if n == 0 then acc else more

unfoldable pub big_bytes : ℕ → List ℕ
unfolding big_bytes_from
big_bytes n = big_bytes_from n n []

abbrev pub magnitude : ℤ → ℕ
magnitude (pos n) = n
magnitude (negsuc n) = suc n

abbrev double : ℤ → ℤ
double a = a +ℤ a

abbrev is_legacy : TxType → Bool
is_legacy legacy = true
is_legacy _ = false

-- The V value: the recovery id, and for a legacy transaction 35 and twice the chain id on top.
unfoldable pub v_value : Option ℤ → TxType → ℕ → ℤ
v_value none kind id = if is_legacy kind then pos id +ℤ pos 35 else pos id
v_value (some c) kind id = if is_legacy kind then pos id +ℤ pos 35 +ℤ double c else pos id

abbrev tx_byte : TxType → ℕ
tx_byte legacy = 0
tx_byte access_list = 1
tx_byte dynamic_fee = 2

abbrev to_item : Option Address → Item
to_item none = null_item
to_item (some a) = content a

-- The low 64 bits of the magnitude: (*big.Int).Uint64.
abbrev pub low_u64 : ℤ → ℕ
low_u64 n = magnitude n % u64

abbrev fee_items : Transaction → List Item
fee_items tx = elim tx.kind [
  | dynamic_fee ↦ big tx.max_priority_fee_per_gas ∷ big tx.max_fee_per_gas ∷ []
  | _ ↦ uint tx.gas_price ∷ []
]

abbrev chain_items : Option ℤ → List Item
chain_items none = []
chain_items (some c) = if low_u64 c == 0 then [] else uint (low_u64 c) ∷ uint 0 ∷ uint 0 ∷ []

-- The list that signHash encodes.
unfoldable pub signed_items : Option ℤ → Transaction → List Item
signed_items chain_id tx =
    (if is_legacy tx.kind then [] else big chain_id ∷ [])
    ++ (uint tx.nonce ∷ fee_items tx)
    ++ (uint tx.gas ∷ to_item tx.to ∷ big tx.value ∷ content tx.input ∷ [])
    ++ (if is_legacy tx.kind then chain_items chain_id else entries tx.access ∷ [])

unfoldable pub sign_hash : Hashing → Option ℤ → Transaction → Result GoError (List ℕ)
sign_hash hs chain_id tx =
    if is_legacy tx.kind
    then ok (hs.keccak (hs.marshal (signed_items chain_id tx)))
    else elim (hs.access_error tx.access) [
      | some e ↦ err e
      | none ↦ ok (hs.keccak (tx_byte tx.kind ∷ hs.marshal (signed_items chain_id tx)))
    ]

abbrev wrap_text : (Value → String) → String → GoError → GoError
wrap_text fmt_v prefix e = plain (prefix +++ error_text fmt_v e)

-- Indexing past the end does not happen where the length is 65.
abbrev byte_at : List ℕ → ℕ → ℕ
byte_at bs i = elim (get_elem? bs i) [ none ↦ 0 | some b ↦ b ]

-- R, S and V from the 65 bytes of a signature.
unfoldable pub apply_signature : Option ℤ → Transaction → List ℕ → Transaction
apply_signature chain_id tx sig = record tx {
  r = trim_bytes_zeros (take 32 sig);
  s = trim_bytes_zeros (take 32 (drop 32 sig));
  v = big_bytes (magnitude (v_value chain_id tx.kind (byte_at sig 64)));
}

-- The copy of the transaction that is signed: R, S and V start out nil.
unfoldable pub copied : {W : Type 0} → MpcSigner W → Transaction → Transaction
copied m tx = record tx { from = m.address; r = []; s = []; v = [] }

module _ (hs : Hashing) (fmt_v : Value → String) (hex_failure : List ℕ → GoError) where
  abbrev decode_signature : List ℕ → Result GoError (List ℕ)
  decode_signature text = elim (hex_decode text) [ none ↦ err (hex_failure text) | some bs ↦ ok bs ]

  abbrev finish : Option ℤ → Transaction → Result GoError (List ℕ) → Result GoError Transaction
  finish chain_id tx got = map_err (wrap_text fmt_v "failed to sign transaction: ") got >>= λ sig.
      if length sig == 65
      then ok (apply_signature chain_id tx sig)
      else err (plain ("invalid signature length: expected 65, got " +++ show_ℕ (length sig)))

  module _ {W : Type 0} where
    unfoldable pub sign : MpcSigner W → List ℕ → W → Result GoError (List ℕ) × W
    sign m hash w =
        if length hash == 32
        then (let (got, w') = m.client.sign m.key_id hash w in
            (
              map_err (wrap_text fmt_v "failed to sign with MPC-KMS: ") got >>= λ text.
                  map_err (wrap_text fmt_v "failed to decode signature: ") (decode_signature text),
              w',
            ))
        else (
          err (plain ("invalid hash length: expected 32 bytes, got " +++ show_ℕ (length hash))),
          w,
        )

    unfoldable pub sign_transaction_internal :
        MpcSigner W
        → Transaction
        → (List ℕ → W → Result GoError (List ℕ) × W)
        → W
        → Result GoError Transaction × W
    sign_transaction_internal m tx sign_func w = elim (sign_hash hs m.chain_id tx) [
      | err e ↦ (err (wrap_text fmt_v "failed to compute transaction hash: " e), w)
      | ok hash ↦ let (got, w') = sign_func hash w in (finish m.chain_id tx got, w')
    ]

    unfoldable pub sign_transaction : MpcSigner W → Transaction → W → Result GoError Transaction × W
    sign_transaction m tx w = sign_transaction_internal m (copied m tx) (sign m) w

    unfoldable pub sign_transaction_with_summary :
        MpcSigner W → Transaction → Option SignSummary → W → Result GoError Transaction × W
    sign_transaction_with_summary m tx summary w =
        sign_transaction_internal m (record tx { from = m.address })
          (λ hash w1.
            let (got, w2) = m.client.sign_with_options m.key_id hash hex summary "" w1 in
            (got >>= decode_signature, w2))
          w

-- `show` is (*big.Int).String.
abbrev amount_text : (ℤ → String) → Option ℤ → String
amount_text show none = "0"
amount_text show (some n) = show n

abbrev address_or_empty : (Address → String) → Option Address → String
address_or_empty address_text none = ""
address_or_empty address_text (some a) = address_text a

unfoldable pub create_transfer_summary :
    {W : Type 0}
    → (Address → String)
    → (ℤ → String)
    → MpcSigner W
    → Transaction
    → String
    → String
    → SignSummary
unfolding new_transfer_summary
create_transfer_summary address_text show m tx token remark =
    new_transfer_summary (address_text m.address) (address_or_empty address_text tx.to)
      (amount_text show tx.value) (if str_eq token "" then "ETH" else token) remark
