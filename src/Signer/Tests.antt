-- ===== src/Signer/Tests.antt =====
-- Decoding, parameters and signing at concrete inputs.
pub mod Signing
use web3signer_go.Base.{
  replicate, pos, neg, ◌+++◌, bytes, is_prefix, has_prefix, Result, ok, err, ℕ, ◌<◌, String, ◌≡◌,
  refl, ◌↔◌, Bool, true, false, Option, none, some, List, [], ◌∷◌, ◌++◌, arith,
}
use web3signer_go.Base.Dict.{lookup}
use web3signer_go.Jsonrpc.Value.{Value, null, str, arr, obj, nil, cons, end, field, fields, items}
use web3signer_go.Jsonrpc.Interface.{as_items}
use web3signer_go.Utils.{hex_decode, hex_encode, hex_number, hex_digits}
use web3signer_go.Utils.Laws.{Spells}
use web3signer_go.Signer.Transaction.{dynamic_fee, Address, Transaction, zero_transaction, u64}
use web3signer_go.Signer.Decode.{
  Fastjson, Ethgo, strip_0x, trim_quotes, parse_uint, decode_bytes, decode_big_int_optional,
  parse_big, decode_addr, is_key_set, unmarshal_access_list, decode_uint, decode_big_int,
  decode_uint_optional, or_zero,
}
use web3signer_go.Signer.Decode.Laws.{Prefixed, decode_uint_iff}
use web3signer_go.Signer.Params.{
  Messages, unmarshal_fields, decode_gas, decode_input, decode_value, decode_nonce, decode_to,
  decode_from, decode_fees, decode_access, parse_sign_params, parse_hex,
}
use web3signer_go.Signer.Params.Laws.{Typed, unmarshal_fields_sound}
use web3signer_go.Signer.Params.SignData.{
  SignForm, parse_sign_params_sound, parse_sign_params_complete,
}
use web3signer_go.Signer.MultiKey.{address}

abbrev pub raw_text : Value → String
raw_text (str s) = s
raw_text _ = ""

abbrev is_null : Value → Bool
is_null null = true
is_null _ = false

abbrev member : Value → String → Option Value
member (obj fs) k = lookup k (fields fs)
member _ k = none

abbrev elements : Option Value → Result String (List Value)
elements (some (arr vs)) = ok (items vs)
elements _ = err "not an array"

abbrev pub sample_json : Fastjson
sample_json = record {
  parse_error = (λ v. none);
  get = member;
  text = raw_text;
  is_null = is_null;
  get_string = (λ v k. elim (member v k) [ none ↦ "" | some x ↦ raw_text x ]);
  array = elements;
  string_bytes = (λ v. ok (raw_text v));
}

-- Every address is the one that ends in 1.
abbrev pub sample_address : Address
sample_address = replicate 19 0 ++ (1 ∷ [])

abbrev pub sample_ethgo : Ethgo
sample_ethgo = record {
  address_of_text = (λ s. ok sample_address);
  hash_of_text = (λ s. ok (replicate 32 0));
  address_text = (λ a. "0x" +++ hex_encode a);
}

abbrev pub sample_messages : Messages
sample_messages = record { hex_failure = (λ s. "bad hex"); json_failure = (λ v. "bad JSON") }

abbrev transfer : Value
transfer = obj (
    field "gas" (str "0x5208") (
      field "maxFeePerGas" (str "0x64")
        (field "value" (str "0x-5") (field "nonce" (str "0x1") end))))

decode_uint_iff_example : (decode_uint sample_json transfer "gas" ≡ ok 21000) ↔ (
    (digits : String) × Prefixed sample_json transfer "gas" digits
    × Spells (bytes (or_zero digits)) 21000
    × (21000 < u64))
decode_uint_iff_example = decode_uint_iff sample_json transfer "gas" 21000

five-Spells : Spells (bytes "5") 5
unfolding bytes hex_digits
five-Spells = ((λ e. ground arith), 5 ∷ [], refl, refl)

abbrev signed_hash : List ℕ
signed_hash = replicate 32 171

abbrev sign_params : Option Value
sign_params = some (arr (cons (str "0x52") (cons (str ("0x" +++ hex_encode signed_hash)) nil)))

parse_sign_params_sound_example :
    SignForm sample_json sample_ethgo sample_messages sign_params "0x52" signed_hash
unfolding parse_sign_params as_items parse_hex hex_decode hex_encode is_prefix bytes
parse_sign_params_sound_example =
    parse_sign_params_sound sample_json sample_ethgo sample_messages sign_params "0x52" signed_hash
      refl

parse_sign_params_complete_example :
    parse_sign_params sample_json sample_ethgo sample_messages sign_params
    ≡ ok ("0x52", signed_hash)
unfolding as_items
parse_sign_params_complete_example =
    parse_sign_params_complete sample_json sample_ethgo sample_messages "0x52" signed_hash nil nil
      (ground arith) refl refl

abbrev decoded : Transaction
decoded = record zero_transaction {
  kind = dynamic_fee;
  gas = 21000;
  nonce = 1;
  value = some (neg 5);
  max_fee_per_gas = some (pos 100);
}

unmarshal_fields_sound_example :
    ((x : Value) × (sample_json.get transfer "gas" ≡ some x))
    × (decoded.gas < u64)
    × (decoded.nonce < u64)
    × Typed sample_json transfer decoded
unfolding unmarshal_fields decode_gas decode_input decode_value decode_nonce decode_to decode_from
    decode_fees decode_access decode_uint strip_0x trim_quotes parse_uint decode_bytes
    decode_big_int_optional parse_big decode_uint_optional decode_addr decode_big_int is_key_set
    unmarshal_access_list lookup bytes has_prefix is_prefix hex_number
unmarshal_fields_sound_example =
    unmarshal_fields_sound sample_json sample_ethgo sample_messages transfer decoded refl
