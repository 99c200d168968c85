-- ===== src/Signer/Params/SignData.antt =====
-- The parameters of eth_sign.
use web3signer_go.Base.{
  Bool-cases, length, str_eq, ◌+++◌, bytes, is_prefix, none, ok, ℕ, String, ◌≡◌, refl, sym, ap, ◌∙◌,
  inl, inr, false, Option, some, List, ◌∷◌, arith, eq_iff,
}
use Prim.Native.String.{◌∷◌ as ◌∷ˢ◌}
use text.Mathlib.TextLemmas.{cons-ne-nil, cons-append, nil-append}
use web3signer_go.Jsonrpc.Value.{Value, str, arr, Items, cons}
use web3signer_go.Jsonrpc.Interface.{as_items}
use web3signer_go.Jsonrpc.Interface.Laws.{as_items-texts}
use web3signer_go.Utils.{hex_encode}
use web3signer_go.Utils.Laws.{IsBytes, hex_decode-hex_encode, length-hex_encode}
use web3signer_go.Signer.Decode.{Fastjson, Ethgo}
use web3signer_go.Signer.Params.{
  Messages, parse_hex, sign_data, sign_array, sign_interfaces, parse_sign_params,
}

prefixed : (s : String) → "0x" +++ s ≡ "0" ∷ˢ ("x" ∷ˢ s)
prefixed s =
    cons-append "0" "x" s ∙ ap (◌∷ˢ◌ "0") (cons-append "x" "" s ∙ ap (◌∷ˢ◌ "x") (nil-append s))

bytes-prefixed : (s : String) → bytes ("0x" +++ s) ≡ b'0' ∷ b'x' ∷ bytes s
unfolding bytes
bytes-prefixed s = ap bytes (prefixed s)

not-empty_0x : (s : String) → str_eq ("0x" +++ s) "" ≡ false
not-empty_0x s = elim (Bool-cases (str_eq ("0x" +++ s) "")) [
  | inl e ↦ absurd (cons-ne-nil "0" ("x" ∷ˢ s) (sym (prefixed s) ∙ (eq_iff ("0x" +++ s) "").0 e))
  | inr e ↦ e
]

module _ (fj : Fastjson) (eg : Ethgo) (ms : Messages) where
  -- The parameters are an array of an address and of hexadecimal text for 32 bytes, and whatever
  -- follows.
  abbrev pub SignForm : Option Value → String → List ℕ → Type 0
  SignForm params address content =
      (text : String) × (rest : Items) × (params
        ≡ some (arr (cons (str address) (cons (str text) rest))))
      × (parse_hex fj eg ms text ≡ ok content)
      × (length content ≡ 32)

  sign_data_sound :
      (a address : String) (v : Value) (content : List ℕ)
      → sign_data fj eg ms a v ≡ ok (address, content)
      → (text : String) × (v ≡ str text)
        × (a ≡ address)
        × (parse_hex fj eg ms text ≡ ok content)
        × (length content ≡ 32)
  sign_data_sound a address (str text) content h =
      (text, refl, ground arith, ground arith, ground arith)
  sign_data_sound a address _ content h = absurd (ground arith)

  sign_array_sound :
      (vs : Items) (address : String) (content : List ℕ)
      → sign_array fj eg ms vs ≡ ok (address, content)
      → SignForm (some (arr vs)) address content
  sign_array_sound (cons (str a) (cons v vs)) address content h =
      let (text, e, same, parsed, n) = sign_data_sound a address v content h in
      (text, vs, ground arith, parsed, n)
  sign_array_sound _ address content h = absurd (ground arith)

  sign_interfaces_sound :
      (vs : Items) (got : Option Items) (address : String) (content : List ℕ)
      → as_items vs ≡ got
      → sign_interfaces fj eg ms (arr vs) got ≡ ok (address, content)
      → SignForm (some (arr vs)) address content
  sign_interfaces_sound vs none address content e h = absurd (ground arith)
  sign_interfaces_sound vs (some xs) address content e h =
      let (text, rest, form, parsed, n) = sign_array_sound xs address content h in
      let whole : as_items vs ≡ some (cons (str address) (cons (str text) rest)) = cc (e, form) in
      let (more, same) = as_items-texts vs rest address text whole in
      (text, more, ap (λ x. some (arr x)) same, parsed, n)

  -- Accepted parameters of eth_sign are an array that starts with the address returned and
  -- with a text that spells the 32 bytes returned.
  pub parse_sign_params_sound :
      (params : Option Value) (address : String) (content : List ℕ)
      → parse_sign_params fj eg ms params ≡ ok (address, content)
      → SignForm params address content
  unfolding parse_sign_params
  parse_sign_params_sound (some (arr vs)) address content h =
      sign_interfaces_sound vs (as_items vs) address content refl h
  parse_sign_params_sound _ address content h = absurd (ground arith)

  parse_hex-hex_encode :
      (bs : List ℕ) → IsBytes bs → parse_hex fj eg ms ("0x" +++ hex_encode bs) ≡ ok bs
  unfolding parse_hex is_prefix
  parse_hex-hex_encode bs h = ground (
    arith,
    not-empty_0x (hex_encode bs),
    bytes-prefixed (hex_encode bs),
    length-hex_encode bs h,
    hex_decode-hex_encode bs h,
  )

  -- As parameters of eth_sign, an address and 0x with the hexadecimal text of 32 bytes are
  -- accepted, with more parameters after them in which no number is beyond the range of a
  -- float64, and give back both.
  pub parse_sign_params_complete :
      (address : String) (bs : List ℕ) (rest kept : Items)
      → IsBytes bs
      → length bs ≡ 32
      → as_items rest ≡ some kept
      → parse_sign_params fj eg ms
          (some (arr (cons (str address) (cons (str ("0x" +++ hex_encode bs)) rest))))
        ≡ ok (address, bs)
  unfolding parse_sign_params as_items
  parse_sign_params_complete address bs rest kept h n e = ground (arith, parse_hex-hex_encode bs h)
