-- ===== src/Signer/Decode/Laws.antt =====
-- What the decoders of numbers accept.
use web3signer_go.Base.{
  Bool-cases, neg, str_eq, bytes, ok, ℕ, ◌<◌, String, ◌≡◌, refl, ◌↔◌, inl, inr, Option, none, some,
  arith, eq_iff,
}
use Prim.Native.Char.{Char, code}
use Prim.Native.String.{◌∷◌ as ◌∷ˢ◌}
use text.Mathlib.TextLemmas.{cons-ne-nil}
use web3signer_go.Jsonrpc.Value.{Value}
use web3signer_go.Utils.{hex_number}
use web3signer_go.Utils.Laws.{Spells, hex_number_iff}
use web3signer_go.Signer.Transaction.{u64}
use web3signer_go.Signer.Decode.{
  Fastjson, trim_quotes, strip_0x, parse_uint, parse_big, or_zero, is_key_set, decode_uint,
  decode_uint_optional, decode_big_int,
}

parse_uint_iff :
    (text : String) (n : ℕ) → (parse_uint text ≡ some n) ↔ (Spells (bytes text) n × (n < u64))
unfolding parse_uint
parse_uint_iff text n = (to (hex_number (bytes text)) refl, from)
  where
    to :
        (o : Option ℕ)
        → hex_number (bytes text) ≡ o
        → parse_uint text ≡ some n
        → Spells (bytes text) n × (n < u64)
    to none e h = absurd (ground arith)
    to (some m) e h = ((hex_number_iff (bytes text) n).0 (ground arith), ground arith)

    from : Spells (bytes text) n × (n < u64) → parse_uint text ≡ some n
    from (spelt, small) = let e = (hex_number_iff (bytes text) n).1 spelt in ground arith

or_zero-cons : (c : Char) (s : String) → or_zero (c ∷ˢ s) ≡ c ∷ˢ s
or_zero-cons c s = elim (Bool-cases (str_eq (c ∷ˢ s) "")) [
  | inl e ↦ absurd (cons-ne-nil c s ((eq_iff (c ∷ˢ s) "").0 e))
  | inr e ↦ rw e refl
]

module _ (fj : Fastjson) (v : Value) (key : String) where
  -- The field is there, and its text, quotes trimmed, is 0x and `digits`, where no digit at all
  -- stands for the digit 0.
  abbrev pub Prefixed : String → Type 0
  Prefixed digits =
      (x : Value) × (fj.get v key ≡ some x) × (strip_0x (trim_quotes (fj.text x)) ≡ some digits)

  decode_uint_text :
      (digits : String) (n : ℕ)
      → Prefixed digits
      → (decode_uint fj v key ≡ ok n) ↔ (parse_uint (or_zero digits) ≡ some n)
  unfolding decode_uint
  decode_uint_text digits n (x, got, text) = ground arith

  decode_uint-Prefixed : (n : ℕ) → decode_uint fj v key ≡ ok n → (digits : String) × Prefixed digits
  unfolding decode_uint
  decode_uint-Prefixed n h = go (fj.get v key) refl
    where
      step :
          (x : Value) (o : Option String)
          → fj.get v key ≡ some x
          → strip_0x (trim_quotes (fj.text x)) ≡ o
          → (digits : String) × Prefixed digits
      step x none got e = absurd (ground arith)
      step x (some digits) got e = (digits, (x, got, e))

      go : (o : Option Value) → fj.get v key ≡ o → (digits : String) × Prefixed digits
      go none e = absurd (ground arith)
      go (some x) e = step x (strip_0x (trim_quotes (fj.text x))) e refl

  -- A required number decodes to n exactly when its field is there with text 0x and
  -- hexadecimal digits that spell n, and n is below 2^64.
  pub decode_uint_iff :
      (n : ℕ)
      → (decode_uint fj v key ≡ ok n)
        ↔ ((digits : String) × Prefixed digits × Spells (bytes (or_zero digits)) n × (n < u64))
  decode_uint_iff n = (
    (λ h.
        let (digits, p) = decode_uint-Prefixed n h in
        let (spelt, small) =
          (parse_uint_iff (or_zero digits) n).0 ((decode_uint_text digits n p).0 h) in
        (digits, p, spelt, small)),
    (λ (digits, p, spelt, small).
        (decode_uint_text digits n p).1 ((parse_uint_iff (or_zero digits) n).1 (spelt, small))),
  )

  -- An optional number that is not an error is below 2^64.
  pub decode_uint_optional-lt : (n : ℕ) → decode_uint_optional fj v key ≡ ok n → n < u64
  unfolding decode_uint_optional
  decode_uint_optional-lt n h = elim (Bool-cases (is_key_set fj v key)) [
    | inl e ↦ ((decode_uint_iff n).0 (ground arith)).3
    | inr e ↦ ground arith
  ]

  -- A big integer may be negative: 0x, a minus sign and hexadecimal digits that spell n decode
  -- to the integer -n.
  pub decode_big_int-negative :
      (c : Char) (digits : String) (n : ℕ)
      → code c ≡ b'-'
      → Prefixed (c ∷ˢ digits)
      → Spells (bytes digits) n
      → decode_big_int fj v key ≡ ok (some (neg n))
  unfolding decode_big_int parse_big
  decode_big_int-negative c digits n minus (x, got, text) spelt =
      let e = (hex_number_iff (bytes digits) n).1 spelt in
      let filled = or_zero-cons c digits in ground arith
