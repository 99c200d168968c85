-- ===== src/Utils/Laws.antt =====
-- Hexadecimal text: decoding undoes encoding, and what a valid address is.
use web3signer_go.Base.{
  ltb, ◌==◌, if◌then◌else◌, Bool-cases, length, drop, all, All, str_eq, bytes, is_prefix, ℕ, zero,
  suc, ◌+◌, ◌*◌, ◌/◌, ◌%◌, ◌^◌, ◌<◌, String, ◌≡◌, refl, sym, ap, subst, ◌∙◌, ◌≢◌, ◌↔◌, inl, inr,
  Bool, true, false, not, ◌&&◌, Option, none, some, List, [], ◌∷◌, arith, eq_iff,
}
use Prim.Native.Char.{Char, code}
use Prim.Native.String.{◌∷◌ as ◌∷ˢ◌}
use native.Mathlib.Nat.{pow-suc}
use web3signer_go.Utils.{
  is_hex_digit, is_valid_eth_address, hex_digit, hex_digits, number_from, hex_number, pair_up,
  hex_decode, hex_char, hex_encode,
}

-- Every byte of the list is below 256.
abbrev pub IsBytes : List ℕ → Type 0
IsBytes = All (λ b. b < 256)

-- A test that holds of every number below a bound, by evaluation.
holds_below : (ℕ → Bool) → ℕ → Bool
holds_below test zero = true
holds_below test (suc bound) = holds_below test bound && test bound

holds_below_lem :
    (test : ℕ → Bool) (bound d : ℕ) → d < bound → holds_below test bound ≡ true → test d ≡ true
unfolding holds_below
holds_below_lem test zero d small e = absurd (omega arith)
holds_below_lem test (suc bound) d small e = ground (arith, holds_below_lem test bound d)

reads_back : ℕ → Bool
reads_back d =
    ltb (code (hex_char d)) 0x80
    && elim (hex_digit (code (hex_char d))) [ none ↦ false | some e ↦ e == d ]

reads_back_table : holds_below reads_back 16 ≡ true
unfolding holds_below reads_back hex_char hex_digit
reads_back_table = refl

hex_digit-hex_char :
    (d : ℕ) → d < 16 → (code (hex_char d) < 0x80) × (hex_digit (code (hex_char d)) ≡ some d)
unfolding reads_back
hex_digit-hex_char d h = ground (arith, holds_below_lem reads_back 16 d h reads_back_table)

bytes-ascii : (c : Char) (s : String) → code c < 0x80 → bytes (c ∷ˢ s) ≡ code c ∷ bytes s
unfolding bytes
bytes-ascii c s h = ground arith

hex_digits-pair :
    (c d : ℕ) (cs : List ℕ) (m n : ℕ) (ds : List ℕ)
    → hex_digit c ≡ some m
    → hex_digit d ≡ some n
    → hex_digits cs ≡ some ds
    → hex_digits (c ∷ d ∷ cs) ≡ some (m ∷ n ∷ ds)
unfolding hex_digits
hex_digits-pair c d cs m n ds p q r = ground arith

nibbles : List ℕ → List ℕ
nibbles [] = []
nibbles (b ∷ bs) = b / 16 ∷ b % 16 ∷ nibbles bs

hex_digits-hex_encode :
    (bs : List ℕ) → IsBytes bs → hex_digits (bytes (hex_encode bs)) ≡ some (nibbles bs)
unfolding hex_digits hex_encode nibbles bytes
hex_digits-hex_encode [] h = refl
hex_digits-hex_encode (b ∷ bs) h =
    let hi = hex_digit-hex_char (b / 16) (omega arith) in
    let lo = hex_digit-hex_char (b % 16) (omega arith) in
    let e =
      bytes-ascii (hex_char (b / 16)) (hex_char (b % 16) ∷ˢ hex_encode bs) hi.0
      ∙ ap (◌∷◌ (code (hex_char (b / 16))))
          (bytes-ascii (hex_char (b % 16)) (hex_encode bs) lo.0) in
    ap hex_digits e
    ∙ hex_digits-pair (code (hex_char (b / 16))) (code (hex_char (b % 16))) (bytes (hex_encode bs))
        _ _ _ hi.1 lo.1 (hex_digits-hex_encode bs h.1)

-- Each byte is written with two characters.
pub length-hex_encode : (bs : List ℕ) → IsBytes bs → length (bytes (hex_encode bs)) ≡ 2 * length bs
unfolding hex_encode bytes
length-hex_encode [] h = refl
length-hex_encode (b ∷ bs) h =
    let hi = hex_digit-hex_char (b / 16) (omega arith) in
    let lo = hex_digit-hex_char (b % 16) (omega arith) in
    let e = bytes-ascii (hex_char (b / 16)) (hex_char (b % 16) ∷ˢ hex_encode bs) hi.0 in
    let e' = bytes-ascii (hex_char (b % 16)) (hex_encode bs) lo.0 in
    omega (arith, ap length e, ap length e', length-hex_encode bs h.1)

pair_up-nibbles : (bs : List ℕ) → pair_up (nibbles bs) ≡ some bs
unfolding pair_up nibbles
pair_up-nibbles [] = refl
pair_up-nibbles (b ∷ bs) = ground (arith, pair_up-nibbles bs)

-- Decoding the hexadecimal text of bytes gives the bytes.
pub hex_decode-hex_encode :
    (bs : List ℕ) → IsBytes bs → hex_decode (bytes (hex_encode bs)) ≡ some bs
unfolding hex_decode
hex_decode-hex_encode bs h = ground (arith, hex_digits-hex_encode bs h, pair_up-nibbles bs)

-- The number that a list of hexadecimal digits spells, from the last digit up.
abbrev pub weigh : List ℕ → ℕ
weigh [] = 0
weigh (d ∷ ds) = d * 16 ^ length ds + weigh ds

number_from-weigh : (acc : ℕ) (ds : List ℕ) → number_from acc ds ≡ acc * 16 ^ length ds + weigh ds
unfolding number_from
number_from-weigh acc [] = omega arith
number_from-weigh acc (d ∷ ds) =
    omega
      (arith, number_from-weigh (acc * 16 + d) ds, ap (λ (t : ℕ). acc * t) (pow-suc 16 (length ds)))

-- Text that spells a number: hexadecimal digits, of one at least, with their weights.
abbrev pub Spells : List ℕ → ℕ → Type 0
Spells cs n = (cs ≢ []) × (ds : List ℕ) × (hex_digits cs ≡ some ds) × (n ≡ weigh ds)

-- The reader of numbers accepts exactly such text.
pub hex_number_iff : (cs : List ℕ) (n : ℕ) → (hex_number cs ≡ some n) ↔ Spells cs n
unfolding hex_number
hex_number_iff [] n = ((λ h. cc), (λ h. absurd (h.0 refl)))
hex_number_iff (c ∷ cs) n = (to (hex_digits (c ∷ cs)) refl, from)
  where
    to :
        (o : Option (List ℕ))
        → hex_digits (c ∷ cs) ≡ o
        → hex_number (c ∷ cs) ≡ some n
        → Spells (c ∷ cs) n
    to none e h = absurd (ground arith)
    to (some ds) e h = ((λ x. cc), ds, e, ground (arith, number_from-weigh 0 ds))

    from : Spells (c ∷ cs) n → hex_number (c ∷ cs) ≡ some n
    from (x, ds, e, w) = ground (arith, number_from-weigh 0 ds)

-- 0x and forty hexadecimal digits.
abbrev pub IsAddress : List ℕ → Type 0
IsAddress bs =
    (ds : List ℕ) × (bs ≡ b'0' ∷ b'x' ∷ ds) × (length ds ≡ 40) × (all is_hex_digit ds ≡ true)

checks : List ℕ → Bool
checks bs =
    if not (is_prefix (b'0' ∷ b'x' ∷ []) bs)
    then false
    else if not (length bs == 42)
    then false
    else all is_hex_digit (drop 2 bs)

checks_iff : (bs : List ℕ) → (checks bs ≡ true) ↔ IsAddress bs
unfolding checks is_prefix
checks_iff [] = ((λ h. cc), (λ h. cc (h.1)))
checks_iff (c ∷ []) = ((λ h. absurd (ground arith)), (λ h. cc (h.1)))
checks_iff (c ∷ d ∷ ds) =
    ((λ h. (ds, ground arith, ground arith, ground arith)), (λ h. ground arith))

is_valid_eth_address-checks : (addr : String) → is_valid_eth_address addr ≡ checks (bytes addr)
unfolding is_valid_eth_address checks
is_valid_eth_address-checks addr = elim (Bool-cases (str_eq addr "")) [
  | inl e ↦ rw ((eq_iff addr "").0 e) refl
  | inr e ↦ ground arith
]

-- The check of addresses accepts exactly the text whose bytes are 0x and forty hexadecimal
-- digits.
pub is_valid_eth_address_iff :
    (addr : String) → (is_valid_eth_address addr ≡ true) ↔ IsAddress (bytes addr)
is_valid_eth_address_iff addr =
    subst (λ (b : Bool). (b ≡ true) ↔ IsAddress (bytes addr))
      (sym (is_valid_eth_address-checks addr)) (checks_iff (bytes addr))
