-- ===== src/Utils.antt =====
-- internal/utils/validation.go, and hexadecimal text as encoding/hex, strconv and math/big read
-- and write it. The loop over the runes of an address is a loop over its bytes: in either, what is
-- not ASCII is no hexadecimal digit.
pub mod Laws
mod Tests
use web3signer_go.Base.{
  leb, ◌==◌, if◌then◌else◌, length, drop, all, str_eq, runes, bytes, has_prefix, ℕ, ◌+◌, ◌-◌, ◌*◌,
  ◌/◌, ◌%◌, String, Bool, false, not, ◌&&◌, ◌||◌, Option, none, some, List, [], ◌∷◌,
}
use Prim.Native.Char.{Char}
use Prim.Native.String.{◌∷◌ as ◌∷ˢ◌}

unfoldable pub is_hex_digit : ℕ → Bool
is_hex_digit c =
    (leb b'0' c && leb c b'9') || ((leb b'a' c && leb c b'f') || (leb b'A' c && leb c b'F'))

unfoldable pub is_valid_eth_address : String → Bool
unfolding is_hex_digit has_prefix bytes
is_valid_eth_address addr =
    if str_eq addr ""
    then false
    else if not (has_prefix addr "0x")
    then false
    else if not (length (bytes addr) == 42)
    then false
    else all is_hex_digit (drop 2 (bytes addr))

-- The value of a hexadecimal digit.
unfoldable pub hex_digit : ℕ → Option ℕ
hex_digit c =
    if leb b'0' c && leb c b'9'
    then some (c - b'0')
    else if leb b'a' c && leb c b'f'
    then some (c - b'a' + 10)
    else if leb b'A' c && leb c b'F'
    then some (c - b'A' + 10)
    else none

unfoldable pub hex_digits : List ℕ → Option (List ℕ)
unfolding hex_digit
hex_digits [] = some []
hex_digits (c ∷ cs) = elim (hex_digit c) [
  | none ↦ none
  | some d ↦ elim (hex_digits cs) [ none ↦ none | some ds ↦ some (d ∷ ds) ]
]

unfoldable pub number_from : ℕ → List ℕ → ℕ
number_from acc [] = acc
number_from acc (d ∷ ds) = number_from (acc * 16 + d) ds

-- The number that hexadecimal text spells; the empty text spells none.
unfoldable pub hex_number : List ℕ → Option ℕ
unfolding hex_digits number_from
hex_number [] = none
hex_number (c ∷ cs) = elim (hex_digits (c ∷ cs)) [ none ↦ none | some ds ↦ some (number_from 0 ds) ]

unfoldable pub pair_up : List ℕ → Option (List ℕ)
pair_up [] = some []
pair_up (d ∷ []) = none
pair_up (d ∷ e ∷ ds) = elim (pair_up ds) [ none ↦ none | some bs ↦ some ((d * 16 + e) ∷ bs) ]

-- hex.DecodeString.
unfoldable pub hex_decode : List ℕ → Option (List ℕ)
unfolding hex_digits pair_up
hex_decode cs = elim (hex_digits cs) [ none ↦ none | some ds ↦ pair_up ds ]

unfoldable pub hex_char : ℕ → Char
hex_char d =
    if d == 0
    then "0"
    else if d == 1
    then "1"
    else if d == 2
    then "2"
    else if d == 3
    then "3"
    else if d == 4
    then "4"
    else if d == 5
    then "5"
    else if d == 6
    then "6"
    else if d == 7
    then "7"
    else if d == 8
    then "8"
    else if d == 9
    then "9"
    else if d == 10
    then "a"
    else if d == 11
    then "b"
    else if d == 12
    then "c"
    else if d == 13
    then "d"
    else if d == 14
    then "e"
    else "f"

-- hex.EncodeToString.
unfoldable pub hex_encode : List ℕ → String
unfolding hex_char
hex_encode [] = ""
hex_encode (b ∷ bs) = hex_char (b / 16) ∷ˢ (hex_char (b % 16) ∷ˢ hex_encode bs)
