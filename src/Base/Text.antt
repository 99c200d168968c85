-- ===== src/Base/Text.antt =====
-- Text: a Go string is the native `String`; its bytes, where the code walks or measures them, are
-- its UTF-8.
use Prim.Native.Nat.{ℕ, zero, suc, ◌+◌, ◌/◌, ◌%◌}
use Prim.Native.Char.{Char, code}
use Prim.Native.String
use Prim.Native.String.{String}
use mathlib.Core.Bool.{Bool, true, false, ◌&&◌}
use mathlib.Core.List.{List, [], ◌∷◌, ◌++◌}
use text.Mathlib.Text.{◌==◌ as str_eq'}
use web3signer_go.Base.Tests.{ltb, leb, ◌==◌, if◌then◌else◌}
use web3signer_go.Base.Int.{ℤ, pos, negsuc}

abbrev pub str_eq : String → String → Bool
str_eq s t = str_eq' s t

infixr 65 ◌+++◌
abbrev pub ◌+++◌ : String → String → String
s +++ t = String.◌++◌ s t

-- One code point in UTF-8.
abbrev utf8 : ℕ → List ℕ
utf8 c =
    if ltb c 0x80
    then c ∷ []
    else if ltb c 0x800
    then (0xc0 + c / 64) ∷ (0x80 + c % 64) ∷ []
    else if ltb c 0x10000
    then (0xe0 + c / 4096) ∷ (0x80 + c / 64 % 64) ∷ (0x80 + c % 64) ∷ []
    else (0xf0 + c / 262144) ∷ (0x80 + c / 4096 % 64) ∷ (0x80 + c / 64 % 64) ∷ (0x80 + c % 64) ∷ []

-- The code points, as a Go `range` over the string visits them.
unfoldable pub runes : String → List ℕ
runes String.[] = []
runes (String.◌∷◌ c s) = code c ∷ runes s

-- The bytes, as `len`, slicing and indexing see them.
unfoldable pub bytes : String → List ℕ
bytes String.[] = []
bytes (String.◌∷◌ c s) = utf8 (code c) ++ bytes s

-- The simple case folding of one code point, for comparison with ASCII letters: upper case letters,
-- and the two others that fold to an ASCII letter, U+017F to s and U+212A to k.
pub fold_rune : ℕ → ℕ
fold_rune c =
    if leb b'A' c && leb c b'Z'
    then c + 32
    else if c == 0x17f
    then b's'
    else if c == 0x212a
    then b'k'
    else c

eq_fold_runes : List ℕ → List ℕ → Bool
eq_fold_runes [] [] = true
eq_fold_runes (c ∷ s) (d ∷ t) = fold_rune c == fold_rune d && eq_fold_runes s t
eq_fold_runes _ _ = false

-- strings.EqualFold, where one side is ASCII.
unfoldable pub equal_fold : String → String → Bool
unfolding eq_fold_runes runes fold_rune
equal_fold s t = eq_fold_runes (runes s) (runes t)

unfoldable pub is_prefix : List ℕ → List ℕ → Bool
is_prefix [] s = true
is_prefix (c ∷ p) [] = false
is_prefix (c ∷ p) (d ∷ s) = c == d && is_prefix p s

-- strings.HasPrefix.
unfoldable pub has_prefix : String → String → Bool
unfolding is_prefix bytes
has_prefix s p = is_prefix (bytes p) (bytes s)

decimal_digit : ℕ → Char
decimal_digit n =
    if n == 0
    then "0"
    else if n == 1
    then "1"
    else if n == 2
    then "2"
    else if n == 3
    then "3"
    else if n == 4
    then "4"
    else if n == 5
    then "5"
    else if n == 6
    then "6"
    else if n == 7
    then "7"
    else if n == 8
    then "8"
    else "9"

-- One digit for each round; a number has no more digits than its own value and one.
show_from : ℕ → ℕ → String → String
show_from zero n acc = acc
show_from (suc fuel) n acc =
    let more = show_from fuel (n / 10) (String.◌∷◌ (decimal_digit (n % 10)) acc) in
    if n == 0 then acc else more

-- %d of a number that is not negative.
unfoldable pub show_ℕ : ℕ → String
unfolding show_from decimal_digit
show_ℕ n = if n == 0 then "0" else show_from n n ""

-- %d.
unfoldable pub show_ℤ : ℤ → String
unfolding show_ℕ
show_ℤ (pos n) = show_ℕ n
show_ℤ (negsuc n) = "-" +++ show_ℕ (suc n)
