-- ===== src/Text.antt =====
-- JavaScript strings as lists of UTF-16 code units, the string methods that the packages call, and
-- the hexadecimal tests and conversions of web3-validator (`validation/string.ts`, `utils.ts`).
-- `toLowerCase` and `toUpperCase` are given on ASCII: the other code units stay as they are.
pub mod Hex
use Prim.Native.Char.{code}
use Prim.Native.String.{String}
use electroneum_web3_js.Base.{
  ℕ, zero, suc, ◌+◌, ◌-◌, ◌*◌, ◌%◌, List, [], ◌∷◌, ◌++◌, Bool, true, false, not, ◌&&◌, ◌||◌, Option,
  none, some, if◌then◌else◌, ltb, leb, ◌==◌, length, all, map, drop, pad_start,
}
use electroneum_web3_js.Digits.{digits, value}

abbrev pub Text : Type 0
Text = List ℕ

-- A string literal.
abbrev pub lit : String → Text
lit String.[] = []
lit (String.◌∷◌ c s) = code c ∷ lit s

-- `s === t`
abbrev pub text_eq : Text → Text → Bool
text_eq [] [] = true
text_eq [] (d ∷ t) = false
text_eq (c ∷ s) [] = false
text_eq (c ∷ s) (d ∷ t) = c == d && text_eq s t

-- `t.startsWith(p)`, the prefix first.
abbrev pub starts_with : Text → Text → Bool
starts_with [] t = true
starts_with (c ∷ p) [] = false
starts_with (c ∷ p) (d ∷ t) = c == d && starts_with p t

unfoldable pub lower : ℕ → ℕ
lower c = if leb b'A' c && leb c b'Z' then c + 32 else c

unfoldable pub upper : ℕ → ℕ
upper c = if leb b'a' c && leb c b'z' then c - 32 else c

-- The value of a letter or digit, as `parseInt` reads it in a radix up to 36.
unfoldable pub char_digit : ℕ → Option ℕ
char_digit c =
    if leb b'0' c && leb c b'9'
    then some (c - 48)
    else if leb b'a' c && leb c b'z'
    then some (c - 87)
    else if leb b'A' c && leb c b'Z'
    then some (c - 55)
    else none

unfoldable pub digit_char : ℕ → ℕ
digit_char d = if ltb d 10 then d + 48 else d + 87

-- `parseInt(c, radix)` on one character; `none` is NaN.
unfoldable pub digit_in : ℕ → ℕ → Option ℕ
digit_in radix c = elim (char_digit c) [
  | none ↦ none
  | some d ↦ if ltb d radix then some d else none
]

-- `n.toString(radix)`
unfoldable pub to_string : ℕ → ℕ → Text
to_string radix n = map digit_char (digits radix n)

unfoldable pub digit_values : ℕ → Text → Option (List ℕ)
digit_values radix [] = some []
digit_values radix (c ∷ t) = elim (digit_in radix c) [
  | none ↦ none
  | some d ↦ elim (digit_values radix t) [ none ↦ none | some ds ↦ some (d ∷ ds) ]
]

-- The number that a non-empty run of digits stands for.
unfoldable pub parse_digits : ℕ → Text → Option ℕ
parse_digits radix [] = none
parse_digits radix (c ∷ t) = elim (digit_values radix (c ∷ t)) [
  | none ↦ none
  | some ds ↦ some (value radix ds)
]

unfoldable pub is_hex_digit : ℕ → Bool
is_hex_digit c = leb b'0' c && leb c b'9' || leb b'a' c && leb c b'f' || leb b'A' c && leb c b'F'

-- `0x` or `0X`
abbrev pub has_0x : Text → Bool
has_0x t = starts_with (lit "0x") t || starts_with (lit "0X") t

abbrev pub is_nil : Text → Bool
is_nil [] = true
is_nil (c ∷ t) = false

abbrev pub drop_minus : Text → Text
drop_minus t = if starts_with (lit "-") t then drop 1 t else t

-- `/^((-)?0x[0-9a-f]+|(0x))$/i`
unfoldable pub is_hex_strict : Text → Bool
is_hex_strict t =
    let body = drop 2 (drop_minus t) in
    has_0x (drop_minus t) && not (is_nil body) && all is_hex_digit body
    || has_0x t && is_nil (drop 2 t)

-- `/^((-0x|0x|-)?[0-9a-f]+|(0x))$/i` on a string
unfoldable pub is_hex : Text → Bool
is_hex t =
    let bare = drop_minus t in
    not (is_nil bare) && all is_hex_digit bare
    || has_0x bare && not (is_nil (drop 2 bare)) && all is_hex_digit (drop 2 bare)
    || has_0x t && is_nil (drop 2 t)

-- `BigInt(t)` for the strings that pass `isHex` and have no sign: `none` is a SyntaxError.
unfoldable pub big_int : Text → Option ℕ
big_int t =
    if has_0x t
    then parse_digits 16 (drop 2 t)
    else if starts_with (lit "0b") t || starts_with (lit "0B") t
    then parse_digits 2 (drop 2 t)
    else parse_digits 10 t

-- White space that `parseInt` skips.
unfoldable pub is_space : ℕ → Bool
is_space c =
    leb 9 c && leb c 13
    || c == 32
    || c == 0xa0
    || c == 0x1680
    || leb 0x2000 c && leb c 0x200a
    || c == 0x2028
    || c == 0x2029
    || c == 0x202f
    || c == 0x205f
    || c == 0x3000
    || c == 0xfeff

-- What `bytes[i] = parseInt(cd, 16)` stores for the two characters `c`, `d`: NaN is stored as 0.
unfoldable pub parse_byte : ℕ → ℕ → ℕ
parse_byte c d = elim (digit_in 16 c) [
  | some hi ↦ elim (digit_in 16 d) [ some lo ↦ hi * 16 + lo | none ↦ hi ]
  | none ↦ elim (digit_in 16 d) [
    | some lo ↦ if c == b'-' then (256 - lo) % 256 else if c == b'+' || is_space c then lo else 0
    | none ↦ 0
  ]
]

unfoldable pub parse_pairs : Text → List ℕ
parse_pairs [] = []
parse_pairs (c ∷ []) = []
parse_pairs (c ∷ d ∷ t) = parse_byte c d ∷ parse_pairs t

-- `hexToUint8Array`: `none` is the InvalidBytesError of an odd length.
unfoldable pub hex_to_uint8_array : Text → Option (List ℕ)
hex_to_uint8_array hex =
    let t = if has_0x hex then drop 2 hex else hex in
    if length t % 2 == 0 then some (parse_pairs t) else none

unfoldable pub byte_hex : ℕ → Text
byte_hex e = let hex = to_string 16 e in if length hex == 1 then b'0' ∷ hex else hex

unfoldable pub bytes_hex : List ℕ → Text
bytes_hex [] = []
bytes_hex (e ∷ es) = byte_hex e ++ bytes_hex es

-- `uint8ArrayToHexString`
unfoldable pub uint8_array_to_hex_string : List ℕ → Text
uint8_array_to_hex_string es = b'0' ∷ b'x' ∷ bytes_hex es

-- `padLeft(t, width)` on a string: the digits of a strict hexadecimal string are padded behind its
-- prefix, any other string in front.
unfoldable pub pad_left : Text → ℕ → Text
pad_left t width =
    if is_hex_strict t
    then (if starts_with (lit "-") t
        then lit "-0x" ++ pad_start width b'0' (drop 3 t)
        else lit "0x" ++ pad_start width b'0' (drop 2 t))
    else pad_start width b'0' t
