-- ===== src/Text/Hex.antt =====
-- Bytes to hexadecimal text and back.
use electroneum_web3_js.Base.{
  ℕ, zero, suc, ◌+◌, ◌*◌, ◌/◌, ◌%◌, ◌≤◌, ◌<◌, ◌≡◌, refl, ap, ◌∙◌, List, [], ◌∷◌, All, Bool, true,
  ◌&&◌, some, arith, length, length-map, map,
}
use electroneum_web3_js.Text.{
  Text, text_eq, digit_char, digit_in, char_digit, byte_hex, bytes_hex, to_string, parse_byte,
  parse_pairs, hex_to_uint8_array, uint8_array_to_hex_string, digit_values, parse_digits, big_int,
}
use electroneum_web3_js.Digits.{digits, value, value_from}
use mathlib.Core.Path.{ap₂}

abbrev pub IsByte : ℕ → Type 0
IsByte b = b < 256

pub digit_in-digit_char :
    (radix d : ℕ) → radix ≤ 36 → d < radix → digit_in radix (digit_char d) ≡ some d
unfolding digit_in char_digit digit_char
digit_in-digit_char radix d h k = ground arith

-- A table over the bytes, checked by evaluation.
unfoldable pub holds_below : (ℕ → Bool) → ℕ → Bool
holds_below test zero = true
holds_below test (suc bound) = holds_below test bound && test bound

pub holds_below-lt :
    (test : ℕ → Bool) (bound k : ℕ) → k < bound → holds_below test bound ≡ true → test k ≡ true
unfolding holds_below
holds_below-lt test zero k lt h = elim lt [ ]
holds_below-lt test (suc bound) k lt h = ground (arith, holds_below-lt test bound k)

pub text_eq→eq : (s t : Text) → text_eq s t ≡ true → s ≡ t
text_eq→eq [] [] h = refl
text_eq→eq [] (d ∷ t) h = cc
text_eq→eq (c ∷ s) [] h = cc
text_eq→eq (c ∷ s) (d ∷ t) h = ground (arith, text_eq→eq s t)

abbrev two_digits : ℕ → Text
two_digits b = digit_char (b / 16) ∷ digit_char (b % 16) ∷ []

byte_hex_table : holds_below (λ b. text_eq (byte_hex b) (two_digits b)) 256 ≡ true
unfolding holds_below byte_hex digit_char to_string digits
byte_hex_table = refl

byte_hex_lem : (b : ℕ) → IsByte b → byte_hex b ≡ two_digits b
byte_hex_lem b h = text_eq→eq _ _ (holds_below-lt _ 256 b h byte_hex_table)

-- Runs of digits.
digit_values-map :
    (radix : ℕ) (ds : List ℕ)
    → radix ≤ 36
    → All (λ d. d < radix) ds
    → digit_values radix (map digit_char ds) ≡ some ds
unfolding digit_values
digit_values-map radix [] hr h = refl
digit_values-map radix (d ∷ ds) hr (hd, h) =
    rw (digit_in-digit_char radix d hr hd, digit_values)
      (rw (digit_values-map radix ds hr h, digit_values))

pub parse_digits-map :
    (radix d : ℕ) (ds : List ℕ)
    → radix ≤ 36
    → All (λ d. d < radix) (d ∷ ds)
    → parse_digits radix (map digit_char (d ∷ ds)) ≡ some (value radix (d ∷ ds))
unfolding parse_digits
parse_digits-map radix d ds hr h = rw (digit_values-map radix (d ∷ ds) hr h, parse_digits)

parse_byte-digits :
    (hi lo : ℕ) → hi < 16 → lo < 16 → parse_byte (digit_char hi) (digit_char lo) ≡ hi * 16 + lo
unfolding parse_byte
parse_byte-digits hi lo h k = ground (arith, digit_in-digit_char 16 hi, digit_in-digit_char 16 lo)

-- Bytes as pairs of hexadecimal digits.
pub nibbles : List ℕ → List ℕ
nibbles [] = []
nibbles (b ∷ bs) = (b / 16) ∷ (b % 16) ∷ nibbles bs

pub nibbles-All : (bs : List ℕ) → All IsByte bs → All (λ d. d < 16) (nibbles bs)
unfolding nibbles
nibbles-All [] h = tt
nibbles-All (b ∷ bs) (hb, h) = (omega arith, (omega arith, nibbles-All bs h))

pub length-nibbles : (bs : List ℕ) → length (nibbles bs) ≡ 2 * length bs
unfolding nibbles
length-nibbles [] = refl
length-nibbles (b ∷ bs) = omega (arith, length-nibbles bs)

value_from-nibbles :
    (acc : ℕ) (bs : List ℕ) → value_from 16 acc (nibbles bs) ≡ value_from 256 acc bs
unfolding value_from nibbles
value_from-nibbles acc [] = refl
value_from-nibbles acc (b ∷ bs) =
    ap (λ a. value_from 16 a (nibbles bs)) (omega arith) ∙ value_from-nibbles (acc * 256 + b) bs

pub bytes_hex-nibbles : (bs : List ℕ) → All IsByte bs → bytes_hex bs ≡ map digit_char (nibbles bs)
unfolding bytes_hex nibbles
bytes_hex-nibbles [] h = refl
bytes_hex-nibbles (b ∷ bs) (hb, h) = rw (byte_hex_lem b hb, bytes_hex-nibbles bs h)

-- The bytes that `hexToUint8Array` reads off a run of digits.
pub pairs : List ℕ → List ℕ
pairs [] = []
pairs (c ∷ []) = []
pairs (c ∷ d ∷ ds) = (c * 16 + d) ∷ pairs ds

pub parse_pairs-map :
    (ds : List ℕ) → All (λ d. d < 16) ds → parse_pairs (map digit_char ds) ≡ pairs ds
unfolding parse_pairs pairs
parse_pairs-map [] h = refl
parse_pairs-map (c ∷ []) h = refl
parse_pairs-map (c ∷ d ∷ ds) (hc, (hd, h)) =
    ap₂ ◌∷◌ (parse_byte-digits c d hc hd) (parse_pairs-map ds h)

pairs-nibbles : (bs : List ℕ) → pairs (nibbles bs) ≡ bs
unfolding pairs nibbles
pairs-nibbles [] = refl
pairs-nibbles (b ∷ bs) = ap₂ ◌∷◌ (omega arith) (pairs-nibbles bs)

pub nibbles-pairs :
    (k : ℕ) (ds : List ℕ) → All (λ d. d < 16) ds → length ds ≡ 2 * k → nibbles (pairs ds) ≡ ds
unfolding nibbles pairs
nibbles-pairs k [] h e = refl
nibbles-pairs k (c ∷ []) h e = absurd (omega arith)
nibbles-pairs zero (c ∷ d ∷ ds) h e = absurd (omega arith)
nibbles-pairs (suc k) (c ∷ d ∷ ds) (hc, (hd, h)) e =
    ap₂ ◌∷◌ (omega arith) (ap₂ ◌∷◌ (omega arith) (nibbles-pairs k ds h (omega arith)))

pub length-pairs : (k : ℕ) (ds : List ℕ) → length ds ≡ 2 * k → length (pairs ds) ≡ k
unfolding pairs
length-pairs k [] e = omega arith
length-pairs k (c ∷ []) e = absurd (omega arith)
length-pairs zero (c ∷ d ∷ ds) e = absurd (omega arith)
length-pairs (suc k) (c ∷ d ∷ ds) e = omega (arith, length-pairs k ds (omega arith))

pub pairs-All : (ds : List ℕ) → All (λ d. d < 16) ds → All IsByte (pairs ds)
unfolding pairs
pairs-All [] h = tt
pairs-All (c ∷ []) h = tt
pairs-All (c ∷ d ∷ ds) (hc, (hd, h)) = (omega arith, pairs-All ds h)

value_from-pairs :
    (k acc : ℕ) (ds : List ℕ)
    → length ds ≡ 2 * k
    → value_from 256 acc (pairs ds) ≡ value_from 16 acc ds
unfolding value_from pairs
value_from-pairs k acc [] e = refl
value_from-pairs k acc (c ∷ []) e = absurd (omega arith)
value_from-pairs zero acc (c ∷ d ∷ ds) e = absurd (omega arith)
value_from-pairs (suc k) acc (c ∷ d ∷ ds) e =
    value_from-pairs k (acc * 256 + (c * 16 + d)) ds (omega arith)
    ∙ ap (λ a. value_from 16 a ds) (omega arith)

pub value-pairs : (k : ℕ) (ds : List ℕ) → length ds ≡ 2 * k → value 256 (pairs ds) ≡ value 16 ds
unfolding value
value-pairs k ds e = value_from-pairs k 0 ds e

-- `hexToUint8Array` reads back the bytes that `uint8ArrayToHexString` wrote.
pub hex_to_uint8_array-hex_string :
    (bs : List ℕ) → All IsByte bs → hex_to_uint8_array (uint8_array_to_hex_string bs) ≡ some bs
unfolding hex_to_uint8_array uint8_array_to_hex_string
hex_to_uint8_array-hex_string bs h = rw (bytes_hex-nibbles bs h) (
    ground (
      arith,
      parse_pairs-map (nibbles bs) (nibbles-All bs h),
      pairs-nibbles bs,
      length-map digit_char (nibbles bs),
      length-nibbles bs,
    ))

-- `BigInt(uint8ArrayToHexString(bytes))` is the big-endian value of the bytes, if there are any.
pub big_int-hex_string :
    (b : ℕ) (bs : List ℕ)
    → All IsByte (b ∷ bs)
    → big_int (uint8_array_to_hex_string (b ∷ bs)) ≡ some (value 256 (b ∷ bs))
unfolding big_int uint8_array_to_hex_string
big_int-hex_string b bs h = rw (bytes_hex-nibbles (b ∷ bs) h) (
    unfold nibbles in
    parse_digits-map 16 (b / 16) (b % 16 ∷ nibbles bs) (omega arith) (nibbles-All (b ∷ bs) h)
    ∙ ap some (unfold value in value_from-nibbles 0 (b ∷ bs)))

pub length-hex_string :
    (bs : List ℕ) → All IsByte bs → length (uint8_array_to_hex_string bs) ≡ 2 + 2 * length bs
unfolding uint8_array_to_hex_string
length-hex_string bs h =
    rw (bytes_hex-nibbles bs h)
      (omega (arith, length-map digit_char (nibbles bs), length-nibbles bs))
