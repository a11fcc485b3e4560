-- ===== src/Abi/Number/RoundTrip.antt =====
-- Numbers through `encodeNumber` and back through `decodeNumber`.
use electroneum_web3_js.Base.{
  subst, All, ℕ, suc, ◌-◌, ◌^◌, ◌<◌, ◌≡◌, refl, sym, ap, List, [], ◌∷◌, ◌++◌, false, some,
  if◌then◌else◌, arith, All, length, length-append, take, drop, take-append, drop-append, ok,
  >>=-eq-ok, throw_if-eq-ok, or_throw-eq-ok, ok-injective, ltb, le→ltb,
}
use electroneum_web3_js.Base.Int.{ℤ, pos, negsuc, ◌≤ℤ◌, ltb_ℤ, leb_ℤ, ◌-ℤ◌}
use electroneum_web3_js.Digits.{value}
use electroneum_web3_js.Text.Hex.{IsByte, big_int-hex_string}
use electroneum_web3_js.Js.{JsValue, to_big_int}
use electroneum_web3_js.Abi.{below_minimum, above_maximum, EncoderResult}
use electroneum_web3_js.Abi.Number.{
  NumberType, Limit, number_limits, big_int_to_uint8_array, uint8_array_to_big_int, encode_big_int,
  decode_number, mask,
}
use electroneum_web3_js.Abi.Number.{encode_number, uint, find_limit, limits_loop}
use electroneum_web3_js.Abi.Number.Limits.{Fits, number_limits-Fits}
use electroneum_web3_js.Abi.Number.Words.{
  word, length-word, word-All, value-word, big_int_to_uint8_array-pos,
  big_int_to_uint8_array-negsuc,
}

-- Two's complement: the number that the word of `z` stands for.
abbrev pub residue : ℤ → ℕ
residue (pos n) = n
residue (negsuc n) = 2 ^ 256 - suc n

-- What `encodeNumber` makes sure of before it writes.
record InRange (l : Limit) (z : ℤ) : Type 0 where
  above : ltb_ℤ z l.min ≡ false
  below : ltb_ℤ l.max z ≡ false

residue-lt : (l : Limit) (z : ℤ) → Fits l → InRange l z → residue z < 2 ^ 256
residue-lt l (pos n) f r = ground arith
residue-lt l (negsuc n) f r = omega arith

to_bytes :
    (l : Limit) (z : ℤ) → Fits l → InRange l z → big_int_to_uint8_array z ≡ some (word (residue z))
to_bytes l (pos n) f r = big_int_to_uint8_array-pos n (residue-lt l (pos n) f r)
to_bytes l (negsuc n) f r = big_int_to_uint8_array-negsuc n (ground arith)

-- `encodeNumber` writes the word of the number's residue, or nothing.
encode_big_int-eq-ok :
    (t : NumberType) (z : ℤ) (r : EncoderResult)
    → encode_big_int t z ≡ ok r
    → (l : Limit) × (number_limits t ≡ some l)
      × InRange l z
      × (r ≡ record { dynamic = false; encoded = word (residue z) })
unfolding encode_big_int
encode_big_int-eq-ok t z r e =
    let (l, el, e₁) = >>=-eq-ok _ _ e in
    let (above, e₂) = throw_if-eq-ok _ below_minimum _ e₁ in
    let (below, e₃) = throw_if-eq-ok _ above_maximum _ e₂ in
    let range : InRange l z = record { above = above; below = below } in
    let limit : number_limits t ≡ some l = or_throw-eq-ok _ _ el in
    let bytes : big_int_to_uint8_array z ≡ some (word (residue z)) =
      to_bytes l z (number_limits-Fits t l limit) range in
    (l, limit, range, sym (ok-injective (rw bytes at e₃)))

-- How a decoder for numbers up to `max` reads the value of a word.
abbrev from_word : ℕ → ℤ → ℤ
from_word n max = if leb_ℤ (pos n) max then pos n else pos n -ℤ pos mask

read_bytes :
    (bs : List ℕ) (max : ℤ)
    → All IsByte bs
    → length bs ≡ 32
    → uint8_array_to_big_int bs max ≡ some (from_word (value 256 bs) max)
unfolding uint8_array_to_big_int
read_bytes [] max h e = absurd (omega arith)
read_bytes (b ∷ bs) max h e = rw (big_int-hex_string b bs h, uint8_array_to_big_int)

from_word-residue : (l : Limit) (z : ℤ) → Fits l → InRange l z → from_word (residue z) l.max ≡ z
from_word-residue l (pos n) f r = ground arith
from_word-residue l (negsuc n) f r = ground arith

read_residue :
    (l : Limit) (z : ℤ)
    → Fits l
    → InRange l z
    → uint8_array_to_big_int (word (residue z)) l.max ≡ some z
read_residue l z f r =
    let small = residue-lt l z f r in
    rw
      (
        read_bytes (word (residue z)) l.max (word-All (residue z)) (length-word (residue z) small),
        value-word (residue z) small,
      )
      (ap some (from_word-residue l z f r))

decode_word :
    (t : NumberType) (l : Limit) (z : ℤ) (rest : List ℕ)
    → number_limits t ≡ some l
    → InRange l z
    → decode_number t (word (residue z) ++ rest)
      ≡ ok (record { result = z; encoded = rest; consumed = 32 })
unfolding decode_number
decode_word t l z rest e r =
    let f = number_limits-Fits t l e in
    let size : length (word (residue z)) ≡ 32 = length-word (residue z) (residue-lt l z f r) in
    let enough : ltb (length (word (residue z) ++ rest)) 32 ≡ false =
      le→ltb _ 32 (omega (arith, length-append (word (residue z)) rest)) in
    let front : take 32 (word (residue z) ++ rest) ≡ word (residue z) =
      rw (← size) (take-append (word (residue z)) rest) in
    let back : drop 32 (word (residue z) ++ rest) ≡ rest =
      rw (← size) (drop-append (word (residue z)) rest) in
    rw (enough, e, front, back, read_residue l z f r, r.above, r.below)

-- The JavaScript integer that `encodeNumber` accepted comes back from `decodeNumber`, with whatever
-- follows the word left over; the encoding is one static word.
pub decode_number-encode_big_int :
    (t : NumberType) (z : ℤ) (r : EncoderResult) (rest : List ℕ)
    → encode_big_int t z ≡ ok r
    → (decode_number t (r.encoded ++ rest)
        ≡ ok (record { result = z; encoded = rest; consumed = 32 }))
      × (r.dynamic ≡ false)
      × (length r.encoded ≡ 32)
decode_number-encode_big_int t z r rest e =
    let (l, limit, range, same) = encode_big_int-eq-ok t z r e in
    rw same (
      decode_word t l z rest limit range,
      refl,
      length-word (residue z) (residue-lt l z (number_limits-Fits t l limit) range),
    )

-- The words that the coders write and read for lengths and offsets.
pub encode_number-nat :
    (t : NumberType) (n : ℕ) (r : EncoderResult)
    → encode_number t (JsValue.number (pos n)) ≡ ok r
    → (r ≡ record { dynamic = false; encoded = word n }) × (n < 2 ^ 256)
unfolding encode_number to_big_int
encode_number-nat t n r e =
    let (l, limit, range, same) = encode_big_int-eq-ok t (pos n) r e in
    (same, residue-lt l (pos n) (number_limits-Fits t l limit) range)

pub uint32_limit : number_limits (uint 32) ≡ some (record { min = pos 0; max = pos 0xffff_ffff })
unfolding number_limits find_limit limits_loop
uint32_limit = refl

pub decode_number-word :
    (n : ℕ) (rest : List ℕ)
    → n < 0x1_0000_0000
    → decode_number (uint 32) (word n ++ rest)
      ≡ ok (record { result = pos n; encoded = rest; consumed = 32 })
decode_number-word n rest h =
    decode_word (uint 32) _ (pos n) rest uint32_limit
      (record { above = le→ltb _ _ (omega arith); below = le→ltb _ _ (omega arith) })

pub encode_big_int-All :
    (t : NumberType) (z : ℤ) (r : EncoderResult) → encode_big_int t z ≡ ok r → All IsByte r.encoded
encode_big_int-All t z r e =
    let (_, _, _, same) = encode_big_int-eq-ok t z r e in
    subst (λ x. All IsByte x.encoded) (sym same) (word-All (residue z))

-- An integer between the limits of its type is encoded as the word of its remainder by 2 ** 256,
-- its two's complement, most significant byte first.
pub encode_big_int-in_range :
    (t : NumberType) (z : ℤ) (l : Limit)
    → number_limits t ≡ some l
    → l.min ≤ℤ z
    → z ≤ℤ l.max
    → (r : EncoderResult) × (encode_big_int t z ≡ ok r)
      × (r.dynamic ≡ false)
      × (length r.encoded ≡ 32)
      × (value 256 r.encoded ≡ residue z)
unfolding encode_big_int
encode_big_int-in_range t z l limit low high =
    let f = number_limits-Fits t l limit in
    let range : InRange l z = record { above = le→ltb _ _ low; below = le→ltb _ _ high } in
    let fits = residue-lt l z f range in
    (
      record { dynamic = false; encoded = word (residue z) },
      rw (encode_big_int, limit, range.above, range.below, to_bytes l z f range) refl,
      refl,
      length-word (residue z) fits,
      value-word (residue z) fits,
    )
