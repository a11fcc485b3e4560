-- ===== src/Abi/Number.antt =====
-- coders/base/numbersLimits.ts and coders/base/number.ts.
pub mod Limits
pub mod Words
pub mod RoundTrip
use electroneum_web3_js.Base.{
  ℕ, zero, suc, ◌+◌, ◌-◌, ◌*◌, ◌/◌, ◌^◌, List, [], ◌∷◌, Bool, true, false, not, ◌&&◌, Option, none,
  some, Result, ok, err, ◌>>=◌, ◌>>◌, throw_if, or_throw, if◌then◌else◌, ltb, ◌==◌, length, take,
  drop,
}
use electroneum_web3_js.Base.Int.{ℤ, pos, negsuc, sub_ℕ, ◌-ℤ◌, ltb_ℤ, leb_ℤ, pos_part, neg_part}
use electroneum_web3_js.Text.{
  to_string, pad_left, hex_to_uint8_array, uint8_array_to_hex_string, big_int,
}
use electroneum_web3_js.Js.{JsValue, to_big_int}
use electroneum_web3_js.Abi.{
  Error, not_a_number, bad_number_type, below_minimum, above_maximum, not_enough_bytes,
  decoded_below_minimum, decoded_above_maximum, odd_hex, EncoderResult, DecoderResult, word_size,
}

-- The part of a type's name behind which `numberLimits` is looked up: `int` or `uint`, with the
-- number of bits if the name gives it.
pub record NumberType : Type 0 where
  pub signed : Bool
  pub bits : Option ℕ

pub record Limit : Type 0 where
  pub min : ℤ
  pub max : ℤ

abbrev pub sized_limit : Bool → ℕ → Limit
sized_limit false base = record { min = pos 0; max = pos (base - 1) }
sized_limit true base = record { min = sub_ℕ 0 (base / 2); max = sub_ℕ (base / 2) 1 }

pub record Entry : Type 0 where
  pub width : ℕ
  pub unsigned_limit : Limit
  pub signed_limit : Limit

-- The loop that fills `numberLimits`: `uint<i>` and `int<i>` are set in the same round.
unfoldable pub limits_loop : ℕ → ℕ → ℕ → List Entry
limits_loop zero i base = []
limits_loop (suc rounds) i base =
    record {
      width = i;
      unsigned_limit = sized_limit false base;
      signed_limit = sized_limit true base;
    }
    ∷ limits_loop rounds (i + 8) (base * 256)

unfoldable pub find_limit : Bool → ℕ → List Entry → Option Limit
find_limit signed bits [] = none
find_limit signed bits (e ∷ es) =
    if e.width == bits
    then some (if signed then e.signed_limit else e.unsigned_limit)
    else find_limit signed bits es

-- `numberLimits.get(type)`: 32 rounds take `i` from 8 to 256; `int` and `uint` stand for 256 bits.
unfoldable pub number_limits : NumberType → Option Limit
number_limits t =
    find_limit t.signed (elim t.bits [ none ↦ 256 | some b ↦ b ]) (limits_loop 32 8 256)

abbrev pub mask : ℕ
mask = 2 ^ 256

-- `value < 0 ? (mask + value).toString(16) : value.toString(16)`, padded to a word.
unfoldable pub big_int_to_uint8_array : ℤ → Option (List ℕ)
big_int_to_uint8_array (pos n) = hex_to_uint8_array (pad_left (to_string 16 n) (word_size * 2))
big_int_to_uint8_array (negsuc n) =
    hex_to_uint8_array (pad_left (to_string 16 (mask - suc n)) (word_size * 2))

unfoldable pub uint8_array_to_big_int : List ℕ → ℤ → Option ℤ
uint8_array_to_big_int bytes max = elim (big_int (uint8_array_to_hex_string bytes)) [
  | none ↦ none
  | some n ↦ some (if leb_ℤ (pos n) max then pos n else pos n -ℤ pos mask)
]

-- `encodeNumber` behind its `toBigInt`.
unfoldable pub encode_big_int : NumberType → ℤ → Result Error EncoderResult
encode_big_int t value = do
  limit ← or_throw (number_limits t) bad_number_type
  throw_if (ltb_ℤ value limit.min) below_minimum
  throw_if (ltb_ℤ limit.max value) above_maximum
  bytes ← or_throw (big_int_to_uint8_array value) odd_hex
  ok (record { dynamic = false; encoded = bytes })

unfoldable pub encode_number : NumberType → JsValue → Result Error EncoderResult
encode_number t input = do value ← or_throw (to_big_int input) not_a_number; encode_big_int t value

unfoldable pub decode_number : NumberType → List ℕ → Result Error (DecoderResult ℤ)
decode_number t bytes = do
  throw_if (ltb (length bytes) word_size) not_enough_bytes
  limit ← or_throw (number_limits t) bad_number_type
  value ← or_throw (uint8_array_to_big_int (take word_size bytes) limit.max) not_a_number
  throw_if (ltb_ℤ value limit.min) decoded_below_minimum
  throw_if (ltb_ℤ limit.max value) decoded_above_maximum
  ok (record { result = value; encoded = drop word_size bytes; consumed = word_size })

abbrev pub uint : ℕ → NumberType
uint bits = record { signed = false; bits = some bits }
