-- ===== src/Abi/Bytes.antt =====
-- coders/base/bool.ts, bytes.ts, string.ts and address.ts.
pub mod RoundTrip
pub mod Addresses
use electroneum_web3_js.Base.{
  ℕ, zero, suc, ◌+◌, ◌*◌, ◌/◌, ◌%◌, List, [], ◌∷◌, ◌++◌, map, Bool, true, false, not, ◌||◌, Option,
  none, some, Result, ok, err, ◌>>=◌, ◌>>◌, throw_if, or_throw, if◌then◌else◌, ltb, ◌==◌, length,
  take, drop, replicate,
}
use electroneum_web3_js.Base.Int.{pos, pos_part, ltb_ℤ}
use electroneum_web3_js.Text.{
  Text, lit, lower, starts_with, hex_to_uint8_array, uint8_array_to_hex_string,
}
use electroneum_web3_js.Js.{JsValue, to_bool, to_bytes}
use electroneum_web3_js.Address.{Host, is_address, to_checksum_address}
use electroneum_web3_js.Abi.{
  Error, not_a_boolean, bad_boolean, not_bytes, bad_bytes_type, bytes_too_long, not_enough_data,
  not_a_string, not_an_address_string, not_an_address, short_address, invalid_address, odd_hex,
  EncoderResult, DecoderResult, word_size,
}
use electroneum_web3_js.Abi.Number.{encode_number, decode_number, uint}

-- `alloc(size)`
abbrev pub alloc : ℕ → List ℕ
alloc size = replicate size 0

-- `target.set(bytes, offset)`
unfoldable pub set_bytes : List ℕ → List ℕ → ℕ → List ℕ
set_bytes target bytes offset = take offset target ++ (bytes ++ drop (offset + length bytes) target)

abbrev number_of : Bool → JsValue
number_of true = JsValue.number (pos 1)
number_of false = JsValue.number (pos 0)

unfoldable pub encode_boolean : JsValue → Result Error EncoderResult
encode_boolean input = do
  value ← or_throw (to_bool input) not_a_boolean
  encode_number (uint 8) (number_of value)

unfoldable pub decode_bool : List ℕ → Result Error (DecoderResult Bool)
decode_bool bytes = do
  n ← decode_number (uint 8) bytes
  throw_if (ltb_ℤ (pos 1) n.result || ltb_ℤ n.result (pos 0)) bad_boolean
  ok (record { result = pos_part n.result == 1; encoded = n.encoded; consumed = word_size })

-- `input += '0'` for a string of odd length
unfoldable pub even_length : JsValue → JsValue
even_length (JsValue.text t) = JsValue.text (if length t % 2 == 0 then t else t ++ (b'0' ∷ []))
even_length v = v

-- `Math.ceil(size / WORD_SIZE)`
abbrev pub parts : ℕ → ℕ
parts size = (size + 31) / 32

-- The type's size is `none` for `bytes`, `some n` for `bytes<n>`.
unfoldable pub encode_bytes : Option ℕ → JsValue → Result Error EncoderResult
encode_bytes (some n) input = do
  bytes ← or_throw (to_bytes (even_length input)) not_bytes
  throw_if (ltb 32 n || ltb n 1) bad_bytes_type
  throw_if (ltb n (length bytes)) bytes_too_long
  ok (record { dynamic = false; encoded = set_bytes (alloc word_size) bytes 0 })
encode_bytes none input = do
  bytes ← or_throw (to_bytes (even_length input)) not_bytes
  size ← encode_number (uint 32) (JsValue.number (pos (length bytes)))
  ok (record {
    dynamic = true;
    encoded =
        set_bytes (set_bytes (alloc (word_size + parts (length bytes) * word_size)) size.encoded 0)
          bytes word_size;
  })

-- What is left to do once the size and the place of the data are known.
unfoldable pub cut_bytes : ℕ → List ℕ → ℕ → ℕ → ℕ → Result Error (DecoderResult (List ℕ))
cut_bytes size remaining count consumed available = do
  throw_if (ltb available size) not_enough_data
  ok (record {
    result = take size remaining;
    encoded = drop (count * word_size) remaining;
    consumed = consumed + count * word_size;
  })

unfoldable pub decode_dynamic_bytes : List ℕ → Result Error (DecoderResult (List ℕ))
decode_dynamic_bytes bytes = do
  size ← decode_number (uint 32) bytes
  cut_bytes (pos_part size.result) size.encoded (parts (pos_part size.result)) size.consumed
      (length bytes)

-- `decodeBytes` before `bytesToHex`: a size that is missing or 0 is read from the data.
unfoldable pub decode_bytes : Option ℕ → List ℕ → Result Error (DecoderResult (List ℕ))
decode_bytes none bytes = decode_dynamic_bytes bytes
decode_bytes (some zero) bytes = decode_dynamic_bytes bytes
decode_bytes (some (suc n)) bytes = cut_bytes (suc n) bytes 1 0 (length bytes)

-- `!address.startsWith('0x') ? '0x' + address : address`
abbrev pub prefix_0x : Text → Text
prefix_0x t = if starts_with (lit "0x") t then t else lit "0x" ++ t

module _ (host : Host) where
  unfoldable pub encode_string : JsValue → Result Error EncoderResult
  encode_string (JsValue.text t) = encode_bytes none (JsValue.uint8_array (host.utf8_to_bytes t))
  encode_string _ = err not_a_string

  unfoldable pub decode_string : List ℕ → Result Error (DecoderResult Text)
  decode_string bytes = do
    r ← decode_bytes none bytes
    octets ← or_throw (to_bytes (JsValue.text (uint8_array_to_hex_string r.result))) not_bytes
    ok (record { result = host.bytes_to_utf8 octets; encoded = r.encoded; consumed = r.consumed })

  -- `encodeAddress` once the input is in lower case and has its prefix.
  unfoldable pub encode_normalized : Text → Result Error EncoderResult
  encode_normalized a = do
    throw_if (not (is_address host a true)) not_an_address
    bytes ← or_throw (hex_to_uint8_array a) odd_hex
    ok (record { dynamic = false; encoded = set_bytes (alloc word_size) bytes 12 })

  unfoldable pub encode_address : JsValue → Result Error EncoderResult
  encode_address (JsValue.text t) = encode_normalized (prefix_0x (map lower t))
  encode_address _ = err not_an_address_string

  unfoldable pub decode_address : List ℕ → Result Error (DecoderResult Text)
  decode_address bytes = do
    let a = drop 12 (take 32 bytes)
    throw_if (not (length a == 20)) short_address
    t ← or_throw (to_checksum_address host (uint8_array_to_hex_string a)) invalid_address
    ok (record { result = t; encoded = drop word_size bytes; consumed = word_size })
