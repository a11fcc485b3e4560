-- ===== src/Js/HexBytes.antt =====
-- The strings that `bytesToHex` writes are bytes to the other packages.
use electroneum_web3_js.Base.{
  ℕ, ◌%◌, ◌<◌, ◌≡◌, refl, List, [], ◌∷◌, map, true, false, some, All, all, length, length-map, ◌==◌,
  ==_iff, arith,
}
use electroneum_web3_js.Text.{
  digit_char, is_hex_digit, is_hex_strict, bytes_hex, uint8_array_to_hex_string, lit, starts_with,
}
use electroneum_web3_js.Text.Hex.{
  IsByte, nibbles, nibbles-All, length-nibbles, bytes_hex-nibbles, hex_to_uint8_array-hex_string,
}
use electroneum_web3_js.Js.{JsValue, to_bytes}

pub digits-all_hex :
    (ds : List ℕ) → All (λ d. d < 16) ds → all is_hex_digit (map digit_char ds) ≡ true
unfolding is_hex_digit digit_char
digits-all_hex [] h = refl
digits-all_hex (d ∷ ds) (hd, h) = ground (arith, digits-all_hex ds h)

is_hex_strict-hex_string :
    (bs : List ℕ) → All IsByte bs → is_hex_strict (uint8_array_to_hex_string bs) ≡ true
unfolding is_hex_strict uint8_array_to_hex_string
is_hex_strict-hex_string [] h = unfold bytes_hex in refl
is_hex_strict-hex_string (b ∷ bs) h =
    rw (bytes_hex-nibbles (b ∷ bs) h)
      (ground (arith, digits-all_hex (nibbles (b ∷ bs)) (nibbles-All (b ∷ bs) h)))

no_minus : (bs : List ℕ) → starts_with (lit "-") (uint8_array_to_hex_string bs) ≡ false
unfolding uint8_array_to_hex_string
no_minus bs = refl

even : (bs : List ℕ) → All IsByte bs → (length (uint8_array_to_hex_string bs) % 2 == 0) ≡ true
unfolding uint8_array_to_hex_string
even bs h =
    rw (bytes_hex-nibbles bs h)
      ((==_iff _ 0).1 (omega (arith, length-map digit_char (nibbles bs), length-nibbles bs)))

-- Bytes written by `bytesToHex` and read back by `bytesToUint8Array`.
pub to_bytes-hex_string :
    (bs : List ℕ) → All IsByte bs → to_bytes (JsValue.text (uint8_array_to_hex_string bs)) ≡ some bs
unfolding to_bytes
to_bytes-hex_string bs h =
    rw (is_hex_strict-hex_string bs h, no_minus bs, even bs h, hex_to_uint8_array-hex_string bs h)
