-- ===== src/Abi/Coders/Octets.antt =====
-- Whatever the encoders write is bytes.
use electroneum_web3_js.Base.{
  All-take, All-drop, ℕ, ◌+◌, ◌-◌, ◌==◌, ◌%◌, ◌<◌, ◌≡◌, subst, List, [], ◌∷◌, map, Bool, true,
  false, not, ◌||◌, Option, none, some, ok, >>=-eq-ok, throw_if-eq-ok, or_throw, or_throw-eq-ok,
  ok-injective, length, All, All-append, All-replicate, drop, arith, if◌then◌else◌, Option-cases,
  inl, inr,
}
use electroneum_web3_js.Base.Int.{pos}
use electroneum_web3_js.Text.{
  Text, lower, digit_in, parse_byte, parse_pairs, is_space, hex_to_uint8_array, has_0x,
}
use electroneum_web3_js.Text.Hex.{IsByte}
use electroneum_web3_js.Js.{JsValue, JsValues, array_bytes, to_bytes, to_big_int, to_bool, IsJs}
use electroneum_web3_js.Address.{Host, is_address}
use electroneum_web3_js.Abi.{
  EncoderResult, not_a_number, not_a_boolean, not_bytes, bad_bytes_type, bytes_too_long, odd_hex,
  not_an_address,
}
use electroneum_web3_js.Abi.Number.{NumberType, encode_number, uint}
use electroneum_web3_js.Abi.Number.RoundTrip.{encode_big_int-All}
use electroneum_web3_js.Abi.Bytes.{
  encode_bytes, encode_boolean, encode_string, encode_address, encode_normalized, even_length,
  set_bytes, alloc, prefix_0x,
}

digit_in-lt : (radix c d : ℕ) → digit_in radix c ≡ some d → d < radix
unfolding digit_in
digit_in-lt radix c d e = ground arith

signed_digit :
    (minus plus : Bool) (lo : ℕ)
    → lo < 16
    → IsByte (if minus then (256 - lo) % 256 else if plus then lo else 0)
signed_digit true plus lo h = omega arith
signed_digit false true lo h = omega arith
signed_digit false false lo h = omega arith

parse_byte-lt : (c d : ℕ) → IsByte (parse_byte c d)
unfolding parse_byte
parse_byte-lt c d = elim (Option-cases (digit_in 16 c)) [
  | inl no_hi ↦ elim (Option-cases (digit_in 16 d)) [
    | inl no_lo ↦ rw (parse_byte, no_hi, no_lo) (omega arith)
    | inr (lo, is_lo) ↦
        rw (parse_byte, no_hi, is_lo)
          (signed_digit (c == b'-') (c == b'+' || is_space c) lo (digit_in-lt 16 d lo is_lo))
  ]
  | inr (hi, is_hi) ↦
      let high : hi < 16 = digit_in-lt 16 c hi is_hi in
      elim (Option-cases (digit_in 16 d)) [
        | inl no_lo ↦ rw (parse_byte, is_hi, no_lo) (omega arith)
        | inr (lo, is_lo) ↦
            let low : lo < 16 = digit_in-lt 16 d lo is_lo in
            rw (parse_byte, is_hi, is_lo) (omega arith)
      ]
]

parse_pairs-All : (t : Text) → All IsByte (parse_pairs t)
unfolding parse_pairs
parse_pairs-All [] = tt
parse_pairs-All (c ∷ []) = tt
parse_pairs-All (c ∷ d ∷ t) = (parse_byte-lt c d, parse_pairs-All t)

some-injective : {a b : List ℕ} → ◌≡◌ {A = Option (List ℕ)} (some a) (some b) → a ≡ b
some-injective e = cc

hex_to_uint8_array-All : (t : Text) (bs : List ℕ) → hex_to_uint8_array t ≡ some bs → All IsByte bs
unfolding hex_to_uint8_array
hex_to_uint8_array-All t bs e =
    let form : parse_pairs (if has_0x t then drop 2 t else t) ≡ bs = ground arith in
    subst (All IsByte) form (parse_pairs-All _)

set_bytes-All :
    (target bs : List ℕ) (offset : ℕ)
    → All IsByte target
    → All IsByte bs
    → All IsByte (set_bytes target bs offset)
unfolding set_bytes
set_bytes-All target bs offset h k =
    All-append _ _ _ (All-take _ offset target h)
      (All-append _ _ _ k (All-drop _ (offset + length bs) target h))

alloc-All : (size : ℕ) → All IsByte (alloc size)
alloc-All size = All-replicate _ size 0 (omega arith)

array_bytes-All : (vs : JsValues) (bs : List ℕ) → array_bytes vs ≡ some bs → All IsByte bs
unfolding array_bytes
array_bytes-All JsValues.nil bs e = subst (All IsByte) (some-injective e) tt
array_bytes-All (JsValues.cons (JsValue.number (pos n)) vs) bs e =
    elim (Option-cases (array_bytes vs)) [
      | inl lacks ↦ cc (rw lacks at e)
      | inr (rest, has) ↦
          let e₁ = rw has at e in
          let small : n < 256 = ground arith in
          let form : n ∷ rest ≡ bs = ground arith in
          subst (All IsByte) form (small, array_bytes-All vs rest has)
    ]
array_bytes-All (JsValues.cons _ vs) bs e = cc

to_bytes-All : (v : JsValue) (bs : List ℕ) → IsJs v → to_bytes v ≡ some bs → All IsByte bs
unfolding to_bytes
to_bytes-All (JsValue.uint8_array cs) bs js e = subst (All IsByte) (some-injective e) js
to_bytes-All (JsValue.array vs) bs js e = array_bytes-All vs bs e
to_bytes-All (JsValue.text t) bs js e = hex_to_uint8_array-All t bs (ground arith)
to_bytes-All _ bs js e = cc

pub encode_number-All :
    (t : NumberType) (v : JsValue) (r : EncoderResult)
    → encode_number t v ≡ ok r
    → All IsByte r.encoded
unfolding encode_number
encode_number-All t v r e =
    let (z, _, e₁) = >>=-eq-ok (or_throw (to_big_int v) not_a_number) _ e in
    encode_big_int-All t z r e₁

pub encode_boolean-All :
    (v : JsValue) (r : EncoderResult) → encode_boolean v ≡ ok r → All IsByte r.encoded
unfolding encode_boolean
encode_boolean-All v r e =
    let (b, _, e₁) = >>=-eq-ok (or_throw (to_bool v) not_a_boolean) _ e in
    encode_number-All (uint 8) _ r e₁

even_length-IsJs : (v : JsValue) → IsJs v → IsJs (even_length v)
unfolding even_length
even_length-IsJs (JsValue.text t) js = tt
even_length-IsJs _ js = js

pub encode_bytes-All :
    (size : Option ℕ) (v : JsValue) (r : EncoderResult)
    → IsJs v
    → encode_bytes size v ≡ ok r
    → All IsByte r.encoded
unfolding encode_bytes
encode_bytes-All none v r js e =
    let (bs, are, e₁) = >>=-eq-ok (or_throw (to_bytes (even_length v)) not_bytes) _ e in
    let (size, is_size, e₂) =
      >>=-eq-ok (encode_number (uint 32) (JsValue.number (pos (length bs)))) _ e₁ in
    let octets = to_bytes-All (even_length v) bs (even_length-IsJs v js) (or_throw-eq-ok _ _ are) in
    subst (λ x. All IsByte x.encoded) (ok-injective e₂)
      (set_bytes-All _ bs 32
        (set_bytes-All _ size.encoded 0 (alloc-All _) (encode_number-All (uint 32) _ size is_size))
        octets)
encode_bytes-All (some n) v r js e =
    let (bs, are, e₁) = >>=-eq-ok (or_throw (to_bytes (even_length v)) not_bytes) _ e in
    let (_, e₂) = throw_if-eq-ok _ bad_bytes_type _ e₁ in
    let (_, e₃) = throw_if-eq-ok _ bytes_too_long _ e₂ in
    let octets = to_bytes-All (even_length v) bs (even_length-IsJs v js) (or_throw-eq-ok _ _ are) in
    subst (λ x. All IsByte x.encoded) (ok-injective e₃) (set_bytes-All _ bs 0 (alloc-All 32) octets)

module _ (host : Host) where
  pub encode_string-All :
      (v : JsValue) (r : EncoderResult) → encode_string host v ≡ ok r → All IsByte r.encoded
  unfolding encode_string
  encode_string-All (JsValue.text t) r e =
      encode_bytes-All none (JsValue.uint8_array (host.utf8_to_bytes t)) r
        (host.utf8_to_bytes-All t) e
  encode_string-All _ r e = cc

  pub encode_address-All :
      (v : JsValue) (r : EncoderResult) → encode_address host v ≡ ok r → All IsByte r.encoded
  unfolding encode_address encode_normalized
  encode_address-All (JsValue.text t) r e =
      let a = prefix_0x (map lower t) in
      let (_, e₁) = throw_if-eq-ok (not (is_address host a true)) not_an_address _ e in
      let (bs, are, e₂) = >>=-eq-ok (or_throw (hex_to_uint8_array a) odd_hex) _ e₁ in
      subst (λ x. All IsByte x.encoded) (ok-injective e₂)
        (set_bytes-All _ bs 12 (alloc-All 32)
          (hex_to_uint8_array-All a bs (or_throw-eq-ok _ _ are)))
  encode_address-All _ r e = cc
