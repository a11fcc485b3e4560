-- ===== src/Abi/Coders/Parameters.antt =====
-- `encodeParameters` and `decodeParameters`, over hexadecimal text.
use electroneum_web3_js.Base.{
  ℕ, ◌+◌, ◌*◌, ◌^◌, ◌<◌, ◌≡◌, sym, ap, ◌∙◌, subst, List, [], ◌∷◌, append-nil, not, Option, none,
  some, ok, ◌>>=◌, >>=-eq-ok, throw_if-eq-ok, ok-injective, map_result, length, All, All-append,
  arith, Bool-cases, inl, inr, ◌==◌,
}
use electroneum_web3_js.Text.{Text, hex_to_uint8_array}
use electroneum_web3_js.Text.Hex.{IsByte, hex_to_uint8_array-hex_string, length-hex_string}
use electroneum_web3_js.Js.{JsValue, JsValues, elements, IsJs}
use electroneum_web3_js.Address.{Host}
use electroneum_web3_js.Abi.{EncoderResult, count_mismatch, not_array_or_object, wrong_value_count}
use electroneum_web3_js.Abi.Number.Words.{word, word-All}
use electroneum_web3_js.Abi.Types.{
  AbiType, string, bool, address, unknown, number, bytes, array, tuple, Params, nil, param,
}
use electroneum_web3_js.Abi.Coders.{
  concat_encoded, static_size, encode_dynamic_params, first_dynamic, wrong_count, join_items,
  encode_array, is_object, component, join_components, encode, encode_components, decode,
  count_params, encode_parameters, decode_parameters,
}
use electroneum_web3_js.Abi.Coders.Layout.{heads, tails, encode_dynamic_params-eq-ok}
use electroneum_web3_js.Abi.Coders.ReadBack.{
  read_back, read_components, no_fields, AreSound, leftover,
}
use electroneum_web3_js.Abi.Coders.Items.{body, join_items-none}
use electroneum_web3_js.Abi.Coders.Joins.{join_components-eq-ok}
use electroneum_web3_js.Abi.Coders.Values.{component-IsJs, elements-All, decode-encode}
use electroneum_web3_js.Abi.Coders.Octets.{
  encode_number-All, encode_boolean-All, encode_bytes-All, encode_string-All, encode_address-All,
}

abbrev AllBytes : List EncoderResult → Type 0
AllBytes rs = All (λ r. All IsByte r.encoded) rs

concat-All : (rs : List EncoderResult) → AllBytes rs → All IsByte (concat_encoded rs)
unfolding concat_encoded
concat-All [] h = tt
concat-All (r ∷ rs) (k, h) = All-append _ r.encoded _ k (concat-All rs h)

heads-All : (offset : ℕ) (rs : List EncoderResult) → AllBytes rs → All IsByte (heads offset rs)
unfolding heads
heads-All offset [] h = tt
heads-All offset (r ∷ rs) (k, h) = elim (Bool-cases r.dynamic) [
  | inl dyn ↦
      rw dyn (
        All-append _ (word offset) _ (word-All offset) (heads-All (offset + length r.encoded) rs h))
  | inr stat ↦ rw stat (All-append _ r.encoded _ k (heads-All offset rs h))
]

tails-All : (rs : List EncoderResult) → AllBytes rs → All IsByte (tails rs)
unfolding tails
tails-All [] h = tt
tails-All (r ∷ rs) (k, h) = elim (Bool-cases r.dynamic) [
  | inl dyn ↦ rw dyn (All-append _ r.encoded _ k (tails-All rs h))
  | inr stat ↦ rw stat (tails-All rs h)
]

body-All : (rs : List EncoderResult) → AllBytes rs → All IsByte (body rs)
body-All rs h =
    All-append _ (heads (static_size rs) rs) _ (heads-All (static_size rs) rs h) (tails-All rs h)

join_items-All :
    (size : Option ℕ) (rs : List EncoderResult) (r : EncoderResult)
    → AllBytes rs
    → join_items size rs ≡ ok r
    → All IsByte r.encoded
unfolding join_items
join_items-All none rs r h e =
    subst (λ x. All IsByte x.encoded) (sym (join_items-none rs r e).0)
      (All-append _ (word (length rs)) _ (word-All (length rs)) (body-All rs h))
join_items-All (some n) rs r h e = elim (Bool-cases (first_dynamic rs)) [
  | inl dyn ↦
      let (b, is_body, e₁) = >>=-eq-ok (encode_dynamic_params rs) _ (rw dyn at e) in
      subst (λ x. All IsByte x.encoded) (ok-injective e₁)
        (subst (All IsByte) (sym (encode_dynamic_params-eq-ok rs b is_body).0) (body-All rs h))
  | inr stat ↦ subst (λ x. All IsByte x.encoded) (ok-injective (rw stat at e)) (concat-All rs h)
]

module _ (host : Host) where
  abbrev Writes : AbiType → Type 0
  Writes t =
      (v : JsValue) (r : EncoderResult) → IsJs v → encode host t v ≡ ok r → All IsByte r.encoded

  items-All :
      (t : AbiType)
      → Writes t
      → (xs : List JsValue) (rs : List EncoderResult) → All IsJs xs
      → map_result (encode host t) xs ≡ ok rs
      → AllBytes rs
  items-All t writes [] rs js e = subst AllBytes (ok-injective e) tt
  items-All t writes (x ∷ xs) rs (js, jss) e =
      let (r, is_r, e₁) = >>=-eq-ok (encode host t x) _ e in
      let (rest, is_rest, e₂) = >>=-eq-ok (map_result (encode host t) xs) _ e₁ in
      subst AllBytes (ok-injective e₂) (writes x r js is_r, items-All t writes xs rest jss is_rest)

  array-All : (t : AbiType) (size : Option ℕ) → Writes t → Writes (array t size)
  unfolding encode encode_array
  array-All t size writes (JsValue.array vs) r (_, js) e =
      let (rs, is_rs, e₁) = >>=-eq-ok (map_result (encode host t) (elements vs)) _ e in
      let (_, e₂) =
        throw_if-eq-ok (wrong_count size (length (elements vs))) count_mismatch (join_items size rs)
          e₁ in
      join_items-All size rs r (items-All t writes (elements vs) rs (elements-All vs js) is_rs) e₂
  array-All t size writes _ r js e = cc

  mutual
    unfolding encode

    encode-All : (t : AbiType) → Writes t
    encode-All string v r js e = encode_string-All host v r e
    encode-All bool v r js e = encode_boolean-All v r e
    encode-All address v r js e = encode_address-All host v r e
    encode-All unknown v r js e = cc
    encode-All (number t) v r js e = encode_number-All t v r e
    encode-All (bytes size) v r js e = encode_bytes-All size v r js e
    encode-All (array t size) v r js e = array-All t size (encode-All t) v r js e
    encode-All (tuple ps) v r js e =
        let (_, e₀) =
          throw_if-eq-ok (not (is_object v)) not_array_or_object
            (encode_components host ps 0 v >>= join_components) e in
        let (rs, is_rs, e₁) = >>=-eq-ok (encode_components host ps 0 v) _ e₀ in
        subst (λ x. All IsByte x.encoded) (sym (join_components-eq-ok rs r e₁).0)
          (body-All rs (encode_components-All ps 0 v rs js is_rs))

    encode_components-All :
        (ps : Params) (index : ℕ) (v : JsValue) (rs : List EncoderResult)
        → IsJs v
        → encode_components host ps index v ≡ ok rs
        → AllBytes rs
    encode_components-All nil index v rs js e = subst AllBytes (ok-injective e) tt
    encode_components-All (param name t ps) index v rs js e =
        let (w, is_w, e₁) = >>=-eq-ok (component v index name) _ e in
        let (r, is_r, e₂) = >>=-eq-ok (encode host t w) _ e₁ in
        let (rest, is_rest, e₃) = >>=-eq-ok (encode_components host ps (index + 1) v) _ e₂ in
        subst AllBytes (ok-injective e₃) (
          encode-All t w r (component-IsJs v index name w js is_w) is_r,
          encode_components-All ps (index + 1) v rest js is_rest,
        )

  read_tuple :
      (ps : Params) (values : JsValues) (r : EncoderResult)
      → AreSound ps
      → IsJs (JsValue.array values)
      → encode host (tuple ps) (JsValue.array values) ≡ ok r
      → length r.encoded < 2 ^ 32
      → decode host (tuple ps) r.encoded
        ≡ ok (record {
          result = JsValue.object (read_components host ps 0 (JsValue.array values) no_fields);
          encoded = [];
          consumed = length r.encoded;
        })
  unfolding read_back leftover
  read_tuple ps values r sound js e bound =
      ap (decode host (tuple ps)) (sym (append-nil r.encoded))
      ∙ (decode-encode host (tuple ps) (JsValue.array values) r [] sound js e bound).0

  -- Whatever `encodeParameters` returns for the parameters `ps` and some values, `decodeParameters`
  -- reads as the object of these values, by index and by name, each as `read_back` tells. The text
  -- has less than 2 ** 33 characters, the types have no fixed array of no dynamic items and no
  -- component with a reserved name (nor has a parameter one), the values are such that JavaScript can hold them.
  pub decode_parameters-encode_parameters :
      (ps : Params) (values : JsValues) (hex : Text)
      → AreSound ps
      → IsJs (JsValue.array values)
      → encode_parameters host ps values ≡ ok hex
      → length hex < 2 ^ 33
      → decode_parameters host ps hex
        ≡ ok (JsValue.object (read_components host ps 0 (JsValue.array values) no_fields))
  unfolding encode_parameters decode_parameters
  decode_parameters-encode_parameters ps values hex sound js e bound =
      let (_, e₁) =
        throw_if-eq-ok (not (count_params host ps == length (elements values))) wrong_value_count _
          e in
      let (r, is_r, e₂) = >>=-eq-ok (encode host (tuple ps) (JsValue.array values)) _ e₁ in
      let octets = encode-All (tuple ps) (JsValue.array values) r js is_r in
      let parsed : hex_to_uint8_array hex ≡ some r.encoded =
        ap hex_to_uint8_array (sym (ok-injective e₂))
        ∙ hex_to_uint8_array-hex_string r.encoded octets in
      let width : length hex ≡ 2 + 2 * length r.encoded =
        ap length (sym (ok-injective e₂)) ∙ length-hex_string r.encoded octets in
      rw (parsed, read_tuple ps values r sound js is_r (omega arith))
