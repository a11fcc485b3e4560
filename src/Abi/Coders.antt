-- ===== src/Abi/Coders.antt =====
-- coders/base/index.ts, array.ts, tuple.ts and utils.ts, and coders/encode.ts and decode.ts.
pub mod Layout
pub mod ReadBack
pub mod Items
pub mod RoundTrip
pub mod Joins
pub mod Values
pub mod Octets
pub mod Parameters
use electroneum_web3_js.Base.{
  ℕ, zero, suc, ◌+◌, ◌*◌, List, [], ◌∷◌, ◌++◌, Bool, true, false, not, ◌&&◌, ◌||◌, Option, none,
  some, Result, ok, err, ◌>>=◌, ◌>>◌, throw_if, or_throw, map_result, if◌then◌else◌, ◌==◌, ltb,
  length, drop, get_elem?,
}
use electroneum_web3_js.Base.Int.{ℤ, pos, pos_part}
use electroneum_web3_js.Text.{
  Text, lit, is_nil, to_string, hex_to_uint8_array, uint8_array_to_hex_string,
}
use electroneum_web3_js.Js.{
  JsValue, JsValues, Fields, end, elements, of_elements, get_field, put_field,
}
use electroneum_web3_js.Address.{Host}
use electroneum_web3_js.Abi.{
  Error, not_an_array, count_mismatch, not_array_or_object, input_too_short, missing_input,
  unsupported, wrong_value_count, odd_hex, type_error, EncoderResult, DecoderResult, word_size,
}
use electroneum_web3_js.Abi.Number.{encode_number, decode_number, uint}
use electroneum_web3_js.Abi.Types.{
  AbiType, string, bool, address, unknown, number, bytes, array, tuple, Params, nil, param,
  is_dynamic,
}
use electroneum_web3_js.Abi.Bytes.{
  encode_boolean, decode_bool, encode_bytes, decode_bytes, encode_string, decode_string,
  encode_address, decode_address,
}

-- `uint8ArrayConcat(...params.map(p => p.encoded))`
unfoldable pub concat_encoded : List EncoderResult → List ℕ
concat_encoded [] = []
concat_encoded (r ∷ rs) = r.encoded ++ concat_encoded rs

-- The first loop of `encodeDynamicParams`.
unfoldable pub static_size : List EncoderResult → ℕ
static_size [] = 0
static_size (r ∷ rs) = (if r.dynamic then word_size else length r.encoded) + static_size rs

-- Its second loop: the heads and the tails of the parameters still to come, when the tails so far
-- end at `offset` = `staticSize + dynamicSize`.
unfoldable pub layout : ℕ → List EncoderResult → Result Error (List ℕ × List ℕ)
layout offset [] = ok ([], [])
layout offset (r ∷ rs) = elim r.dynamic [
  | true ↦ do
    head ← encode_number (uint 256) (JsValue.number (pos offset))
    (heads, tails) ← layout (offset + length r.encoded) rs
    ok (head.encoded ++ heads, r.encoded ++ tails)
  | false ↦ do (heads, tails) ← layout offset rs; ok (r.encoded ++ heads, tails)
]

unfoldable pub encode_dynamic_params : List EncoderResult → Result Error (List ℕ)
encode_dynamic_params rs = do (heads, tails) ← layout (static_size rs) rs; ok (heads ++ tails)

abbrev pub first_dynamic : List EncoderResult → Bool
first_dynamic [] = false
first_dynamic (r ∷ rs) = r.dynamic

abbrev pub some_dynamic : List EncoderResult → Bool
some_dynamic [] = false
some_dynamic (r ∷ rs) = r.dynamic || some_dynamic rs

abbrev pub wrong_count : Option ℕ → ℕ → Bool
wrong_count none n = false
wrong_count (some size) n = not (n == size)

-- The end of `encodeArray`, for the encoded items.
unfoldable pub join_items : Option ℕ → List EncoderResult → Result Error EncoderResult
join_items none rs = do
  body ← encode_dynamic_params rs
  count ← encode_number (uint 256) (JsValue.number (pos (length rs)))
  ok (record {
    dynamic = true;
    encoded = if ltb 0 (length rs) then count.encoded ++ body else count.encoded;
  })
join_items (some size) rs =
    if first_dynamic rs
    then (do body ← encode_dynamic_params rs; ok (record { dynamic = true; encoded = body }))
    else ok (record { dynamic = false; encoded = concat_encoded rs })

-- `encodeArray`, over the encoder of the items.
unfoldable pub encode_array :
    (JsValue → Result Error EncoderResult) → Option ℕ → JsValue → Result Error EncoderResult
encode_array encode_item size (JsValue.array vs) = do
  rs ← map_result encode_item (elements vs)
  throw_if (wrong_count size (length (elements vs))) count_mismatch
  join_items size rs
encode_array encode_item size _ = err not_an_array

-- `typeof input === 'object'`
abbrev pub is_object : JsValue → Bool
is_object (JsValue.array vs) = true
is_object (JsValue.object fs) = true
is_object (JsValue.uint8_array bs) = true
is_object JsValue.null = true
is_object _ = false

abbrev pub not_missing : JsValue → Result Error JsValue
not_missing JsValue.undefined = err missing_input
not_missing JsValue.null = err missing_input
not_missing v = ok v

-- The value for the component at `index`, by place in an array and by name in an object.
-- Properties that an object inherits and those of a Uint8Array count as missing.
unfoldable pub component : JsValue → ℕ → Text → Result Error JsValue
component (JsValue.array vs) index name = or_throw (get_elem? (elements vs) index) input_too_short
component (JsValue.object fs) index name = not_missing (get_field name fs)
component JsValue.null index name = err type_error
component _ index name = err missing_input

-- The end of `encodeTuple`.
unfoldable pub join_components : List EncoderResult → Result Error EncoderResult
join_components rs =
    if some_dynamic rs
    then (do body ← encode_dynamic_params rs; ok (record { dynamic = true; encoded = body }))
    else ok (record { dynamic = false; encoded = concat_encoded rs })

-- `result.__length__ += 1; result[index] = value; result[name] = value`, for names other than
-- `__length__`.
unfoldable pub store : ℕ → Text → JsValue → Fields → Fields
store index name value result =
    let counted = put_field (lit "__length__") (JsValue.number (pos (index + 1))) result in
    let indexed = put_field (to_string 10 index) value counted in
    if is_nil name then indexed else put_field name value indexed

-- A decoder's result under another form.
abbrev pub map_decoded {ℓ κ} :
    {A : Type ℓ} {B : Type κ}
    → (A → B)
    → Result Error (DecoderResult A)
    → Result Error (DecoderResult B)
map_decoded f (ok d) =
    ok (record { result = f d.result; encoded = d.encoded; consumed = d.consumed })
map_decoded f (err e) = err e

abbrev pub Decoder : Type 0
Decoder = List ℕ → Result Error (DecoderResult JsValue)

-- The loop of `decodeArray` over items behind offsets, from item `i` on.
unfoldable pub decode_by_offset : Decoder → ℕ → ℕ → List ℕ → ℕ → Result Error (List JsValue × ℕ)
decode_by_offset decode_item zero i remaining consumed = ok ([], consumed)
decode_by_offset decode_item (suc n) i remaining consumed = do
  offset ← decode_number (uint 32) (drop (i * word_size) remaining)
  item ← decode_item (drop (pos_part offset.result) remaining)
  (items, total) ←
      decode_by_offset decode_item n (i + 1) remaining (consumed + offset.consumed + item.consumed)
  ok (item.result ∷ items, total)

-- Its loop over items in sequence.
unfoldable pub decode_in_sequence : Decoder → ℕ → List ℕ → ℕ → Result Error (List JsValue × ℕ)
decode_in_sequence decode_item zero octets consumed = ok ([], consumed)
decode_in_sequence decode_item (suc n) octets consumed = do
  item ← decode_item (drop consumed octets)
  (items, total) ← decode_in_sequence decode_item n octets (consumed + item.consumed)
  ok (item.result ∷ items, total)

-- `decodeArray` once the count of the items is known.
unfoldable pub decode_items :
    Decoder → Bool → ℕ → ℕ → List ℕ → List ℕ → Result Error (DecoderResult JsValue)
decode_items decode_item true size consumed octets remaining = do
  (items, total) ← decode_by_offset decode_item size 0 remaining consumed
  ok (record {
    result = JsValue.array (of_elements items);
    encoded = drop total remaining;
    consumed = total;
  })
decode_items decode_item false size consumed octets remaining = do
  (items, total) ← decode_in_sequence decode_item size octets consumed
  ok (record {
    result = JsValue.array (of_elements items);
    encoded = drop total octets;
    consumed = total;
  })

unfoldable pub decode_array :
    Decoder → Bool → Option ℕ → List ℕ → Result Error (DecoderResult JsValue)
decode_array decode_item item_dynamic none octets = do
  size ← decode_number (uint 32) octets
  decode_items decode_item item_dynamic (pos_part size.result) size.consumed octets size.encoded
decode_array decode_item item_dynamic (some size) octets =
    decode_items decode_item item_dynamic size 0 octets octets

-- One child in the loop of `decodeTuple`: its value, with how many bytes were read at `consumed` and
-- how many behind an offset. The offset counts from the start of the tuple.
unfoldable pub decode_child : Decoder → Bool → List ℕ → ℕ → Result Error (JsValue × ℕ × ℕ)
decode_child decode_it true octets consumed = do
  offset ← decode_number (uint 32) (drop consumed octets)
  d ← decode_it (drop (pos_part offset.result) octets)
  ok (d.result, offset.consumed, d.consumed)
decode_child decode_it false octets consumed = do
  d ← decode_it (drop consumed octets)
  ok (d.result, d.consumed, 0)

module _ (host : Host) where
  -- `encodeParamFromAbiParameter` and `encodeTuple`
  unfoldable mutual
    pub encode : AbiType → JsValue → Result Error EncoderResult
    encode string input = encode_string host input
    encode bool input = encode_boolean input
    encode address input = encode_address host input
    encode (tuple ps) input = do
      throw_if (not (is_object input)) not_array_or_object
      rs ← encode_components ps 0 input
      join_components rs
    encode (array t size) input = encode_array (encode t) size input
    encode (bytes size) input = encode_bytes size input
    encode (number t) input = encode_number t input
    encode unknown input = err unsupported

    pub encode_components : Params → ℕ → JsValue → Result Error (List EncoderResult)
    encode_components nil index input = ok []
    encode_components (param name t ps) index input = do
      value ← component input index name
      r ← encode t value
      rs ← encode_components ps (index + 1) input
      ok (r ∷ rs)

  -- `decodeParamFromAbiParameter` and `decodeTuple`
  unfoldable mutual
    pub decode : AbiType → List ℕ → Result Error (DecoderResult JsValue)
    decode string octets = map_decoded JsValue.text (decode_string host octets)
    decode bool octets = map_decoded JsValue.boolean (decode_bool octets)
    decode address octets = map_decoded JsValue.text (decode_address host octets)
    decode (tuple ps) octets = do
      (result, total) ←
          decode_components ps 0 octets 0 0
            (Fields.field (lit "__length__") (JsValue.number (pos 0)) end)
      ok (record { result = JsValue.object result; encoded = drop total octets; consumed = total })
    decode (array t size) octets = decode_array (decode t) (is_dynamic t) size octets
    decode (bytes size) octets =
        map_decoded (λ bs. JsValue.text (uint8_array_to_hex_string bs)) (decode_bytes size octets)
    decode (number t) octets = map_decoded JsValue.bigint (decode_number t octets)
    decode unknown octets = err unsupported

    -- The loop of `decodeTuple`: the fields so far, and the bytes of heads and of tails read.
    pub decode_components : Params → ℕ → List ℕ → ℕ → ℕ → Fields → Result Error (Fields × ℕ)
    decode_components nil index octets consumed dynamic_consumed result =
        ok (result, consumed + dynamic_consumed)
    decode_components (param name t ps) index octets consumed dynamic_consumed result = do
      (value, at_head, at_tail) ← decode_child (decode t) (is_dynamic t) octets consumed
      decode_components ps (index + 1) octets (consumed + at_head) (dynamic_consumed + at_tail)
          (store index name value result)

  abbrev count_params : Params → ℕ
  count_params nil = 0
  count_params (param name t ps) = suc (count_params ps)

  -- `encodeParameters`, behind `toAbiParams`
  unfoldable pub encode_parameters : Params → JsValues → Result Error Text
  encode_parameters ps values = do
    throw_if (not (count_params ps == length (elements values))) wrong_value_count
    r ← encode (tuple ps) (JsValue.array values)
    ok (uint8_array_to_hex_string r.encoded)

  -- `decodeParameters`, behind `toAbiParams`
  unfoldable pub decode_parameters : Params → Text → Result Error JsValue
  decode_parameters ps hex = do
    octets ← or_throw (hex_to_uint8_array hex) odd_hex
    r ← decode (tuple ps) octets
    ok r.result
