-- ===== src/Tests.antt =====
-- Runs of the coders on concrete values, with a text codec for ASCII and a fixed hash.
mod Wallets
mod Chains
mod Transactions
mod Subscribing
mod Batches
mod Pieces
use electroneum_web3_js.Base.{
  drop, ℕ, ◌%◌, ◌-◌, ◌<◌, ◌≤◌, ◌≡◌, ◌≢◌, refl, List, [], ◌∷◌, ◌++◌, map, Bool, true, false, none,
  some, ok, length, length-replicate, replicate, All, All-replicate, arith,
}
use electroneum_web3_js.Base.Int.{pos, negsuc}
use electroneum_web3_js.Digits.{digits, value, value_from}
use electroneum_web3_js.Text.{
  Text, lit, lower, hex_to_uint8_array, parse_pairs, parse_byte, digit_in, char_digit, digit_char,
  to_string, is_space, pad_left, is_hex_strict, is_hex, is_hex_digit, big_int, parse_digits,
  digit_values, uint8_array_to_hex_string, bytes_hex, byte_hex, upper,
}
use electroneum_web3_js.Text.Hex.{hex_to_uint8_array-hex_string, big_int-hex_string}
use electroneum_web3_js.Js.{
  JsValue, JsValues, of_elements, to_bool, to_big_int, to_bytes, array_bytes, Fields, put_field,
}
use electroneum_web3_js.Js.HexBytes.{to_bytes-hex_string}
use electroneum_web3_js.Address.Checksum.{check_address_check_sum-to_checksum_address}
use electroneum_web3_js.Address.Bare.{check_address_check_sum-bare}
use electroneum_web3_js.Address.{
  check_address_check_sum, drop_0x, has_case, have_case, to_checksum_address, Host,
  has_address_shape, is_address, checksum_form, hash_text, set_case, set_cases,
}
use electroneum_web3_js.Abi.{EncoderResult}
use electroneum_web3_js.Abi.Number.{
  uint, encode_number, encode_big_int, decode_number, number_limits, limits_loop, find_limit,
  big_int_to_uint8_array,
}
use electroneum_web3_js.Abi.Number.RoundTrip.{
  residue, encode_big_int-in_range, decode_number-encode_big_int,
}
use electroneum_web3_js.Abi.Types.{AbiType, Params, is_dynamic}
use electroneum_web3_js.Abi.Bytes.{
  encode_string, decode_string, encode_bytes, decode_bytes, even_length, set_bytes, encode_boolean,
  decode_bool, encode_address, encode_normalized, decode_address, prefix_0x,
}
use electroneum_web3_js.Abi.Coders.Parameters.{decode_parameters-encode_parameters}
use electroneum_web3_js.Units.{from_wei, find_unit, scale_down, cut_at, strip_zeros, with_point}
use electroneum_web3_js.Iban.{
  from_address, to_address, from_bban, new_iban, is_valid, has_iban_shape, mod_9710, mod_9710_loop,
  after_block, iso13616_prepare, prepare_chars, prepare_char, parse_int, skip_spaces,
  leading_digits, parse_big_int,
}
use electroneum_web3_js.Iban.Mod97.{mod_9710-digits, mod_9710_loop-none, starts_nothing}
use electroneum_web3_js.Iban.Validity.{is_valid-from_bban}
use electroneum_web3_js.Abi.Coders.{
  decode_parameters, encode_parameters, encode, decode, encode_array, encode_dynamic_params,
  static_size, layout, join_items, join_components, component, concat_encoded, store,
}
use electroneum_web3_js.Abi.Coders.ReadBack.{read_components, no_fields, read_back, leftover}
use electroneum_web3_js.Abi.Number.Limits.{width_limit, number_limits-width_limit}
use electroneum_web3_js.Abi.Bytes.RoundTrip.{
  ReadsBack, decode_bool-encode_boolean, decode_bytes-encode_bytes, decode_bytes-encode_bytes_sized,
}
use electroneum_web3_js.Abi.Bytes.Addresses.{
  decode_string-encode_string, decode_address-encode_address,
}
use electroneum_web3_js.Abi.Coders.Layout.{heads, tails, encode_dynamic_params-eq-ok}
use electroneum_web3_js.Abi.Coders.Values.{decode-encode}

mod_256-All : (t : Text) → All (λ b. b < 256) (map (λ c. c % 256) t)
mod_256-All [] = tt
mod_256-All (c ∷ t) = (omega arith, mod_256-All t)

abbrev ascii_host : Host
ascii_host = record {
  keccak256 = λ octets. replicate 32 0xf0;
  utf8_to_bytes = map (λ c. c % 256);
  bytes_to_utf8 = λ bs. bs;
  utf8_to_bytes-All = mod_256-All;
}

-- (uint8, string, int16[])
abbrev order_params : Params
order_params = Params.param (lit "id") (AbiType.number (uint 8)) (
    Params.param (lit "name") AbiType.string (
      Params.param []
        (AbiType.array (AbiType.number (record { signed = true; bits = some 16 })) none)
        Params.nil))

abbrev order_type : AbiType
order_type = AbiType.tuple order_params

abbrev order_values : JsValues
order_values = of_elements (
    JsValue.number (pos 7)
    ∷ JsValue.text (lit "abc")
    ∷ JsValue.array (of_elements (JsValue.number (negsuc 0) ∷ JsValue.text (lit "0x10") ∷ []))
    ∷ [])

abbrev order_value : JsValue
order_value = JsValue.array order_values

abbrev small_word : ℕ → List ℕ
small_word n = replicate 31 0 ++ (n ∷ [])

abbrev order_bytes : List ℕ
order_bytes =
    small_word 7
    ++ (small_word 96
        ++ (small_word 160
            ++ (small_word 3
                ++ ((97 ∷ 98 ∷ 99 ∷ replicate 29 0)
                    ++ (small_word 2 ++ (replicate 32 255 ++ small_word 16))))))

abbrev order_encoded : EncoderResult
order_encoded = record { dynamic = true; encoded = order_bytes }

order_encode : encode ascii_host order_type order_value ≡ ok order_encoded
unfolding encode encode_number encode_big_int number_limits limits_loop find_limit
    big_int_to_uint8_array to_big_int hex_to_uint8_array parse_pairs parse_byte digit_in char_digit
    digit_char to_string digits pad_left is_hex_strict is_hex is_hex_digit big_int parse_digits
    digit_values value value_from encode_string encode_bytes even_length to_bytes set_bytes
    encode_array encode_dynamic_params static_size layout join_items join_components component
    concat_encoded array_bytes
order_encode = refl

order_read_back :
    read_back ascii_host order_type order_value
    ≡ JsValue.object (
        Fields.field (lit "__length__") (JsValue.number (pos 3)) (
          Fields.field (lit "0") (JsValue.bigint (pos 7)) (
            Fields.field (lit "id") (JsValue.bigint (pos 7)) (
              Fields.field (lit "1") (JsValue.text (lit "abc")) (
                Fields.field (lit "name") (JsValue.text (lit "abc")) (
                  Fields.field
                    (lit "2")
                    (JsValue.array
                      (of_elements (JsValue.bigint (negsuc 0) ∷ JsValue.bigint (pos 16) ∷ [])))
                    Fields.end))))))
unfolding read_back store put_field component to_big_int is_hex is_hex_digit big_int parse_digits
    digit_values digit_in char_digit value value_from to_string digits digit_char
order_read_back = refl

decode-encode_example :
    (decode ascii_host order_type (order_bytes ++ (1 ∷ 2 ∷ []))
      ≡ ok (record {
        result = read_back ascii_host order_type order_value;
        encoded = leftover order_type (1 ∷ 2 ∷ []);
        consumed = 256;
      }))
    × (true ≡ is_dynamic order_type)
decode-encode_example =
    decode-encode ascii_host order_type order_value order_encoded (1 ∷ 2 ∷ [])
      (refl, tt, (refl, tt, (refl, tt, tt)))
      (omega arith, (tt, (tt, ((omega arith, (tt, (tt, tt))), tt)))) order_encode (omega arith)

abbrev minus_one : EncoderResult
minus_one = record { dynamic = false; encoded = replicate 32 255 }

minus_one_encode :
    encode_big_int (record { signed = true; bits = some 16 }) (negsuc 0) ≡ ok minus_one
unfolding encode_big_int number_limits limits_loop find_limit big_int_to_uint8_array
    hex_to_uint8_array parse_pairs parse_byte digit_in char_digit digit_char to_string digits
    pad_left is_hex_strict is_hex_digit
minus_one_encode = refl

decode_number-encode_big_int_example :
    (decode_number (record { signed = true; bits = some 16 }) (replicate 32 255 ++ (9 ∷ []))
      ≡ ok (record { result = negsuc 0; encoded = 9 ∷ []; consumed = 32 }))
    × (false ≡ false)
    × (length (replicate {A = ℕ} 32 255) ≡ 32)
decode_number-encode_big_int_example =
    decode_number-encode_big_int (record { signed = true; bits = some 16 }) (negsuc 0) minus_one
      (9 ∷ []) minus_one_encode

abbrev some_address : Text
some_address = lit "0x00000000000000000000000000000000000000ab"

abbrev some_address_encoded : EncoderResult
some_address_encoded = record { dynamic = false; encoded = replicate 31 0 ++ (0xab ∷ []) }

some_address_encode :
    encode_address ascii_host (JsValue.text some_address) ≡ ok some_address_encoded
unfolding encode_address encode_normalized is_address has_address_shape is_hex_strict is_hex_digit
    hex_to_uint8_array parse_pairs parse_byte digit_in char_digit set_bytes lower
some_address_encode = refl

decode_address-encode_address_example :
    (false ≡ false)
    × ReadsBack
        (decode_address ascii_host)
        some_address_encoded
        (checksum_form ascii_host (prefix_0x (map lower some_address)))
decode_address-encode_address_example =
    decode_address-encode_address ascii_host some_address some_address_encoded some_address_encode

some_checksum_form :
    checksum_form ascii_host some_address ≡ lit "0x00000000000000000000000000000000000000Ab"
unfolding checksum_form hash_text set_cases set_case uint8_array_to_hex_string bytes_hex byte_hex
    to_string digits digit_char digit_in char_digit lower upper
some_checksum_form = refl

abbrev hello : EncoderResult
hello = record { dynamic = true; encoded = small_word 2 ++ (104 ∷ 105 ∷ replicate 30 0) }

hello_encode : encode_string ascii_host (JsValue.text (lit "hi")) ≡ ok hello
unfolding encode encode_number encode_big_int number_limits limits_loop find_limit
    big_int_to_uint8_array to_big_int hex_to_uint8_array parse_pairs parse_byte digit_in char_digit
    digit_char to_string digits pad_left is_hex_strict is_hex is_hex_digit big_int parse_digits
    digit_values value value_from encode_string encode_bytes even_length to_bytes set_bytes
    encode_array encode_dynamic_params static_size layout join_items join_components component
    concat_encoded array_bytes
hello_encode = refl

decode_string-encode_string_example :
    (true ≡ true) × ReadsBack (decode_string ascii_host) hello (lit "hi")
decode_string-encode_string_example =
    decode_string-encode_string ascii_host (lit "hi") hello hello_encode

-- The odd string `0xabc` is padded on its right.
abbrev odd_text : JsValue
odd_text = JsValue.text (lit "0xabc")

odd_encode :
    encode_bytes none odd_text
    ≡ ok (record { dynamic = true; encoded = small_word 2 ++ (0xab ∷ 0xc0 ∷ replicate 30 0) })
unfolding encode encode_number encode_big_int number_limits limits_loop find_limit
    big_int_to_uint8_array to_big_int hex_to_uint8_array parse_pairs parse_byte digit_in char_digit
    digit_char to_string digits pad_left is_hex_strict is_hex is_hex_digit big_int parse_digits
    digit_values value value_from encode_string encode_bytes even_length to_bytes set_bytes
    encode_array encode_dynamic_params static_size layout join_items join_components component
    concat_encoded array_bytes
odd_encode = refl

decode_bytes-encode_bytes_example :
    (bs : List ℕ) × (to_bytes (even_length odd_text) ≡ some bs)
    × (true ≡ true)
    × ReadsBack
        (decode_bytes none)
        (record { dynamic = true; encoded = small_word 2 ++ (0xab ∷ 0xc0 ∷ replicate 30 0) })
        bs
decode_bytes-encode_bytes_example = decode_bytes-encode_bytes odd_text _ odd_encode

sized_encode :
    encode_bytes (some 4) odd_text
    ≡ ok (record { dynamic = false; encoded = 0xab ∷ 0xc0 ∷ replicate 30 0 })
unfolding encode encode_number encode_big_int number_limits limits_loop find_limit
    big_int_to_uint8_array to_big_int hex_to_uint8_array parse_pairs parse_byte digit_in char_digit
    digit_char to_string digits pad_left is_hex_strict is_hex is_hex_digit big_int parse_digits
    digit_values value value_from encode_string encode_bytes even_length to_bytes set_bytes
    encode_array encode_dynamic_params static_size layout join_items join_components component
    concat_encoded array_bytes
sized_encode = refl

decode_bytes-encode_bytes_sized_example :
    (bs : List ℕ) × (to_bytes (even_length odd_text) ≡ some bs)
    × (length bs ≤ 4)
    × (false ≡ false)
    × ReadsBack
        (decode_bytes (some 4))
        (record { dynamic = false; encoded = 0xab ∷ 0xc0 ∷ replicate 30 0 })
        (bs ++ replicate (4 - length bs) 0)
decode_bytes-encode_bytes_sized_example = decode_bytes-encode_bytes_sized 3 odd_text _ sized_encode

yes_encode :
    encode_boolean (JsValue.text (lit "0x1"))
    ≡ ok (record { dynamic = false; encoded = small_word 1 })
unfolding encode_boolean to_bool encode_number encode_big_int number_limits limits_loop find_limit
    big_int_to_uint8_array to_big_int hex_to_uint8_array parse_pairs parse_byte digit_in char_digit
    digit_char to_string digits pad_left is_hex_strict is_hex_digit
yes_encode = refl

decode_bool-encode_boolean_example :
    (b : Bool) × (to_bool (JsValue.text (lit "0x1")) ≡ some b)
    × (false ≡ false)
    × ReadsBack decode_bool (record { dynamic = false; encoded = small_word 1 }) b
decode_bool-encode_boolean_example =
    decode_bool-encode_boolean (JsValue.text (lit "0x1")) _ yes_encode

-- A static and a dynamic parameter.
abbrev two_params : List EncoderResult
two_params = record { dynamic = false; encoded = small_word 9 } ∷ hello ∷ []

abbrev two_params_body : List ℕ
two_params_body = small_word 9 ++ (small_word 64 ++ (small_word 2 ++ (104 ∷ 105 ∷ replicate 30 0)))

two_params_encode : encode_dynamic_params two_params ≡ ok two_params_body
unfolding encode_dynamic_params static_size layout encode_number encode_big_int number_limits
    limits_loop find_limit big_int_to_uint8_array to_big_int hex_to_uint8_array parse_pairs
    parse_byte digit_in char_digit digit_char to_string digits pad_left is_hex_strict is_hex_digit
two_params_encode = refl

encode_dynamic_params-eq-ok_example :
    (two_params_body ≡ heads (static_size two_params) two_params ++ tails two_params)
    × (length (heads (static_size two_params) two_params) ≡ static_size two_params)
encode_dynamic_params-eq-ok_example =
    encode_dynamic_params-eq-ok two_params two_params_body two_params_encode

number_limits-width_limit_example : number_limits (uint 24) ≡ width_limit false 24
number_limits-width_limit_example = number_limits-width_limit (uint 24)

hex_to_uint8_array-hex_string_example :
    hex_to_uint8_array (uint8_array_to_hex_string (0 ∷ 255 ∷ 16 ∷ [])) ≡ some (0 ∷ 255 ∷ 16 ∷ [])
hex_to_uint8_array-hex_string_example =
    hex_to_uint8_array-hex_string (0 ∷ 255 ∷ 16 ∷ [])
      (omega arith, (omega arith, (omega arith, tt)))

big_int-hex_string_example :
    big_int (uint8_array_to_hex_string (1 ∷ 0 ∷ [])) ≡ some (value 256 (1 ∷ 0 ∷ []))
big_int-hex_string_example = big_int-hex_string 1 (0 ∷ []) (omega arith, (omega arith, tt))

to_bytes-hex_string_example :
    to_bytes (JsValue.text (uint8_array_to_hex_string (7 ∷ 200 ∷ []))) ≡ some (7 ∷ 200 ∷ [])
to_bytes-hex_string_example = to_bytes-hex_string (7 ∷ 200 ∷ []) (omega arith, (omega arith, tt))

abbrev zeros : ℕ → Text
zeros n = replicate n b'0'

abbrev order_hex : Text
order_hex =
    lit "0x"
    ++ (zeros 62
        ++ (lit "07"
            ++ (zeros 62
                ++ (lit "60"
                    ++ (zeros 62
                        ++ (lit "a0"
                            ++ (zeros 62
                                ++ (lit "03616263"
                                    ++ (zeros 58
                                        ++ (zeros 62
                                            ++ (lit "02"
                                                ++ (replicate 64 b'f'
                                                    ++ (zeros 62 ++ lit "10")))))))))))))

order_encode_parameters : encode_parameters ascii_host order_params order_values ≡ ok order_hex
unfolding encode encode_number encode_big_int number_limits limits_loop find_limit
    big_int_to_uint8_array to_big_int hex_to_uint8_array parse_pairs parse_byte digit_in char_digit
    digit_char to_string digits pad_left is_hex_strict is_hex is_hex_digit big_int parse_digits
    digit_values value value_from encode_string encode_bytes even_length to_bytes set_bytes
    encode_array encode_dynamic_params static_size layout join_items join_components component
    concat_encoded array_bytes encode_parameters uint8_array_to_hex_string bytes_hex byte_hex
order_encode_parameters = refl

decode_parameters-encode_parameters_example :
    decode_parameters ascii_host order_params order_hex
    ≡ ok (JsValue.object (read_components ascii_host order_params 0 order_value no_fields))
decode_parameters-encode_parameters_example =
    decode_parameters-encode_parameters ascii_host order_params order_values order_hex
      (refl, tt, (refl, tt, (refl, tt, tt)))
      (omega arith, (tt, (tt, ((omega arith, (tt, (tt, tt))), tt)))) order_encode_parameters
      (omega arith)

-- The address of the documentation of `Iban.fromAddress`.
iban_from_address :
    from_address ascii_host (lit "0x00c5496aee77c1ba1f0854206a26dda82a81d6d8")
    ≡ ok (lit "XE7338O073KYGTWWZN0F2WZ0R8PX5ZPPZS")
unfolding from_address from_bban new_iban mod_9710 mod_9710_loop after_block iso13616_prepare
    prepare_chars prepare_char parse_int skip_spaces leading_digits is_space is_address
    has_address_shape is_hex_strict is_hex_digit big_int parse_digits digit_values digit_in
    char_digit value value_from pad_left to_string digits digit_char upper lower
iban_from_address = refl

iban_to_address :
    to_address ascii_host (lit "XE7338O073KYGTWWZN0F2WZ0R8PX5ZPPZS")
    ≡ ok (checksum_form ascii_host (lit "0x00c5496aee77c1ba1f0854206a26dda82a81d6d8"))
unfolding to_address new_iban parse_big_int to_checksum_address is_address has_address_shape
    is_hex_strict is_hex_digit digit_values digit_in char_digit value value_from pad_left to_string
    digits digit_char lower
iban_to_address = refl

iban_is_valid : is_valid (lit "XE81ETHXREGGAVOFYORK") ≡ true
unfolding is_valid has_iban_shape mod_9710 mod_9710_loop after_block iso13616_prepare prepare_chars
    prepare_char parse_int skip_spaces leading_digits is_space digit_in char_digit value value_from
    to_string digits digit_char upper
iban_is_valid = refl

is_valid-from_bban_example :
    (iban : Text) × (from_bban (lit "ETHXREGGAVOFYORK") ≡ ok iban)
    × (is_valid iban ≡ true)
    × (drop 4 iban ≡ lit "ETHXREGGAVOFYORK")
is_valid-from_bban_example = is_valid-from_bban (lit "ETHXREGGAVOFYORK") refl

mod_9710-digits_example :
    mod_9710 (map digit_char (1 ∷ 2 ∷ 3 ∷ 4 ∷ []))
    ≡ some (some (pos (value 10 (1 ∷ 2 ∷ 3 ∷ 4 ∷ []) % 97)))
mod_9710-digits_example =
    mod_9710-digits 1 (2 ∷ 3 ∷ 4 ∷ [])
      (omega arith, (omega arith, (omega arith, (omega arith, tt))))

dollar_starts_nothing : starts_nothing b'$' ≡ true
unfolding is_space
dollar_starts_nothing = refl

mod_9710_loop-none_example : mod_9710_loop 1000 (lit "$ABC") ≡ none
mod_9710_loop-none_example =
    mod_9710_loop-none 1000 b'$' (lit "ABC") dollar_starts_nothing (omega arith)

some_to_checksum :
    to_checksum_address ascii_host some_address
    ≡ some (lit "0x00000000000000000000000000000000000000Ab")
unfolding to_checksum_address is_address has_address_shape is_hex_strict is_hex_digit checksum_form
    hash_text set_cases set_case uint8_array_to_hex_string bytes_hex byte_hex to_string digits
    digit_char digit_in char_digit lower upper
some_to_checksum = refl

check_address_check_sum-to_checksum_address_example :
    (check_address_check_sum ascii_host (lit "0x00000000000000000000000000000000000000Ab")
      ≡ some true)
    × (map lower (lit "0x00000000000000000000000000000000000000Ab")
        ≡ lit "0x" ++ map lower (drop_0x some_address))
check_address_check_sum-to_checksum_address_example =
    check_address_check_sum-to_checksum_address ascii_host some_address
      (lit "0x00000000000000000000000000000000000000Ab") some_to_checksum (λ e. cc e)

abbrev bare_address : Text
bare_address = lit "00000000000000000000000000000000000000Ab"

-- The loop gets to the letters that are not there.
bare_throws : check_address_check_sum ascii_host bare_address ≡ none
unfolding check_address_check_sum has_address_shape is_hex_digit hash_text uint8_array_to_hex_string
    bytes_hex byte_hex to_string digits digit_char have_case has_case digit_in char_digit lower
    upper
bare_throws = refl

check_address_check_sum-bare_example : check_address_check_sum ascii_host bare_address ≢ some true
check_address_check_sum-bare_example =
    check_address_check_sum-bare ascii_host bare_address
      (λ octets. All-replicate {A = ℕ} (λ b. b < 256) 32 0xf0 (omega arith))
      (λ octets. length-replicate {A = ℕ} 32 0xf0) refl

ether_written : from_wei (pos 1_500_000_000_000_000_000) (lit "ether") ≡ ok (lit "1.5")
unfolding from_wei find_unit scale_down cut_at strip_zeros to_string digits digit_char
ether_written = refl

-- No wei at all.
nothing_written : from_wei (pos 0) (lit "ether") ≡ ok (lit "0.")
unfolding from_wei find_unit scale_down cut_at strip_zeros to_string digits digit_char
nothing_written = refl

int16_limit :
    number_limits (record { signed = true; bits = some 16 })
    ≡ some (record { min = negsuc 32_767; max = pos 32_767 })
unfolding number_limits limits_loop find_limit
int16_limit = refl

encode_big_int-in_range_example :
    (r : EncoderResult) × (encode_big_int (record { signed = true; bits = some 16 }) (negsuc 1)
      ≡ ok r)
    × (r.dynamic ≡ false)
    × (length r.encoded ≡ 32)
    × (value 256 r.encoded ≡ residue (negsuc 1))
encode_big_int-in_range_example =
    encode_big_int-in_range (record { signed = true; bits = some 16 }) (negsuc 1) _ int16_limit
      (omega arith) (omega arith)
