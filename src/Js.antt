-- ===== src/Js.antt =====
-- JavaScript values as the packages receive them (`unknown`), and the conversions of
-- web3-utils/src/converters.ts and web3-validator/src/validation/bytes.ts on them.
-- A `number` is an integer, or `fraction` for any other (1.5, NaN, an infinity).
pub mod HexBytes
use electroneum_web3_js.Base.{
  ℕ, zero, suc, ◌%◌, ◌<◌, List, [], ◌∷◌, Bool, true, false, not, ◌&&◌, ◌||◌, Option, none, some,
  if◌then◌else◌, ltb, ◌==◌, length, drop, All,
}
use electroneum_web3_js.Base.Int.{ℤ, pos, sub_ℕ}
use electroneum_web3_js.Text.{
  Text, lit, text_eq, starts_with, is_hex, is_hex_strict, big_int, hex_to_uint8_array,
}

mutual
  pub data JsValue : Type 0 where
    undefined null fraction : JsValue
    boolean : Bool → JsValue
    number : ℤ → JsValue
    bigint : ℤ → JsValue
    text : Text → JsValue
    uint8_array : List ℕ → JsValue
    array : JsValues → JsValue
    object : Fields → JsValue

  pub data JsValues : Type 0 where
    nil : JsValues
    cons : JsValue → JsValues → JsValues

  pub data Fields : Type 0 where
    end : Fields
    field : Text → JsValue → Fields → Fields

abbrev pub elements : JsValues → List JsValue
elements nil = []
elements (cons v vs) = v ∷ elements vs

abbrev pub of_elements : List JsValue → JsValues
of_elements [] = nil
of_elements (v ∷ vs) = cons v (of_elements vs)

-- `o[key]`, `undefined` where the object has no such field.
unfoldable pub get_field : Text → Fields → JsValue
get_field key end = undefined
get_field key (field k v fs) = if text_eq k key then v else get_field key fs

-- `o[key] = value`
unfoldable pub put_field : Text → JsValue → Fields → Fields
put_field key value end = field key value end
put_field key value (field k v fs) =
    if text_eq k key then field k value fs else field k v (put_field key value fs)

-- `toBigInt`; `none` is the InvalidNumberError, or the SyntaxError or RangeError of `BigInt`.
unfoldable pub to_big_int : JsValue → Option ℤ
to_big_int (number z) = some z
to_big_int (bigint z) = some z
to_big_int (text t) =
    if is_hex t
    then (if starts_with (lit "-") t
        then elim (big_int (drop 1 t)) [ none ↦ none | some n ↦ some (sub_ℕ 0 n) ]
        else elim (big_int t) [ none ↦ none | some n ↦ some (pos n) ])
    else none
to_big_int _ = none

abbrev pub bit : ℤ → Option Bool
bit (pos zero) = some false
bit (pos (suc zero)) = some true
bit _ = none

-- `toBool`; `none` is the InvalidBooleanError.
unfoldable pub to_bool : JsValue → Option Bool
to_bool (boolean b) = some b
to_bool (number z) = bit z
to_bool (bigint z) = bit z
to_bool (text t) =
    if text_eq t (lit "true") || text_eq t (lit "1") || text_eq t (lit "0x1")
    then some true
    else if text_eq t (lit "false") || text_eq t (lit "0") || text_eq t (lit "0x0")
    then some false
    else none
to_bool _ = none

-- The bytes of an array of numbers; `none` if an element is no integer from 0 to 255.
unfoldable pub array_bytes : JsValues → Option (List ℕ)
array_bytes nil = some []
array_bytes (cons (number (pos n)) vs) = elim (array_bytes vs) [
  | none ↦ none
  | some bs ↦ if ltb n 256 then some (n ∷ bs) else none
]
array_bytes (cons _ vs) = none

-- `isBytes(value)` and `bytesToUint8Array(value)` in one: the bytes, or `none` where `isBytes` fails.
unfoldable pub to_bytes : JsValue → Option (List ℕ)
to_bytes (uint8_array bs) = some bs
to_bytes (array vs) = array_bytes vs
to_bytes (text t) =
    if is_hex_strict t && not (starts_with (lit "-") t) && length t % 2 == 0
    then hex_to_uint8_array t
    else none
to_bytes _ = none

-- What every JavaScript engine keeps to: an array has less than 2 ** 32 elements, an element of a
-- Uint8Array is a byte.
abbrev mutual
  pub IsJs : JsValue → Type 0
  IsJs (uint8_array bs) = All (λ b. b < 256) bs
  IsJs (array vs) = (length (elements vs) < 0x1_0000_0000) × AreJs vs
  IsJs (object fs) = FieldsAreJs fs
  IsJs _ = Unit {0}

  pub AreJs : JsValues → Type 0
  AreJs nil = Unit {0}
  AreJs (cons v vs) = IsJs v × AreJs vs

  pub FieldsAreJs : Fields → Type 0
  FieldsAreJs end = Unit {0}
  FieldsAreJs (field k v fs) = IsJs v × FieldsAreJs fs
