-- ===== src/Abi/Coders/ReadBack.antt =====
-- What a value reads as once it has been encoded and decoded, and the types for which it does.
use electroneum_web3_js.Base.{
  Bool, ◌||◌, ℕ, ◌+◌, ◌-◌, ◌<◌, ◌≡◌, List, ◌++◌, map, false, ◌⊎◌, Option, none, some, Result, ok,
  err, length, replicate, drop, if◌then◌else◌,
}
use electroneum_web3_js.Base.Int.{pos}
use electroneum_web3_js.Text.{Text, lit, text_eq, lower, uint8_array_to_hex_string}
use electroneum_web3_js.Js.{
  JsValue, Fields, end, elements, of_elements, to_bool, to_big_int, to_bytes,
}
use electroneum_web3_js.Address.{Host, checksum_form}
use electroneum_web3_js.Abi.{Error}
use electroneum_web3_js.Abi.Types.{
  AbiType, string, bool, address, unknown, number, bytes, array, tuple, Params, nil, param,
  is_dynamic,
}
use electroneum_web3_js.Abi.Bytes.{even_length, prefix_0x}
use electroneum_web3_js.Abi.Coders.{component, store}

abbrev pub value_of : Result Error JsValue → JsValue
value_of (ok v) = v
value_of (err e) = JsValue.undefined

abbrev pub hex_of : List ℕ → JsValue
hex_of bs = JsValue.text (uint8_array_to_hex_string bs)

-- The data of `bytes<n>`, filled up with zeros.
abbrev pub hex_filled : ℕ → List ℕ → JsValue
hex_filled n bs = hex_of (bs ++ replicate (n - length bs) 0)

abbrev pub or_undefined : {A : Type 0} → (A → JsValue) → Option A → JsValue
or_undefined f none = JsValue.undefined
or_undefined f (some a) = f a

-- The fields of a decoded tuple before its first component.
abbrev pub no_fields : Fields
no_fields = Fields.field (lit "__length__") (JsValue.number (pos 0)) end

-- Numbers read as bigints, bytes as hexadecimal strings (those of a sized type filled up with
-- zeros), addresses in checksum form, tuples as objects by index and by name. A value that its type
-- does not accept reads as `undefined`.
module _ (host : Host) where
  unfoldable mutual
    pub read_back : AbiType → JsValue → JsValue
    read_back string (JsValue.text t) = JsValue.text (host.bytes_to_utf8 (host.utf8_to_bytes t))
    read_back string v = JsValue.undefined
    read_back bool v = or_undefined JsValue.boolean (to_bool v)
    read_back address (JsValue.text t) = JsValue.text (checksum_form host (prefix_0x (map lower t)))
    read_back address v = JsValue.undefined
    read_back unknown v = JsValue.undefined
    read_back (number t) v = or_undefined JsValue.bigint (to_big_int v)
    read_back (bytes none) v = or_undefined hex_of (to_bytes (even_length v))
    read_back (bytes (some n)) v = or_undefined (hex_filled n) (to_bytes (even_length v))
    read_back (array t size) (JsValue.array vs) =
        JsValue.array (of_elements (map (read_back t) (elements vs)))
    read_back (array t size) v = JsValue.undefined
    read_back (tuple ps) v = JsValue.object (read_components ps 0 v no_fields)

    pub read_components : Params → ℕ → JsValue → Fields → Fields
    read_components nil index v result = result
    read_components (param name t ps) index v result =
        read_components ps (index + 1) v
          (store index name (read_back t (value_of (component v index name))) result)

-- The names of components that mean something else on the object that `decodeTuple` fills: the count
-- of the components, and the object's prototype.
abbrev pub is_reserved : Text → Bool
is_reserved name = text_eq name (lit "__length__") || text_eq name (lit "__proto__")

-- A fixed array of no items has a static encoding, whatever its items are; `isDynamic` asks the
-- items. The two agree on the other types. No component has a reserved name.
abbrev mutual
  pub IsSound : AbiType → Type 0
  IsSound (array t none) = IsSound t
  IsSound (array t (some n)) = IsSound t × ((is_dynamic t ≡ false) ⊎ (0 < n))
  IsSound (tuple ps) = AreSound ps
  IsSound _ = Unit {0}

  pub AreSound : Params → Type 0
  AreSound nil = Unit {0}
  AreSound (param name t ps) = (is_reserved name ≡ false) × IsSound t × AreSound ps

-- What a decoder hands back of the bytes `rest` behind the encoding. For an array of dynamic items
-- whose length is in the data, `decodeArray` counts the word of the length twice.
unfoldable pub leftover : AbiType → List ℕ → List ℕ
leftover (array t none) rest = if is_dynamic t then drop 32 rest else rest
leftover _ rest = rest
