-- ===== src/Abi/Coders/RoundTrip.antt =====
-- Values of every type through `encodeParamFromAbiParameter` and `decodeParamFromAbiParameter`.
use electroneum_web3_js.Base.{
  ℕ, zero, suc, ◌+◌, ◌<◌, ◌≡◌, refl, sym, ap, ◌∙◌, List, [], ◌∷◌, ◌++◌, Bool, true, false, Option,
  none, some, ok, >>=-eq-ok, or_throw, or_throw-eq-ok, length, drop, arith,
}
use electroneum_web3_js.Js.{JsValue, Fields, to_big_int}
use electroneum_web3_js.Address.{Host}
use electroneum_web3_js.Abi.{EncoderResult, not_a_number}
use electroneum_web3_js.Abi.Number.{NumberType, encode_number}
use electroneum_web3_js.Abi.Number.RoundTrip.{decode_number-encode_big_int, decode_number-word}
use electroneum_web3_js.Abi.Types.{
  AbiType, string, bool, address, number, bytes, Params, nil, param, is_dynamic,
}
use electroneum_web3_js.Abi.Bytes.{encode_bytes, encode_boolean, encode_string, encode_address}
use electroneum_web3_js.Abi.Bytes.RoundTrip.{
  decode_bool-encode_boolean, decode_bytes-encode_bytes, decode_bytes-encode_bytes_sized,
  encode_bytes-zero,
}
use electroneum_web3_js.Abi.Bytes.Addresses.{
  decode_string-encode_string, decode_address-encode_address,
}
use electroneum_web3_js.Abi.Coders.{
  static_size, component, store, map_decoded, Decoder, decode_child, decode, decode_components,
}
use electroneum_web3_js.Abi.Coders.Layout.{
  heads, tails, Reads, at_dynamic, at_static, length-tails_nil,
}
use electroneum_web3_js.Abi.Coders.ReadBack.{
  read_back, read_components, value_of, or_undefined, hex_of, hex_filled, leftover,
}
use electroneum_web3_js.Abi.Coders.Items.{small}

-- The encoding `r` of `v` is flagged as `isDynamic` says, and its decoder reads it back.
pub record Coded (host : Host) (t : AbiType) (v : JsValue) (r : EncoderResult) : Type 0 where
  pub flag : r.dynamic ≡ is_dynamic t
  pub reads : Reads (decode host t) (leftover t) r (read_back host t v)

-- Each component's encoding, for the value that it has in `v`.
abbrev pub ComponentsCoded : Host → Params → ℕ → JsValue → List EncoderResult → Type 0
ComponentsCoded host nil index v [] = Unit {0}
ComponentsCoded host nil index v (r ∷ rs) = ⊥
ComponentsCoded host (param name t ps) index v [] = ⊥
ComponentsCoded host (param name t ps) index v (r ∷ rs) =
    Coded host t (value_of (component v index name)) r × ComponentsCoded host ps (index + 1) v rs

read_child :
    (dec : Decoder) (left : List ℕ → List ℕ) (flag : Bool) (w : JsValue) (r : EncoderResult)
    (rs : List EncoderResult) (octets : List ℕ) (consumed offset : ℕ) (more rest : List ℕ)
    → r.dynamic ≡ flag
    → Reads dec left r w
    → drop consumed octets ≡ heads offset (r ∷ rs) ++ more
    → drop offset octets ≡ tails (r ∷ rs) ++ rest
    → offset + length (tails (r ∷ rs)) < small
    → (at_head at_tail next : ℕ) × (decode_child dec flag octets consumed
        ≡ ok (w, at_head, at_tail))
      × (drop (consumed + at_head) octets ≡ heads next rs ++ more)
      × (drop next octets ≡ tails rs ++ rest)
      × (next + length (tails rs) ≡ offset + length (tails (r ∷ rs)))
      × (static_size (r ∷ rs) ≡ at_head + static_size rs)
      × (length (tails (r ∷ rs)) ≡ at_tail + length (tails rs))
unfolding decode_child static_size
read_child dec left true w r rs octets consumed offset more rest flag reads eh et bound =
    let a = at_dynamic consumed offset octets more rest r rs flag (omega arith) eh et in
    (
      32,
      length r.encoded,
      offset + length r.encoded,
      rw (a.head, decode_number-word offset _ (omega arith), a.body, reads (tails rs ++ rest)),
      a.next_head,
      a.next_body,
      omega (arith, a.size),
      rw flag,
      a.size,
    )
read_child dec left false w r rs octets consumed offset more rest flag reads eh et bound =
    let a = at_static consumed offset octets more rest r rs flag eh et in
    (
      length r.encoded,
      0,
      offset,
      rw (a.here, reads (heads offset rs ++ more)),
      a.next_head,
      a.next_body,
      omega (arith, a.size),
      rw flag,
      omega (arith, a.size),
    )

static_size_nil : static_size [] ≡ 0
unfolding static_size
static_size_nil = refl

-- The loop of `decodeTuple`, from a component on: its heads at `consumed`, its tails at `offset`.
pub read_components_lem :
    (host : Host) (ps : Params) (index : ℕ) (v : JsValue) (rs : List EncoderResult)
    (octets : List ℕ) (consumed dynamic_consumed offset : ℕ) (more rest : List ℕ) (fields : Fields)
    → ComponentsCoded host ps index v rs
    → drop consumed octets ≡ heads offset rs ++ more
    → drop offset octets ≡ tails rs ++ rest
    → offset + length (tails rs) < small
    → decode_components host ps index octets consumed dynamic_consumed fields
      ≡ ok (
        read_components host ps index v fields,
        consumed + static_size rs + (dynamic_consumed + length (tails rs)),
      )
unfolding decode_components read_components
read_components_lem host nil index v [] octets consumed dyn offset more rest fields c eh et bound =
    ap (λ k. ok (fields, k)) (omega (arith, length-tails_nil, static_size_nil))
read_components_lem host nil index v (r ∷ rs) octets consumed dyn offset more rest fields c eh et
      bound =
    absurd c
read_components_lem host (param name t ps) index v [] octets consumed dyn offset more rest fields c
      eh et bound =
    absurd c
read_components_lem host (param name t ps) index v (r ∷ rs) octets consumed dyn offset more rest
      fields (c, cs) eh et bound =
    let w = read_back host t (value_of (component v index name)) in
    let (at_head, at_tail, next, child, next_head, next_body, sum, size, width) =
      read_child (decode host t) (leftover t) (is_dynamic t) w r rs octets consumed offset more rest
        c.flag c.reads eh et bound in
    let later =
      read_components_lem host ps (index + 1) v rs octets (consumed + at_head) (dyn + at_tail) next
        more rest (store index name w fields) cs next_head next_body (omega arith) in
    let total : consumed + at_head + static_size rs + (dyn + at_tail + length (tails rs))
        ≡ consumed + static_size (r ∷ rs) + (dyn + length (tails (r ∷ rs))) =
      omega arith in
    rw (child, later, total)

-- The types without parts.
module _ (host : Host) where
  pub string_Coded :
      (v : JsValue) (r : EncoderResult) → encode_string host v ≡ ok r → Coded host string v r
  unfolding decode read_back leftover is_dynamic encode_string
  string_Coded (JsValue.text t) r e =
      let (dyn, reads) = decode_string-encode_string host t r e in
      record { flag = dyn; reads = λ rest. rw (reads rest) }
  string_Coded _ r e = cc

  pub bool_Coded : (v : JsValue) (r : EncoderResult) → encode_boolean v ≡ ok r → Coded host bool v r
  unfolding decode read_back leftover is_dynamic
  bool_Coded v r e =
      let (b, is_b, flag, reads) = decode_bool-encode_boolean v r e in
      record {
        flag = flag;
        reads = λ rest. ap (map_decoded JsValue.boolean) (reads rest) ∙ (λ i. ok (record {
          result = or_undefined JsValue.boolean (sym is_b i);
          encoded = rest;
          consumed = length r.encoded;
        }));
      }

  pub address_Coded :
      (v : JsValue) (r : EncoderResult) → encode_address host v ≡ ok r → Coded host address v r
  unfolding decode read_back leftover is_dynamic encode_address
  address_Coded (JsValue.text t) r e =
      let (flag, reads) = decode_address-encode_address host t r e in
      record { flag = flag; reads = λ rest. rw (reads rest) }
  address_Coded _ r e = cc

  pub number_Coded :
      (t : NumberType) (v : JsValue) (r : EncoderResult)
      → encode_number t v ≡ ok r
      → Coded host (number t) v r
  unfolding decode read_back leftover is_dynamic encode_number
  number_Coded t v r e =
      let (z, is_z, e₁) = >>=-eq-ok (or_throw (to_big_int v) not_a_number) _ e in
      let parses = or_throw-eq-ok _ _ is_z in
      let (_, flag, size) = decode_number-encode_big_int t z r [] e₁ in
      record {
        flag = flag;
        reads = λ rest.
            ap (map_decoded JsValue.bigint) (decode_number-encode_big_int t z r rest e₁).0 ∙ (λ i.
              ok (record {
                result = or_undefined JsValue.bigint (sym parses i);
                encoded = rest;
                consumed = sym size i;
              }));
      }

  pub bytes_Coded :
      (size : Option ℕ) (v : JsValue) (r : EncoderResult)
      → encode_bytes size v ≡ ok r
      → Coded host (bytes size) v r
  unfolding decode read_back leftover is_dynamic
  bytes_Coded none v r e =
      let (bs, are, flag, reads) = decode_bytes-encode_bytes v r e in
      record {
        flag = flag;
        reads = λ rest. ap (map_decoded hex_of) (reads rest) ∙ (λ i. ok (record {
          result = or_undefined hex_of (sym are i);
          encoded = rest;
          consumed = length r.encoded;
        }));
      }
  bytes_Coded (some zero) v r e = absurd (encode_bytes-zero v r e)
  bytes_Coded (some (suc n)) v r e =
      let (bs, are, short, flag, reads) = decode_bytes-encode_bytes_sized n v r e in
      record {
        flag = flag;
        reads = λ rest. ap (map_decoded hex_of) (reads rest) ∙ (λ i. ok (record {
          result = or_undefined (hex_filled (suc n)) (sym are i);
          encoded = rest;
          consumed = length r.encoded;
        }));
      }
