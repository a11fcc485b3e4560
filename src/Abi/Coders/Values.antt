-- ===== src/Abi/Coders/Values.antt =====
-- Arrays and tuples, and with them every value, through the coders and back.
use electroneum_web3_js.Base.{
  ℕ, zero, suc, ◌+◌, ◌^◌, ◌<◌, ◌≡◌, refl, sym, ap, ◌∙◌, subst, List, [], ◌∷◌, map, Bool, false, not,
  Option, none, some, Result, ok, ◌>>=◌, >>=-eq-ok, throw_if-eq-ok, or_throw-eq-ok, ok-injective,
  map_result, length, length-append, get_elem?, All, arith, ◌++◌, drop, drop-append, Bool-cases,
  inl, inr, append_assoc,
}
use electroneum_web3_js.Text.{Text, text_eq}
use electroneum_web3_js.Js.{
  JsValue, JsValues, Fields, end, field, elements, IsJs, AreJs, FieldsAreJs, get_field,
}
use electroneum_web3_js.Address.{Host}
use electroneum_web3_js.Abi.{Error, EncoderResult, count_mismatch, not_array_or_object}
use electroneum_web3_js.Abi.Types.{
  AbiType, string, bool, address, unknown, number, bytes, array, tuple, Params, nil, param,
  is_dynamic, any_dynamic,
}
use electroneum_web3_js.Abi.Coders.{
  static_size, some_dynamic, wrong_count, join_items, encode_array, is_object, component,
  not_missing, join_components, encode, encode_components, decode,
}
use electroneum_web3_js.Abi.Coders.Layout.{heads, tails, ReadAll}
use electroneum_web3_js.Abi.Coders.ReadBack.{
  read_back, value_of, no_fields, IsSound, AreSound, leftover,
}
use electroneum_web3_js.Abi.Coders.Items.{
  Flagged, length-le_concat, small, decode_array-none, decode_array-some,
}
use electroneum_web3_js.Abi.Coders.Joins.{join_items-length, join_components-eq-ok}
use electroneum_web3_js.Abi.Coders.RoundTrip.{
  Coded, ComponentsCoded, read_components_lem, string_Coded, bool_Coded, address_Coded,
  number_Coded, bytes_Coded,
}

elements-IsJs :
    (vs : JsValues) (i : ℕ) (w : JsValue) → AreJs vs → get_elem? (elements vs) i ≡ some w → IsJs w
elements-IsJs JsValues.nil i w h e = cc
elements-IsJs (JsValues.cons v vs) zero w (h, hs) e = subst IsJs (some_injective e) h
  where
    some_injective : {a b : JsValue} → ◌≡◌ {A = Option JsValue} (some a) (some b) → a ≡ b
    some_injective p = cc
elements-IsJs (JsValues.cons v vs) (suc i) w (h, hs) e = elements-IsJs vs i w hs e

pub elements-All : (vs : JsValues) → AreJs vs → All IsJs (elements vs)
elements-All JsValues.nil h = tt
elements-All (JsValues.cons v vs) (h, hs) = (h, elements-All vs hs)

get_field-IsJs : (key : Text) (fs : Fields) → FieldsAreJs fs → IsJs (get_field key fs)
unfolding get_field
get_field-IsJs key end h = tt
get_field-IsJs key (field k v fs) (h, hs) = elim (Bool-cases (text_eq k key)) [
  | inl same ↦ rw same h
  | inr other ↦ rw other (get_field-IsJs key fs hs)
]

not_missing-eq-ok : (v w : JsValue) → not_missing v ≡ ok w → v ≡ w
not_missing-eq-ok JsValue.undefined w e = cc
not_missing-eq-ok JsValue.null w e = cc
not_missing-eq-ok _ w e = ok-injective e

pub component-IsJs :
    (v : JsValue) (index : ℕ) (name : Text) (w : JsValue)
    → IsJs v
    → component v index name ≡ ok w
    → IsJs w
unfolding component
component-IsJs (JsValue.array vs) index name w (_, hs) e =
    elements-IsJs vs index w hs (or_throw-eq-ok _ _ e)
component-IsJs (JsValue.object fs) index name w h e =
    subst IsJs (not_missing-eq-ok (get_field name fs) w e) (get_field-IsJs name fs h)
component-IsJs JsValue.null index name w h e = cc
component-IsJs _ index name w h e = cc

value_of-ok : (r : Result Error JsValue) (w : JsValue) → r ≡ ok w → value_of r ≡ w
value_of-ok r w e = ap value_of e

module _ (host : Host) where
  -- The coders of a type are sound on the values that JavaScript can hold, whose encoding has less
  -- than 2 ** 32 bytes.
  abbrev Rounds : AbiType → Type 0
  Rounds t =
      (v : JsValue) (r : EncoderResult)
      → IsJs v
      → encode host t v ≡ ok r
      → length r.encoded < small
      → Coded host t v r

  items_Coded :
      (t : AbiType)
      → Rounds t
      → (xs : List JsValue) (rs : List EncoderResult) → All IsJs xs
      → map_result (encode host t) xs ≡ ok rs
      → All (λ r. length r.encoded < small) rs
      → ReadAll (decode host t) (leftover t) rs (map (read_back host t) xs)
        × Flagged (is_dynamic t) rs
        × (length rs ≡ length xs)
  items_Coded t round [] [] js e bounds = (tt, tt, refl)
  items_Coded t round [] (r ∷ rs) js e bounds = cc
  items_Coded t round (x ∷ xs) rs (js, jss) e bounds =
      let (r, is_r, e₁) = >>=-eq-ok (encode host t x) _ e in
      let (rest, is_rest, e₂) = >>=-eq-ok (map_result (encode host t) xs) _ e₁ in
      let whole : r ∷ rest ≡ rs = ok-injective e₂ in
      let (bound, bounds') = subst (All (λ q. length q.encoded < small)) (sym whole) bounds in
      let c = round x r js is_r bound in
      let (reads, flags, same) = items_Coded t round xs rest jss is_rest bounds' in
      subst
        (λ qs.
          ReadAll (decode host t) (leftover t) qs (map (read_back host t) (x ∷ xs))
          × Flagged (is_dynamic t) qs
          × (length qs ≡ length (x ∷ xs)))
        whole ((c.reads, reads), (c.flag, flags), ap suc same)

  count_matches : (size n : ℕ) → wrong_count (some size) n ≡ false → n ≡ size
  count_matches size n h = ground arith

  array_Coded :
      (t : AbiType) (size : Option ℕ) → Rounds t → IsSound (array t size) → Rounds (array t size)
  unfolding encode encode_array decode read_back leftover is_dynamic
  array_Coded t none round sound (JsValue.array vs) r (few, js) e bound =
      let (rs, is_rs, e₁) = >>=-eq-ok (map_result (encode host t) (elements vs)) _ e in
      let short = join_items-length none rs r e₁ in
      let (reads, flags, same) =
        items_Coded t round (elements vs) rs (elements-All vs js) is_rs
          (length-le_concat rs small (omega arith)) in
      let (flag, decoded) =
        decode_array-none (decode host t) (leftover t) rs _ reads (is_dynamic t) r flags e₁
          (omega arith) bound in
      record { flag = flag; reads = decoded }
  array_Coded t (some n) round (sound, filled) (JsValue.array vs) r (few, js) e bound =
      let (rs, is_rs, e₀) = >>=-eq-ok (map_result (encode host t) (elements vs)) _ e in
      let (counted, e₁) =
        throw_if-eq-ok (wrong_count (some n) (length (elements vs))) count_mismatch
          (join_items (some n) rs) e₀ in
      let short = join_items-length (some n) rs r e₁ in
      let (reads, flags, same) =
        items_Coded t round (elements vs) rs (elements-All vs js) is_rs
          (length-le_concat rs small (omega arith)) in
      let size : n ≡ length rs = sym (same ∙ count_matches n (length (elements vs)) counted) in
      let (flag, decoded) =
        decode_array-some (decode host t) (leftover t) rs _ reads (is_dynamic t) r flags
          (rw size at filled) (rw size at e₁) bound in
      record { flag = flag; reads = rw size decoded }
  array_Coded t size round sound _ r js e bound = cc

  no_components-flag : ◌≡◌ {A = Bool} (some_dynamic []) false
  no_components-flag = refl

  tuple_flag :
      (ps : Params) (index : ℕ) (v : JsValue) (rs : List EncoderResult)
      → ComponentsCoded host ps index v rs
      → some_dynamic rs ≡ any_dynamic ps
  unfolding is_dynamic
  tuple_flag nil index v [] h = refl
  tuple_flag nil index v (r ∷ rs) h = absurd h
  tuple_flag (param name t ps) index v [] h = absurd h
  tuple_flag (param name t ps) index v (r ∷ rs) (c, cs) =
      rw (c.flag, tuple_flag ps (index + 1) v rs cs)

  tuple_Coded :
      (ps : Params) (v : JsValue) (rs : List EncoderResult) (r : EncoderResult)
      → ComponentsCoded host ps 0 v rs
      → join_components rs ≡ ok r
      → length r.encoded < small
      → Coded host (tuple ps) v r
  unfolding decode read_back leftover is_dynamic
  tuple_Coded ps v rs r cs e bound =
      let (form, size, _) = join_components-eq-ok rs r e in
      let width : length r.encoded ≡ length (heads (static_size rs) rs) + length (tails rs) =
        ap (λ x. length x.encoded) form ∙ length-append (heads (static_size rs) rs) (tails rs) in
      record {
        flag = ap (λ x. x.dynamic) form ∙ tuple_flag ps 0 v rs cs;
        reads = λ rest.
            let starts : r.encoded ++ rest ≡ heads (static_size rs) rs ++ (tails rs ++ rest) =
              ap (λ x. x.encoded ++ rest) form
              ∙ append_assoc (heads (static_size rs) rs) (tails rs) rest in
            let past : drop (static_size rs) (r.encoded ++ rest) ≡ tails rs ++ rest =
              ap (drop (static_size rs)) starts
              ∙ ap (λ n. drop n (heads (static_size rs) rs ++ (tails rs ++ rest))) (sym size)
              ∙ drop-append (heads (static_size rs) rs) (tails rs ++ rest) in
            let total : 0 + static_size rs + (0 + length (tails rs)) ≡ length r.encoded =
              omega arith in
            rw (
              read_components_lem host ps 0 v rs (r.encoded ++ rest) 0 0 (static_size rs)
                  (tails rs ++ rest) rest no_fields cs starts past (omega arith),
              total,
              drop-append r.encoded rest,
            );
      }

  mutual
    unfolding encode

    every_Coded : (t : AbiType) → IsSound t → Rounds t
    every_Coded string sound v r js e bound = string_Coded host v r e
    every_Coded bool sound v r js e bound = bool_Coded host v r e
    every_Coded address sound v r js e bound = address_Coded host v r e
    every_Coded unknown sound v r js e bound = cc
    every_Coded (number t) sound v r js e bound = number_Coded host t v r e
    every_Coded (bytes size) sound v r js e bound = bytes_Coded host size v r e
    every_Coded (array t none) sound v r js e bound =
        array_Coded t none (every_Coded t sound) sound v r js e bound
    every_Coded (array t (some n)) sound v r js e bound =
        array_Coded t (some n) (every_Coded t sound.0) sound v r js e bound
    every_Coded (tuple ps) sound v r js e bound =
        let (_, e₀) =
          throw_if-eq-ok (not (is_object v)) not_array_or_object
            (encode_components host ps 0 v >>= join_components) e in
        let (rs, is_rs, e₁) = >>=-eq-ok (encode_components host ps 0 v) _ e₀ in
        let (_, _, short) = join_components-eq-ok rs r e₁ in
        tuple_Coded ps v rs r
          (components_Coded ps 0 sound v rs js is_rs (length-le_concat rs small (omega arith))) e₁
          bound

    components_Coded :
        (ps : Params) (index : ℕ)
        → AreSound ps
        → (v : JsValue) (rs : List EncoderResult) → IsJs v
        → encode_components host ps index v ≡ ok rs
        → All (λ r. length r.encoded < small) rs
        → ComponentsCoded host ps index v rs
    components_Coded nil index sound v [] js e bounds = tt
    components_Coded nil index sound v (r ∷ rs) js e bounds = cc
    components_Coded (param name t ps) index (_, sound, sounds) v rs js e bounds =
        let (w, is_w, e₁) = >>=-eq-ok (component v index name) _ e in
        let (r, is_r, e₂) = >>=-eq-ok (encode host t w) _ e₁ in
        let (rest, is_rest, e₃) = >>=-eq-ok (encode_components host ps (index + 1) v) _ e₂ in
        let whole : r ∷ rest ≡ rs = ok-injective e₃ in
        let (bound, bounds') = subst (All (λ q. length q.encoded < small)) (sym whole) bounds in
        let c = every_Coded t sound w r (component-IsJs v index name w js is_w) is_r bound in
        let cs = components_Coded ps (index + 1) sounds v rest js is_rest bounds' in
        subst (ComponentsCoded host (param name t ps) index v) whole
          (subst (λ x. Coded host t x r) (sym (value_of-ok _ w is_w)) c, cs)

  -- Encode and decode, for every value that encodes: bytes may follow the encoding; the decoder
  -- reads the value as `read_back` tells, hands back what `leftover` tells of the bytes behind it
  -- and says how many bytes the encoding has; the encoding is flagged as `isDynamic` has it.
  -- The type has no fixed array of no dynamic items and no component with a reserved name, the value
  -- is one that JavaScript can hold, the encoding has less than 2 ** 32 bytes.
  pub decode-encode :
      (t : AbiType) (v : JsValue) (r : EncoderResult) (rest : List ℕ)
      → IsSound t
      → IsJs v
      → encode host t v ≡ ok r
      → length r.encoded < 2 ^ 32
      → (decode host t (r.encoded ++ rest)
          ≡ ok (record {
            result = read_back host t v;
            encoded = leftover t rest;
            consumed = length r.encoded;
          }))
        × (r.dynamic ≡ is_dynamic t)
  decode-encode t v r rest sound js e bound =
      let c = every_Coded t sound v r js e (omega arith) in (c.reads rest, c.flag)
