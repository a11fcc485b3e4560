-- ===== src/Abi/Coders/Items.antt =====
-- The items of an array through `encodeArray` and `decodeArray`.
use electroneum_web3_js.Base.{
  ℕ, suc, ◌+◌, ◌*◌, ◌^◌, ◌<◌, ◌≡◌, refl, sym, ap, ◌∙◌, subst, List, [], ◌∷◌, ◌++◌, append_assoc,
  append-nil, Bool, true, false, inl, inr, ◌⊎◌, Option, none, some, ok, >>=-eq-ok, ok-injective,
  if◌then◌else◌, length, length-append, drop, drop-append, drop-append_more, lt→ltb, All, arith,
  ltb,
}
use mathlib.Core.Path.{ap₂}
use native.Mathlib.Nat.{zero-add}
use electroneum_web3_js.Base.Int.{pos}
use electroneum_web3_js.Js.{JsValue, of_elements}
use electroneum_web3_js.Abi.{EncoderResult}
use electroneum_web3_js.Abi.Number.{encode_number, uint}
use electroneum_web3_js.Abi.Number.Words.{word, length-word}
use electroneum_web3_js.Abi.Number.RoundTrip.{encode_number-nat, decode_number-word}
use electroneum_web3_js.Abi.Coders.{
  concat_encoded, static_size, encode_dynamic_params, first_dynamic, some_dynamic, join_items,
  Decoder, decode_items, decode_array,
}
use electroneum_web3_js.Abi.Coders.Layout.{
  heads, tails, encode_dynamic_params-eq-ok, static_layout, ReadAll, decode_in_sequence-ReadAll,
  decode_by_offset-ReadAll, drop_past,
}

-- The body that stands for the items.
abbrev pub body : List EncoderResult → List ℕ
body rs = heads (static_size rs) rs ++ tails rs

joined :
    (rs : List EncoderResult) (count : EncoderResult) (b : List ℕ)
    → count.encoded ≡ word (length rs)
    → b ≡ body rs
    → (if ltb 0 (length rs) then count.encoded ++ b else count.encoded)
      ≡ word (length rs) ++ body rs
unfolding heads tails
joined [] count b e e' = e ∙ sym (append-nil (word 0))
joined (r ∷ rs) count b e e' = rw (lt→ltb 0 (suc (length rs)) (omega arith)) (λ i. e i ++ e' i)

pub join_items-none :
    (rs : List EncoderResult) (r : EncoderResult)
    → join_items none rs ≡ ok r
    → (r ≡ record { dynamic = true; encoded = word (length rs) ++ body rs })
      × (length (heads (static_size rs) rs) ≡ static_size rs)
      × (length rs < 2 ^ 256)
unfolding join_items
join_items-none rs r e =
    let (b, is_body, e₁) = >>=-eq-ok (encode_dynamic_params rs) _ e in
    let (count, is_count, e₂) =
      >>=-eq-ok (encode_number (uint 256) (JsValue.number (pos (length rs)))) _ e₁ in
    let (same, size) = encode_dynamic_params-eq-ok rs b is_body in
    let (word_count, small) = encode_number-nat (uint 256) (length rs) count is_count in
    (
      sym (ok-injective e₂) ∙ (λ i. record {
        dynamic = true;
        encoded = joined rs count b (ap (λ c. c.encoded) word_count) same i;
      }),
      size,
      small,
    )

-- All items have the dynamic flag of their type.
abbrev pub Flagged : Bool → List EncoderResult → Type 0
Flagged flag rs = All (λ r. r.dynamic ≡ flag) rs

static_items : (rs : List EncoderResult) → Flagged false rs → some_dynamic rs ≡ false
static_items [] h = refl
static_items (r ∷ rs) (e, h) = rw (e, static_items rs h)

length-dynamic_items : (rs : List EncoderResult) → Flagged true rs → static_size rs ≡ 32 * length rs
unfolding static_size
length-dynamic_items [] h = refl
length-dynamic_items (r ∷ rs) (e, h) = rw e (omega (arith, length-dynamic_items rs h))

pub length-le_concat :
    (rs : List EncoderResult) (n : ℕ)
    → length (concat_encoded rs) < n
    → All (λ r. length r.encoded < n) rs
unfolding concat_encoded
length-le_concat [] n h = tt
length-le_concat (r ∷ rs) n h = (
  omega (arith, length-append r.encoded (concat_encoded rs)),
  length-le_concat rs n (omega (arith, length-append r.encoded (concat_encoded rs))),
)

abbrev pub small : ℕ
small = 0x1_0000_0000

past_word : (n : ℕ) (t : List ℕ) → n < small → drop 32 (word n ++ t) ≡ t
past_word n t h =
    ap (λ k. drop k (word n ++ t)) (sym (length-word n (omega arith))) ∙ drop-append (word n) t

first_flag :
    (rs : List EncoderResult) (flag : Bool)
    → Flagged flag rs
    → (flag ≡ false) ⊎ (0 < length rs)
    → first_dynamic rs ≡ flag
first_flag [] flag h (inl e) = sym e
first_flag [] flag h (inr k) = absurd (omega arith)
first_flag (r ∷ rs) flag h k = h.0

module _ (dec : Decoder) (left : List ℕ → List ℕ) (rs : List EncoderResult) (vs : List JsValue)
    (reads : ReadAll dec left rs vs) where
  -- Dynamic items behind their offsets, from a place `octets` that ends in them.
  dynamic_items :
      (consumed : ℕ) (octets rest : List ℕ)
      → Flagged true rs
      → length (heads (static_size rs) rs) ≡ static_size rs
      → length (body rs) < small
      → decode_items dec true (length rs) consumed octets (body rs ++ rest)
        ≡ ok (record {
          result = JsValue.array (of_elements vs);
          encoded = drop (consumed + length (body rs)) (body rs ++ rest);
          consumed = consumed + length (body rs);
        })
  unfolding decode_items
  dynamic_items consumed octets rest flags size bound =
      let width : length (body rs) ≡ static_size rs + length (tails rs) =
        omega (arith, length-append (heads (static_size rs) rs) (tails rs)) in
      let at_head : drop (0 * 32) (body rs ++ rest)
          ≡ heads (static_size rs) rs ++ (tails rs ++ rest) =
        append_assoc (heads (static_size rs) rs) (tails rs) rest in
      let at_tail : drop (static_size rs) (body rs ++ rest) ≡ tails rs ++ rest =
        ap (λ n. drop n (body rs ++ rest)) (sym size)
        ∙ ap (drop (length (heads (static_size rs) rs))) at_head
        ∙ drop-append (heads (static_size rs) rs) (tails rs ++ rest) in
      let total : consumed + 32 * length rs + length (tails rs) ≡ consumed + length (body rs) =
        omega (arith, length-dynamic_items rs flags) in
      let loop =
        decode_by_offset-ReadAll dec left rs vs 0 (static_size rs) (body rs ++ rest) consumed
          (tails rs ++ rest) rest reads flags at_head at_tail (omega arith) in
      rw (loop, total)

  -- Static items in sequence, from the place `consumed` on.
  sequential_items :
      (consumed : ℕ) (octets remaining rest : List ℕ)
      → drop consumed octets ≡ concat_encoded rs ++ rest
      → decode_items dec false (length rs) consumed octets remaining
        ≡ ok (record {
          result = JsValue.array (of_elements vs);
          encoded = rest;
          consumed = consumed + length (concat_encoded rs);
        })
  unfolding decode_items
  sequential_items consumed octets remaining rest at_ = rw (
    decode_in_sequence-ReadAll dec left rs vs octets consumed rest reads at_,
    drop_past consumed octets (concat_encoded rs) rest at_,
  )

  -- An array whose length is in the data: the word of the length, and the items.
  counted :
      (flag : Bool) (rest : List ℕ)
      → Flagged flag rs
      → length (heads (static_size rs) rs) ≡ static_size rs
      → length rs < small
      → length (body rs) < small
      → decode_items dec flag
          (length rs)
          32
          (word (length rs) ++ (body rs ++ rest))
          (body rs ++ rest)
        ≡ ok (record {
          result = JsValue.array (of_elements vs);
          encoded = if flag then drop 32 rest else rest;
          consumed = 32 + length (body rs);
        })
  counted true rest flags size few bound =
      let past : drop (32 + length (body rs)) (body rs ++ rest) ≡ drop 32 rest =
        ap (λ n. drop n (body rs ++ rest)) (omega arith) ∙ drop-append_more (body rs) rest 32 in
      rw past at (dynamic_items 32 (word (length rs) ++ (body rs ++ rest)) rest flags size bound)
  counted false rest flags size few bound =
      let (same, none_left, _) = static_layout (static_size rs) rs (static_items rs flags) in
      let flat : body rs ≡ concat_encoded rs =
        ap₂ ◌++◌ same none_left ∙ append-nil (concat_encoded rs) in
      rw flat (sequential_items 32 _ _ rest (past_word (length rs) (concat_encoded rs ++ rest) few))

  -- What `decodeArray` makes of the encoding of the items.
  abbrev Decodes : Bool → Option ℕ → (List ℕ → List ℕ) → EncoderResult → Type 0
  Decodes flag size rest_of r =
      (rest : List ℕ)
      → decode_array dec flag size (r.encoded ++ rest)
        ≡ ok (record {
          result = JsValue.array (of_elements vs);
          encoded = rest_of rest;
          consumed = length r.encoded;
        })

  read_counted :
      (flag : Bool)
      → Flagged flag rs
      → length (heads (static_size rs) rs) ≡ static_size rs
      → length rs < small
      → length (body rs) < small
      → Decodes flag none
          (λ rest. if flag then drop 32 rest else rest)
          (record { dynamic = true; encoded = word (length rs) ++ body rs })
  unfolding decode_array
  read_counted flag flags size few bound rest =
      let width : length (word (length rs) ++ body rs) ≡ 32 + length (body rs) = omega (
        arith,
        length-append (word (length rs)) (body rs),
        length-word (length rs) (omega arith),
      ) in
      rw
        (
          append_assoc (word (length rs)) (body rs) rest,
          decode_number-word (length rs) (body rs ++ rest) few,
          width,
        )
        (counted flag rest flags size few bound)

  pub decode_array-none :
      (flag : Bool) (r : EncoderResult)
      → Flagged flag rs
      → join_items none rs ≡ ok r
      → length rs < small
      → length r.encoded < small
      → (r.dynamic ≡ true) × Decodes flag none (λ rest. if flag then drop 32 rest else rest) r
  decode_array-none flag r flags e few bound =
      let (same, size, _) = join_items-none rs r e in
      let bound' : length (word (length rs) ++ body rs) < small = rw same at bound in
      (
        ap (λ x. x.dynamic) same,
        subst (Decodes flag none (λ rest. if flag then drop 32 rest else rest)) (sym same) (
            read_counted flag flags size few
              (omega (arith, length-append (word (length rs)) (body rs)))),
      )

  pub decode_array-some :
      (flag : Bool) (r : EncoderResult)
      → Flagged flag rs
      → (flag ≡ false) ⊎ (0 < length rs)
      → join_items (some (length rs)) rs ≡ ok r
      → length r.encoded < small
      → (r.dynamic ≡ flag) × Decodes flag (some (length rs)) (λ rest. rest) r
  unfolding decode_array join_items
  decode_array-some true r flags sound e bound =
      let (b, is_body, e₁) =
        >>=-eq-ok (encode_dynamic_params rs) _ (rw (first_flag rs true flags sound) at e) in
      let (same, size) = encode_dynamic_params-eq-ok rs b is_body in
      let form : record { dynamic = true; encoded = body rs } ≡ r =
        (λ i. record { dynamic = true; encoded = sym same i }) ∙ ok-injective e₁ in
      let bound' : length (body rs) < small = rw (← form) at bound in
      (
        sym (ap (λ x. x.dynamic) form),
        subst (Decodes true (some (length rs)) (λ rest. rest)) form (λ rest. rw (
          dynamic_items 0 (body rs ++ rest) rest flags size bound',
          zero-add (length (body rs)),
          drop-append (body rs) rest,
        )),
      )
  decode_array-some false r flags sound e bound =
      let form = ok-injective (rw (first_flag rs false flags sound) at e) in
      (
        sym (ap (λ x. x.dynamic) form),
        subst (Decodes false (some (length rs)) (λ rest. rest)) form (λ rest. rw (
          sequential_items 0 (concat_encoded rs ++ rest) (concat_encoded rs ++ rest) rest refl,
          zero-add (length (concat_encoded rs)),
        )),
      )
