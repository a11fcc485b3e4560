-- ===== src/Abi/Coders/Joins.antt =====
-- The ends of `encodeArray` and `encodeTuple`, which join the encoded parts.
use electroneum_web3_js.Base.{
  ℕ, ◌≤◌, ◌≡◌, sym, ap, ◌∙◌, List, ◌++◌, Bool-cases, inl, inr, Option, none, some, ok, >>=-eq-ok,
  ok-injective, length, length-append, arith, append-nil,
}
use mathlib.Core.Path.{ap₂}
use electroneum_web3_js.Abi.{EncoderResult}
use electroneum_web3_js.Abi.Number.Words.{word}
use electroneum_web3_js.Abi.Coders.{
  concat_encoded, static_size, encode_dynamic_params, first_dynamic, some_dynamic, join_items,
  join_components,
}
use electroneum_web3_js.Abi.Coders.Layout.{
  heads, tails, encode_dynamic_params-eq-ok, length-concat-le, static_layout,
}
use electroneum_web3_js.Abi.Coders.Items.{body, join_items-none}

length-body :
    (rs : List EncoderResult)
    → length (heads (static_size rs) rs) ≡ static_size rs
    → length (concat_encoded rs) ≤ length (body rs)
length-body rs size =
    omega (arith, length-concat-le rs, length-append (heads (static_size rs) rs) (tails rs))

-- The joined encoding is no shorter than its parts.
pub join_items-length :
    (size : Option ℕ) (rs : List EncoderResult) (r : EncoderResult)
    → join_items size rs ≡ ok r
    → length (concat_encoded rs) ≤ length r.encoded
unfolding join_items
join_items-length none rs r e =
    let (form, size, _) = join_items-none rs r e in
    let width : length r.encoded ≡ length (word (length rs) ++ body rs) =
      ap (λ x. length x.encoded) form in
    omega (arith, length-body rs size, width, length-append (word (length rs)) (body rs))
join_items-length (some n) rs r e = elim (Bool-cases (first_dynamic rs)) [
  | inl dyn ↦
      let (b, is_body, e₁) = >>=-eq-ok (encode_dynamic_params rs) _ (rw dyn at e) in
      let (same, size) = encode_dynamic_params-eq-ok rs b is_body in
      let width : length r.encoded ≡ length (body rs) =
        ap (λ x. length x.encoded) (sym (ok-injective e₁)) ∙ ap length same in
      omega (arith, length-body rs size, width)
  | inr stat ↦
      let width : length r.encoded ≡ length (concat_encoded rs) =
        ap (λ x. length x.encoded) (sym (ok-injective (rw stat at e))) in
      omega arith
]

-- `encodeTuple` joins its components into heads and tails, with the flag of a dynamic one among
-- them.
pub join_components-eq-ok :
    (rs : List EncoderResult) (r : EncoderResult)
    → join_components rs ≡ ok r
    → (r ≡ record { dynamic = some_dynamic rs; encoded = body rs })
      × (length (heads (static_size rs) rs) ≡ static_size rs)
      × (length (concat_encoded rs) ≤ length r.encoded)
unfolding join_components
join_components-eq-ok rs r e = elim (Bool-cases (some_dynamic rs)) [
  | inl dyn ↦
      let (b, is_body, e₁) = >>=-eq-ok (encode_dynamic_params rs) _ (rw dyn at e) in
      let (same, size) = encode_dynamic_params-eq-ok rs b is_body in
      let form : r ≡ record { dynamic = some_dynamic rs; encoded = body rs } =
        sym (ok-injective e₁) ∙ (λ i. record { dynamic = sym dyn i; encoded = same i }) in
      let width : length r.encoded ≡ length (body rs) = ap (λ x. length x.encoded) form in
      (form, size, omega (arith, length-body rs size, width))
  | inr stat ↦
      let (same, none_left, size) = static_layout (static_size rs) rs stat in
      let flat : concat_encoded rs ≡ body rs =
        sym (ap₂ ◌++◌ same none_left ∙ append-nil (concat_encoded rs)) in
      let form : r ≡ record { dynamic = some_dynamic rs; encoded = body rs } =
        sym (ok-injective (rw stat at e))
        ∙ (λ i. record { dynamic = sym stat i; encoded = flat i }) in
      let width : length r.encoded ≡ length (body rs) = ap (λ x. length x.encoded) form in
      let heads_width : length (heads (static_size rs) rs) ≡ length (concat_encoded rs) =
        ap length same in
      (form, omega arith, omega (arith, width, ap length flat))
]
