-- ===== src/Abi/Coders/Layout.antt =====
-- `encodeDynamicParams` lays its parameters out in heads and tails, and the loops of `decodeArray`
-- find them there.
use electroneum_web3_js.Base.{
  ℕ, zero, suc, ◌+◌, ◌*◌, ◌≤◌, ◌<◌, ◌≡◌, refl, sym, ap, ◌∙◌, List, [], ◌∷◌, ◌++◌, append_assoc,
  true, false, Bool-cases, inl, inr, ok, >>=-eq-ok, ok-injective, if◌then◌else◌, length,
  length-append, drop, drop-append, All, arith,
}
use electroneum_web3_js.Js.{JsValue}
use electroneum_web3_js.Abi.{EncoderResult}
use electroneum_web3_js.Abi.Number.{uint}
use electroneum_web3_js.Abi.Number.Words.{word, length-word}
use electroneum_web3_js.Abi.Number.RoundTrip.{encode_number-nat, decode_number-word}
use electroneum_web3_js.Abi.Coders.{
  concat_encoded, static_size, layout, encode_dynamic_params, Decoder, decode_by_offset,
  decode_in_sequence, some_dynamic,
}

-- The layout that the ABI asks for: behind the heads, the data of each dynamic parameter in order,
-- and in its head the place of that data.
unfoldable pub heads : ℕ → List EncoderResult → List ℕ
heads offset [] = []
heads offset (r ∷ rs) =
    if r.dynamic
    then word offset ++ heads (offset + length r.encoded) rs
    else r.encoded ++ heads offset rs

unfoldable pub tails : List EncoderResult → List ℕ
tails [] = []
tails (r ∷ rs) = if r.dynamic then r.encoded ++ tails rs else tails rs

layout-eq-ok :
    (offset : ℕ) (rs : List EncoderResult) (p : List ℕ × List ℕ)
    → layout offset rs ≡ ok p
    → (p ≡ (heads offset rs, tails rs)) × (length (heads offset rs) ≡ static_size rs)
unfolding layout heads tails static_size
layout-eq-ok offset [] p e = (sym (ok-injective e), refl)
layout-eq-ok offset (r ∷ rs) p e = elim (Bool-cases r.dynamic) [
  | inl dyn ↦
      let e₀ = rw dyn at e in
      let (head, is_head, e₁) = >>=-eq-ok _ _ e₀ in
      let (q, is_rest, e₂) = >>=-eq-ok _ _ e₁ in
      let (word_head, small) = encode_number-nat (uint 256) offset head is_head in
      let (same, size) = layout-eq-ok (offset + length r.encoded) rs q is_rest in
      rw dyn (
        sym (ok-injective e₂)
            ∙ (λ i. ((word_head i).encoded ++ (same i).0, r.encoded ++ (same i).1)),
        omega (
          arith,
          length-append (word offset) (heads (offset + length r.encoded) rs),
          length-word offset small,
          size,
        ),
      )
  | inr stat ↦
      let e₀ = rw stat at e in
      let (q, is_rest, e₁) = >>=-eq-ok _ _ e₀ in
      let (same, size) = layout-eq-ok offset rs q is_rest in
      rw stat (
        sym (ok-injective e₁) ∙ (λ i. (r.encoded ++ (same i).0, (same i).1)),
        omega (arith, length-append r.encoded (heads offset rs), size),
      )
]

-- `encodeDynamicParams` writes the heads, which end where the first tail begins, and the tails.
pub encode_dynamic_params-eq-ok :
    (rs : List EncoderResult) (body : List ℕ)
    → encode_dynamic_params rs ≡ ok body
    → (body ≡ heads (static_size rs) rs ++ tails rs)
      × (length (heads (static_size rs) rs) ≡ static_size rs)
unfolding encode_dynamic_params
encode_dynamic_params-eq-ok rs body e =
    let (q, is_layout, e₁) = >>=-eq-ok _ _ e in
    let (same, size) = layout-eq-ok (static_size rs) rs q is_layout in
    (sym (ok-injective e₁) ∙ (λ i. (same i).0 ++ (same i).1), size)

pub length-concat-le :
    (rs : List EncoderResult) → length (concat_encoded rs) ≤ static_size rs + length (tails rs)
unfolding concat_encoded static_size tails
length-concat-le [] = omega arith
length-concat-le (r ∷ rs) = elim (Bool-cases r.dynamic) [
  | inl dyn ↦ rw dyn (
      omega (
        arith,
        length-append r.encoded (concat_encoded rs),
        length-append r.encoded (tails rs),
        length-concat-le rs,
      ))
  | inr stat ↦
      rw stat (omega (arith, length-append r.encoded (concat_encoded rs), length-concat-le rs))
]

-- Without dynamic parameters the layout is the encodings, one after the other.
pub static_layout :
    (offset : ℕ) (rs : List EncoderResult)
    → some_dynamic rs ≡ false
    → (heads offset rs ≡ concat_encoded rs)
      × (tails rs ≡ [])
      × (static_size rs ≡ length (concat_encoded rs))
unfolding heads tails concat_encoded static_size
static_layout offset [] h = (refl, refl, refl)
static_layout offset (r ∷ rs) h =
    let stat : r.dynamic ≡ false = ground arith in
    let (same, none_left, size) = static_layout offset rs (ground arith) in
    rw stat (
      ap (λ t. r.encoded ++ t) same,
      none_left,
      omega (arith, length-append r.encoded (concat_encoded rs), size),
    )

-- The decoder reads `v` off the encoding `r`, whatever follows it, and says how long it is; `left`
-- is what it hands back of the bytes that follow.
abbrev pub Reads : Decoder → (List ℕ → List ℕ) → EncoderResult → JsValue → Type 0
Reads decode_item left r v =
    (rest : List ℕ)
    → decode_item (r.encoded ++ rest)
      ≡ ok (record { result = v; encoded = left rest; consumed = length r.encoded })

abbrev pub ReadAll : Decoder → (List ℕ → List ℕ) → List EncoderResult → List JsValue → Type 0
ReadAll decode_item left [] [] = Unit {0}
ReadAll decode_item left [] (v ∷ vs) = ⊥
ReadAll decode_item left (r ∷ rs) [] = ⊥
ReadAll decode_item left (r ∷ rs) (v ∷ vs) =
    Reads decode_item left r v × ReadAll decode_item left rs vs

suc_add : (m n : ℕ) → suc (m + n) ≡ suc m + n
suc_add m n = omega arith

drop-nil : (n : ℕ) → drop {A = ℕ} n [] ≡ []
drop-nil zero = refl
drop-nil (suc n) = refl

drop-drop : (m n : ℕ) (xs : List ℕ) → drop n (drop m xs) ≡ drop (m + n) xs
drop-drop zero n xs = ap (λ k. drop k xs) (omega arith)
drop-drop (suc m) n [] = drop-nil n ∙ sym (drop-nil (suc m + n))
drop-drop (suc m) n (x ∷ xs) = drop-drop m n xs ∙ ap (λ k. drop k (x ∷ xs)) (suc_add m n)

-- Step over what has been read.
pub drop_past :
    (at_ : ℕ) (octets front rest : List ℕ)
    → drop at_ octets ≡ front ++ rest
    → drop (at_ + length front) octets ≡ rest
drop_past at_ octets front rest e =
    sym (drop-drop at_ (length front) octets) ∙ ap (drop (length front)) e ∙ drop-append front rest

pub decode_in_sequence-ReadAll :
    (dec : Decoder) (left : List ℕ → List ℕ) (rs : List EncoderResult) (vs : List JsValue)
    (octets : List ℕ) (consumed : ℕ) (rest : List ℕ)
    → ReadAll dec left rs vs
    → drop consumed octets ≡ concat_encoded rs ++ rest
    → decode_in_sequence dec (length rs) octets consumed
      ≡ ok (vs, consumed + length (concat_encoded rs))
unfolding decode_in_sequence concat_encoded
decode_in_sequence-ReadAll dec left [] [] octets consumed rest h e =
    ap (λ k. ok ([], k)) (omega arith)
decode_in_sequence-ReadAll dec left [] (v ∷ vs) octets consumed rest h e = absurd h
decode_in_sequence-ReadAll dec left (r ∷ rs) [] octets consumed rest h e = absurd h
decode_in_sequence-ReadAll dec left (r ∷ rs) (v ∷ vs) octets consumed rest (reads, h) e =
    let here : drop consumed octets ≡ r.encoded ++ (concat_encoded rs ++ rest) =
      e ∙ append_assoc r.encoded (concat_encoded rs) rest in
    let later =
      decode_in_sequence-ReadAll dec left rs vs octets (consumed + length r.encoded) rest h
        (drop_past consumed octets r.encoded _ here) in
    rw (here, reads (concat_encoded rs ++ rest))
      (rw later
        (ap (λ k. ok (v ∷ vs, k)) (omega (arith, length-append r.encoded (concat_encoded rs)))))

-- A decoder that stands at the head of a dynamic parameter: the head names the place of its data,
-- and the next parameter's head and data follow.
pub record AtHead (at_head offset : ℕ) (octets more rest : List ℕ) (r : EncoderResult)
    (rs : List EncoderResult) : Type 0 where
  pub head : drop at_head octets ≡ word offset ++ (heads (offset + length r.encoded) rs ++ more)
  pub body : drop offset octets ≡ r.encoded ++ (tails rs ++ rest)
  pub next_head : drop (at_head + 32) octets ≡ heads (offset + length r.encoded) rs ++ more
  pub next_body : drop (offset + length r.encoded) octets ≡ tails rs ++ rest
  pub size : length (tails (r ∷ rs)) ≡ length r.encoded + length (tails rs)

pub at_dynamic :
    (at_head offset : ℕ) (octets more rest : List ℕ) (r : EncoderResult) (rs : List EncoderResult)
    → r.dynamic ≡ true
    → offset < 0x1_0000_0000
    → drop at_head octets ≡ heads offset (r ∷ rs) ++ more
    → drop offset octets ≡ tails (r ∷ rs) ++ rest
    → AtHead at_head offset octets more rest r rs
unfolding heads tails
at_dynamic at_head offset octets more rest r rs dyn small eh eb =
    let head : drop at_head octets ≡ word offset ++ (heads (offset + length r.encoded) rs ++ more) =
      rw dyn at eh ∙ append_assoc (word offset) (heads (offset + length r.encoded) rs) more in
    let body : drop offset octets ≡ r.encoded ++ (tails rs ++ rest) =
      rw dyn at eb ∙ append_assoc r.encoded (tails rs) rest in
    record {
      head = head;
      body = body;
      next_head =
          ap (λ n. drop (at_head + n) octets) (sym (length-word offset (omega arith)))
          ∙ drop_past at_head octets (word offset) _ head;
      next_body = drop_past offset octets r.encoded _ body;
      size = rw dyn (length-append r.encoded (tails rs));
    }

-- The same at the head of a static parameter, which is its data.
pub record AtStatic (at_head offset : ℕ) (octets more rest : List ℕ) (r : EncoderResult)
    (rs : List EncoderResult) : Type 0 where
  pub here : drop at_head octets ≡ r.encoded ++ (heads offset rs ++ more)
  pub next_head : drop (at_head + length r.encoded) octets ≡ heads offset rs ++ more
  pub next_body : drop offset octets ≡ tails rs ++ rest
  pub size : length (tails (r ∷ rs)) ≡ length (tails rs)

pub at_static :
    (at_head offset : ℕ) (octets more rest : List ℕ) (r : EncoderResult) (rs : List EncoderResult)
    → r.dynamic ≡ false
    → drop at_head octets ≡ heads offset (r ∷ rs) ++ more
    → drop offset octets ≡ tails (r ∷ rs) ++ rest
    → AtStatic at_head offset octets more rest r rs
unfolding heads tails
at_static at_head offset octets more rest r rs stat eh eb =
    let here : drop at_head octets ≡ r.encoded ++ (heads offset rs ++ more) =
      rw stat at eh ∙ append_assoc r.encoded (heads offset rs) more in
    record {
      here = here;
      next_head = drop_past at_head octets r.encoded _ here;
      next_body = rw stat at eb;
      size = rw stat;
    }

pub length-tails_nil : length (tails []) ≡ 0
unfolding tails
length-tails_nil = refl

-- The loop over items behind offsets finds each item at the offset that its head names.
pub decode_by_offset-ReadAll :
    (dec : Decoder) (left : List ℕ → List ℕ) (rs : List EncoderResult) (vs : List JsValue)
    (i offset : ℕ) (remaining : List ℕ) (consumed : ℕ) (more rest : List ℕ)
    → ReadAll dec left rs vs
    → All (λ r. r.dynamic ≡ true) rs
    → drop (i * 32) remaining ≡ heads offset rs ++ more
    → drop offset remaining ≡ tails rs ++ rest
    → offset + length (tails rs) < 0x1_0000_0000
    → decode_by_offset dec (length rs) i remaining consumed
      ≡ ok (vs, consumed + 32 * length rs + length (tails rs))
unfolding decode_by_offset
decode_by_offset-ReadAll dec left [] [] i offset remaining consumed more rest h dyn at_head at_tail
      small =
    ap (λ k. ok ([], k)) (omega (arith, length-tails_nil))
decode_by_offset-ReadAll dec left [] (v ∷ vs) i offset remaining consumed more rest h dyn at_head
      at_tail small =
    absurd h
decode_by_offset-ReadAll dec left (r ∷ rs) [] i offset remaining consumed more rest h dyn at_head
      at_tail small =
    absurd h
decode_by_offset-ReadAll dec left (r ∷ rs) (v ∷ vs) i offset remaining consumed more rest (reads, h)
      (dyn, dyns) at_head at_tail small =
    let at_ =
      at_dynamic (i * 32) offset remaining more rest r rs dyn (omega arith) at_head at_tail in
    let later =
      decode_by_offset-ReadAll dec left rs vs (i + 1) (offset + length r.encoded) remaining
        (consumed + 32 + length r.encoded) more rest h dyns
        (ap (λ n. drop n remaining) (omega arith) ∙ at_.next_head) at_.next_body
        (omega (arith, at_.size)) in
    rw
      (
        at_.head,
        decode_number-word offset _ (omega arith),
        at_.body,
        reads (tails rs ++ rest),
        later,
      )
      (ap (λ k. ok (v ∷ vs, k)) (omega (arith, at_.size)))
