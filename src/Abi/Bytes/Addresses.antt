-- ===== src/Abi/Bytes/Addresses.antt =====
-- Strings and addresses through their encoders and back.
use electroneum_web3_js.Base.{
  ℕ, ◌+◌, ◌-◌, ◌<◌, ◌≡◌, refl, sym, ap, ◌∙◌, List, [], ◌∷◌, ◌++◌, map, append-nil, Bool, true,
  subst, false, not, some, Bool-cases, inl, inr, ok, >>=-eq-ok, throw_if-eq-ok, or_throw,
  or_throw-eq-ok, ◌%◌, ok-injective, if◌then◌else◌, length, length-map, ==_iff, replicate, take,
  drop, take-append, drop-append, All, all, arith, ◌==◌, leb,
}
use mathlib.Core.Path.{ap₂}
use mathlib.Core.Bool.{and-eq-true_iff}
use electroneum_web3_js.Text.{
  Text, lit, lower, digit_char, is_hex_digit, starts_with, hex_to_uint8_array,
  uint8_array_to_hex_string,
}
use electroneum_web3_js.Text.Hex.{
  pairs, nibbles-pairs, bytes_hex-nibbles, pairs-All, length-pairs, parse_pairs-map,
}
use electroneum_web3_js.Js.{JsValue, to_bytes}
use electroneum_web3_js.Js.HexBytes.{to_bytes-hex_string}
use electroneum_web3_js.Address.{
  Host, is_address, has_address_shape, to_checksum_address, checksum_form,
}
use electroneum_web3_js.Abi.{EncoderResult, not_an_address, odd_hex}
use electroneum_web3_js.Abi.Bytes.{
  alloc, set_bytes, even_length, prefix_0x, encode_string, decode_string, encode_address,
  encode_normalized, decode_address,
}
use electroneum_web3_js.Abi.Bytes.RoundTrip.{decode_bytes-encode_bytes, ReadsBack}

given_bytes : (bs : List ℕ) → to_bytes (even_length (JsValue.uint8_array bs)) ≡ some bs
unfolding to_bytes even_length
given_bytes bs = refl

-- The string that comes back is the text whose UTF-8 encoding was written.
pub decode_string-encode_string :
    (host : Host) (t : Text) (r : EncoderResult)
    → encode_string host (JsValue.text t) ≡ ok r
    → (r.dynamic ≡ true)
      × ReadsBack (decode_string host) r (host.bytes_to_utf8 (host.utf8_to_bytes t))
unfolding encode_string decode_string
decode_string-encode_string host t r e =
    let (bs, same, dyn, reads) = decode_bytes-encode_bytes _ r e in
    let bytes : bs ≡ host.utf8_to_bytes t = cc (same, given_bytes (host.utf8_to_bytes t)) in
    let back = to_bytes-hex_string (host.utf8_to_bytes t) (host.utf8_to_bytes-All t) in
    (dyn, λ rest. rw (reads rest, bytes, back))

-- Lower case hexadecimal text as digits.
hex_digit-lower :
    (c : ℕ) → is_hex_digit (lower c) ≡ true → (d : ℕ) × (lower c ≡ digit_char d) × (d < 16)
unfolding is_hex_digit lower digit_char
hex_digit-lower c h =
    (if leb (lower c) b'9' then lower c - 48 else lower c - 87, ground arith, ground arith)

digits_of :
    (t : Text)
    → all is_hex_digit (map lower t) ≡ true
    → (ds : List ℕ) × (map lower t ≡ map digit_char ds) × All (λ d. d < 16) ds
digits_of [] h = ([], refl, tt)
digits_of (c ∷ t) h =
    let (here, later) = (and-eq-true_iff _ _).0 h in
    let (d, same, small) = hex_digit-lower c here in
    let (ds, sames, smalls) = digits_of t later in (d ∷ ds, ap₂ ◌∷◌ same sames, (small, smalls))

prefix_one : (c : ℕ) → prefix_0x (map lower (c ∷ [])) ≡ lit "0x" ++ map lower (c ∷ [])
prefix_one c = ground arith

prefix_form : (t : Text) → (u : Text) × (prefix_0x (map lower t) ≡ lit "0x" ++ map lower u)
prefix_form [] = ([], refl)
prefix_form (c ∷ []) = (c ∷ [], prefix_one c)
prefix_form (c ∷ d ∷ t) = elim (Bool-cases (starts_with (lit "0x") (map lower (c ∷ d ∷ t)))) [
  | inl has ↦ (t, ground arith)
  | inr lacks ↦ (c ∷ d ∷ t, rw lacks)
]

-- What `encodeAddress` accepted, with `0x` in front and in lower case: 40 hexadecimal digits.
record Digits (a : Text) : Type 0 where
  ds : List ℕ
  same : a ≡ lit "0x" ++ map digit_char ds
  small : All (λ d. d < 16) ds
  forty : length ds ≡ 40

shape :
    (host : Host) (u : Text) (check : Bool)
    → is_address host (lit "0x" ++ map lower u) check ≡ true
    → has_address_shape (lit "0x" ++ map lower u) ≡ true
unfolding is_address
shape host u check h = ground arith

shape-is_address :
    (host : Host) (u : Text)
    → has_address_shape (lit "0x" ++ u) ≡ true
    → is_address host (lit "0x" ++ u) false ≡ true
unfolding is_address
shape-is_address host u h = ground arith

shape_is_hex :
    (u : Text)
    → has_address_shape (lit "0x" ++ map lower u) ≡ true
    → Digits (lit "0x" ++ map lower u)
unfolding has_address_shape
shape_is_hex u h =
    let (forty, hex) = (and-eq-true_iff _ _).0 h in
    let (ds, same, small) = digits_of u hex in
    record {
      ds = ds;
      same = ap (λ t. lit "0x" ++ t) same;
      small = small;
      forty = sym (length-map digit_char ds) ∙ ap length (sym same) ∙ (==_iff _ 40).0 forty;
    }

some-inj : {a b : List ℕ} → some a ≡ some b → a ≡ b
some-inj h = cc

address_word : (bs : List ℕ) → length bs ≡ 20 → set_bytes (alloc 32) bs 12 ≡ replicate 12 0 ++ bs
unfolding set_bytes
address_word bs e =
    let rest : drop (12 + length bs) (alloc 32) ≡ [] = ap (λ n. drop (12 + n) (alloc 32)) e in
    ap (λ t. replicate 12 0 ++ (bs ++ t)) rest ∙ ap (λ t. replicate 12 0 ++ t) (append-nil bs)

read_address :
    (host : Host) (bs : List ℕ) (s : Text)
    → length bs ≡ 20
    → to_checksum_address host (uint8_array_to_hex_string bs) ≡ some s
    → ReadsBack (decode_address host) (record { dynamic = false; encoded = replicate 12 0 ++ bs }) s
unfolding decode_address
read_address host bs s e is_s rest =
    let front : take 20 (bs ++ rest) ≡ bs =
      ap (λ k. take k (bs ++ rest)) (sym e) ∙ take-append bs rest in
    let back : drop 20 (bs ++ rest) ≡ rest =
      ap (λ k. drop k (bs ++ rest)) (sym e) ∙ drop-append bs rest in
    rw (front, back, e, is_s)

hex_prefixed :
    (ds : List ℕ)
    → All (λ d. d < 16) ds
    → length ds ≡ 40
    → hex_to_uint8_array (lit "0x" ++ map digit_char ds) ≡ some (pairs ds)
unfolding hex_to_uint8_array
hex_prefixed ds small e =
    let even : (length (map digit_char ds) % 2 == 0) ≡ true =
      (==_iff _ 0).1 (omega (arith, length-map digit_char ds)) in
    rw (even, parse_pairs-map ds small)

hex_back :
    (ds : List ℕ)
    → All (λ d. d < 16) ds
    → length ds ≡ 40
    → uint8_array_to_hex_string (pairs ds) ≡ lit "0x" ++ map digit_char ds
unfolding uint8_array_to_hex_string
hex_back ds small e =
    ap (λ t. lit "0x" ++ t)
      (bytes_hex-nibbles (pairs ds) (pairs-All ds small)
        ∙ ap (map digit_char) (nibbles-pairs 20 ds small e))

checksum_some :
    (host : Host) (a : Text)
    → is_address host a false ≡ true
    → to_checksum_address host a ≡ some (checksum_form host a)
unfolding to_checksum_address
checksum_some host a h = rw h

module _ (host : Host) where
  normalized :
      (u : Text) (r : EncoderResult)
      → encode_normalized host (lit "0x" ++ map lower u) ≡ ok r
      → (r.dynamic ≡ false)
        × ReadsBack (decode_address host) r (checksum_form host (lit "0x" ++ map lower u))
  unfolding encode_normalized
  normalized u r e =
      let (valid, e₁) =
        throw_if-eq-ok (not (is_address host (lit "0x" ++ map lower u) true)) not_an_address _ e in
      let (bs, are_bytes, e₂) =
        >>=-eq-ok (or_throw (hex_to_uint8_array (lit "0x" ++ map lower u)) odd_hex) _ e₁ in
      let valid_shape = shape host u true (ground arith) in
      let d = shape_is_hex u valid_shape in
      let is_s =
        checksum_some host (lit "0x" ++ map lower u)
          (shape-is_address host (map lower u) valid_shape) in
      let bytes : bs ≡ pairs d.ds = some-inj (
        sym (or_throw-eq-ok _ _ are_bytes)
        ∙ ap hex_to_uint8_array d.same
        ∙ hex_prefixed d.ds d.small d.forty) in
      let twenty : length bs ≡ 20 = ap length bytes ∙ length-pairs 20 d.ds d.forty in
      let form : record { dynamic = false; encoded = replicate 12 0 ++ bs } ≡ r =
        ap (λ t. record { dynamic = false; encoded = t }) (sym (address_word bs twenty))
        ∙ ok-injective e₂ in
      let hex : uint8_array_to_hex_string bs ≡ lit "0x" ++ map lower u =
        ap uint8_array_to_hex_string bytes ∙ hex_back d.ds d.small d.forty ∙ sym d.same in
      (
        sym (ap (λ x. x.dynamic) form),
        subst
            (λ x. ReadsBack (decode_address host) x (checksum_form host (lit "0x" ++ map lower u)))
            form (read_address host bs _ twenty (ap (to_checksum_address host) hex ∙ is_s)),
      )

  -- The address comes back in checksum form, in a word with 12 zeros in front.
  pub decode_address-encode_address :
      (t : Text) (r : EncoderResult)
      → encode_address host (JsValue.text t) ≡ ok r
      → (r.dynamic ≡ false)
        × ReadsBack (decode_address host) r (checksum_form host (prefix_0x (map lower t)))
  unfolding encode_address
  decode_address-encode_address t r e =
      let (u, form) = prefix_form t in rw form (normalized u r (rw form at e))
