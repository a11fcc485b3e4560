-- ===== src/Abi/Bytes/RoundTrip.antt =====
-- Booleans, bytes and strings through their encoders and back.
use electroneum_web3_js.Base.{
  ℕ, zero, suc, ◌+◌, ◌-◌, ◌*◌, ◌≤◌, ◌≡◌, sym, ap, ◌∙◌, List, [], ◌∷◌, ◌++◌, append_assoc, subst,
  Bool, true, false, none, some, Result, ok, >>=-eq-ok, throw_if-eq-ok, or_throw, or_throw-eq-ok,
  ◌≢◌, ok-injective, length, length-append, length-replicate, replicate, take, drop, take-append,
  drop-append, drop-append_more, arith, le→ltb,
}
use electroneum_web3_js.Base.Int.{pos}
use electroneum_web3_js.Js.{JsValue, to_bool, to_bytes, to_big_int}
use electroneum_web3_js.Abi.{
  Error, EncoderResult, DecoderResult, bad_bytes_type, not_bytes, bytes_too_long,
}
use electroneum_web3_js.Abi.Number.{encode_number, uint}
use electroneum_web3_js.Abi.Number.RoundTrip.{decode_number-encode_big_int}
use electroneum_web3_js.Abi.Bytes.{
  alloc, set_bytes, number_of, encode_boolean, decode_bool, even_length, parts, encode_bytes,
  decode_bytes, cut_bytes, decode_dynamic_bytes,
}

-- A value read back from its encoding, whatever follows, with the bytes that follow left over.
abbrev pub ReadsBack {ℓ} :
    {A : Type ℓ} → (List ℕ → Result Error (DecoderResult A)) → EncoderResult → A → Type ℓ
ReadsBack decode r v =
    (rest : List ℕ)
    → decode (r.encoded ++ rest)
      ≡ ok (record { result = v; encoded = rest; consumed = length r.encoded })

bool_word :
    (b : Bool) (r : EncoderResult)
    → encode_number (uint 8) (number_of b) ≡ ok r
    → (r.dynamic ≡ false) × ReadsBack decode_bool r b
unfolding encode_number to_big_int decode_bool
bool_word true r e =
    let (_, dyn, size) = decode_number-encode_big_int (uint 8) (pos 1) r [] e in
    (dyn, λ rest. rw ((decode_number-encode_big_int (uint 8) (pos 1) r rest e).0, size))
bool_word false r e =
    let (_, dyn, size) = decode_number-encode_big_int (uint 8) (pos 0) r [] e in
    (dyn, λ rest. rw ((decode_number-encode_big_int (uint 8) (pos 0) r rest e).0, size))

-- What `encodeBoolean` accepts, `decodeBool` reads back.
pub decode_bool-encode_boolean :
    (input : JsValue) (r : EncoderResult)
    → encode_boolean input ≡ ok r
    → (b : Bool) × (to_bool input ≡ some b) × (r.dynamic ≡ false) × ReadsBack decode_bool r b
unfolding encode_boolean
decode_bool-encode_boolean input r e =
    let (b, is_bool, e₁) = >>=-eq-ok _ _ e in
    let (dyn, reads) = bool_word b r e₁ in (b, or_throw-eq-ok _ _ is_bool, dyn, reads)

zeros_eq : (m n : ℕ) → m ≡ n → replicate {A = ℕ} m 0 ≡ replicate n 0
zeros_eq m n e = ap (λ k. replicate k 0) e

drop-replicate : (m n : ℕ) → drop {A = ℕ} m (replicate n 0) ≡ replicate (n - m) 0
drop-replicate zero n = zeros_eq n (n - 0) (omega arith)
drop-replicate (suc m) zero = zeros_eq 0 (0 - suc m) (omega arith)
drop-replicate (suc m) (suc n) = drop-replicate m n ∙ zeros_eq (n - m) (suc n - suc m) (omega arith)

zeros_add : (m n : ℕ) → replicate {A = ℕ} (m + n) 0 ≡ replicate m 0 ++ replicate n 0
zeros_add zero n = zeros_eq (0 + n) n (omega arith)
zeros_add (suc m) n =
    zeros_eq (suc m + n) (suc (m + n)) (omega arith) ∙ ap (λ t. 0 ∷ t) (zeros_add m n)

-- Bytes written to the front of an empty buffer, and behind a word.
pub set_front : (m : ℕ) (bs : List ℕ) → set_bytes (alloc m) bs 0 ≡ bs ++ replicate (m - length bs) 0
unfolding set_bytes
set_front m bs =
    ap (λ t. bs ++ t)
      (drop-replicate (0 + length bs) m
        ∙ zeros_eq (m - (0 + length bs)) (m - length bs) (omega arith))

set_past :
    (m : ℕ) (w bs : List ℕ)
    → length w ≡ 32
    → set_bytes (w ++ replicate (32 + m - 32) 0) bs 32 ≡ w ++ (bs ++ replicate (m - length bs) 0)
unfolding set_bytes
set_past m w bs e =
    let zeros = replicate (32 + m - 32) 0 in
    let front : take 32 (w ++ zeros) ≡ w =
      ap (λ k. take k (w ++ zeros)) (sym e) ∙ take-append w zeros in
    let back : drop (32 + length bs) (w ++ zeros) ≡ replicate (m - length bs) 0 =
      ap (λ k. drop (k + length bs) (w ++ zeros)) (sym e)
      ∙ drop-append_more w zeros (length bs)
      ∙ drop-replicate (length bs) (32 + m - 32)
      ∙ zeros_eq (32 + m - 32 - length bs) (m - length bs) (omega arith) in
    rw (front, back)

set_behind :
    (m : ℕ) (w bs : List ℕ)
    → length w ≡ 32
    → set_bytes (set_bytes (alloc (32 + m)) w 0) bs 32 ≡ w ++ (bs ++ replicate (m - length bs) 0)
set_behind m w bs e =
    rw (set_front (32 + m) w)
      (ap (λ n. set_bytes (w ++ replicate (32 + m - n) 0) bs 32) e ∙ set_past m w bs e)

-- A size and the data behind it.
cut_bytes_lem :
    (bs pad rest : List ℕ) (count consumed available : ℕ)
    → length bs + length pad ≡ count * 32
    → length bs ≤ available
    → cut_bytes (length bs) (bs ++ (pad ++ rest)) count consumed available
      ≡ ok (record { result = bs; encoded = rest; consumed = consumed + count * 32 })
unfolding cut_bytes
cut_bytes_lem bs pad rest count consumed available size enough =
    let back : drop (count * 32) (bs ++ (pad ++ rest)) ≡ rest =
      ap (λ n. drop n (bs ++ (pad ++ rest))) (sym size)
      ∙ drop-append_more bs (pad ++ rest) (length pad)
      ∙ drop-append pad rest in
    rw (le→ltb available (length bs) enough, take-append bs (pad ++ rest), back)

dynamic_bytes :
    (bs : List ℕ) (size : EncoderResult)
    → encode_number (uint 32) (JsValue.number (pos (length bs))) ≡ ok size
    → ReadsBack
        (decode_bytes none)
        (record {
          dynamic = true;
          encoded =
              set_bytes (set_bytes (alloc (32 + parts (length bs) * 32)) size.encoded 0) bs 32;
        })
        bs
unfolding encode_number to_big_int decode_bytes decode_dynamic_bytes
dynamic_bytes bs size e rest =
    let (_, _, width) = decode_number-encode_big_int (uint 32) (pos (length bs)) size [] e in
    let pad = replicate (parts (length bs) * 32 - length bs) 0 in
    let padded : length pad ≡ parts (length bs) * 32 - length bs = length-replicate _ 0 in
    let total : length (size.encoded ++ (bs ++ pad)) ≡ 32 + parts (length bs) * 32 =
      omega (arith, length-append size.encoded (bs ++ pad), length-append bs pad) in
    rw
      (
        set_behind (parts (length bs) * 32) size.encoded bs width,
        append_assoc size.encoded (bs ++ pad) rest,
        append_assoc bs pad rest,
      )
      (rw
        (
          (decode_number-encode_big_int (uint 32) (pos (length bs)) size (bs ++ (pad ++ rest)) e).0,
          total,
        )
        (cut_bytes_lem bs pad rest (parts (length bs)) 32 _ (omega arith) (
          omega (
            arith,
            length-append size.encoded (bs ++ (pad ++ rest)),
            length-append bs (pad ++ rest),
          ))))

sized_form :
    (n : ℕ) (bs : List ℕ)
    → length bs ≤ n
    → n ≤ 32
    → set_bytes (alloc 32) bs 0 ≡ (bs ++ replicate (n - length bs) 0) ++ replicate (32 - n) 0
sized_form n bs short wide =
    set_front 32 bs
    ∙ ap (λ t. bs ++ t)
        (zeros_eq (32 - length bs) (n - length bs + (32 - n)) (omega arith)
          ∙ zeros_add (n - length bs) (32 - n))
    ∙ sym (append_assoc bs (replicate (n - length bs) 0) (replicate (32 - n) 0))

read_sized :
    (n : ℕ) (front pad : List ℕ)
    → length front ≡ suc n
    → length pad ≡ 32 - suc n
    → suc n ≤ 32
    → ReadsBack
        (decode_bytes (some (suc n)))
        (record { dynamic = false; encoded = front ++ pad })
        front
unfolding decode_bytes
read_sized n front pad e e' wide rest =
    let total : length (front ++ pad) ≡ 32 = omega (arith, length-append front pad) in
    rw (append_assoc front pad rest, ← e, total)
      (cut_bytes_lem front pad rest 1 0 _ (omega arith)
        (omega (arith, length-append front (pad ++ rest))))

sized_bytes :
    (n : ℕ) (bs : List ℕ)
    → length bs ≤ suc n
    → suc n ≤ 32
    → ReadsBack
        (decode_bytes (some (suc n)))
        (record { dynamic = false; encoded = set_bytes (alloc 32) bs 0 })
        (bs ++ replicate (suc n - length bs) 0)
sized_bytes n bs short wide =
    subst
      (λ t.
        ReadsBack (decode_bytes (some (suc n))) (record { dynamic = false; encoded = t })
          (bs ++ replicate (suc n - length bs) 0))
      (sym (sized_form (suc n) bs short wide))
      (read_sized n (bs ++ replicate (suc n - length bs) 0) (replicate (32 - suc n) 0)
        (omega (
          arith,
          length-append bs (replicate (suc n - length bs) 0),
          length-replicate {A = ℕ} (suc n - length bs) 0,
        ))
        (length-replicate {A = ℕ} (32 - suc n) 0) wide)

-- `encodeBytes` for the type `bytes`: the data comes back unchanged.
pub decode_bytes-encode_bytes :
    (input : JsValue) (r : EncoderResult)
    → encode_bytes none input ≡ ok r
    → (bs : List ℕ) × (to_bytes (even_length input) ≡ some bs)
      × (r.dynamic ≡ true)
      × ReadsBack (decode_bytes none) r bs
unfolding encode_bytes
decode_bytes-encode_bytes input r e =
    let (bs, are_bytes, e₁) = >>=-eq-ok _ _ e in
    let (size, is_size, e₂) =
      >>=-eq-ok (encode_number (uint 32) (JsValue.number (pos (length bs)))) _ e₁ in
    let same = ok-injective e₂ in
    (
      bs,
      or_throw-eq-ok _ _ are_bytes,
      sym (ap (λ s. s.dynamic) same),
      subst (λ s. ReadsBack (decode_bytes none) s bs) same (dynamic_bytes bs size is_size),
    )

-- `encodeBytes` for a type `bytes<n>`: the data comes back filled up with zeros to `n` bytes.
pub decode_bytes-encode_bytes_sized :
    (n : ℕ) (input : JsValue) (r : EncoderResult)
    → encode_bytes (some (suc n)) input ≡ ok r
    → (bs : List ℕ) × (to_bytes (even_length input) ≡ some bs)
      × (length bs ≤ suc n)
      × (r.dynamic ≡ false)
      × ReadsBack (decode_bytes (some (suc n))) r (bs ++ replicate (suc n - length bs) 0)
unfolding encode_bytes
decode_bytes-encode_bytes_sized n input r e =
    let (bs, are_bytes, e₁) = >>=-eq-ok _ _ e in
    let (width, e₂) = throw_if-eq-ok _ bad_bytes_type _ e₁ in
    let (short, e₃) = throw_if-eq-ok _ bytes_too_long _ e₂ in
    let same = ok-injective e₃ in
    let le : length bs ≤ suc n = ground arith in
    (
      bs,
      or_throw-eq-ok _ _ are_bytes,
      le,
      sym (ap (λ s. s.dynamic) same),
      subst (λ s. ReadsBack (decode_bytes (some (suc n))) s (bs ++ replicate (suc n - length bs) 0))
          same (sized_bytes n bs le (ground arith)),
    )

-- There is no `bytes0`.
pub encode_bytes-zero :
    (input : JsValue) (r : EncoderResult) → encode_bytes (some zero) input ≢ ok r
unfolding encode_bytes
encode_bytes-zero input r e =
    let (bs, _, e₁) = >>=-eq-ok (or_throw (to_bytes (even_length input)) not_bytes) _ e in cc e₁
