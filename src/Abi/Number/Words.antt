-- ===== src/Abi/Number/Words.antt =====
-- A number as a word of 32 bytes.
use electroneum_web3_js.Base.{
  map-replicate, ℕ, suc, ◌-◌, ◌*◌, ◌^◌, ◌<◌, ◌≡◌, refl, ◌∙◌, sym, ap, [], ◌∷◌, ◌++◌, map, true,
  false, some, arith, All, All-append, All-replicate, length, length-map, pad_start,
  length-pad_start, ◌==◌, ==_iff, ◌%◌, List,
}
use mathlib.Core.List.{map-append}
use electroneum_web3_js.Base.Int.{pos, negsuc}
use electroneum_web3_js.Digits.{
  digits, digits-All, length-digits, value, value-digits, value-pad_start,
}
use electroneum_web3_js.Text.{
  lit, starts_with, has_0x, digit_char, to_string, is_hex_strict, pad_left, hex_to_uint8_array,
}
use electroneum_web3_js.Text.Hex.{
  IsByte, pairs, parse_pairs-map, length-pairs, pairs-All, value-pairs,
}
use electroneum_web3_js.Abi.Number.{big_int_to_uint8_array}

-- The 32 bytes of `n`, most significant first.
unfoldable pub word : ℕ → List ℕ
word n = pairs (pad_start 64 0 (digits 16 n))

-- A run of digits has no sign and no prefix.
no_prefix :
    (ds : List ℕ)
    → All (λ d. d < 16) ds
    → (has_0x (map digit_char ds) ≡ false) × (starts_with (lit "-") (map digit_char ds) ≡ false)
unfolding digit_char
no_prefix [] h = (refl, refl)
no_prefix (c ∷ []) h = ground arith
no_prefix (c ∷ d ∷ ds) (hc, (hd, h)) = ground arith

is_hex_strict-digits :
    (ds : List ℕ) → All (λ d. d < 16) ds → is_hex_strict (map digit_char ds) ≡ false
unfolding is_hex_strict
is_hex_strict-digits ds h = let (x, m) = no_prefix ds h in rw m (rw x)

pad_left-digits :
    (k : ℕ) (ds : List ℕ)
    → All (λ d. d < 16) ds
    → pad_left (map digit_char ds) k ≡ map digit_char (pad_start k 0 ds)
unfolding pad_left digit_char
pad_left-digits k ds h = rw (is_hex_strict-digits ds h) (
    rw (length-map digit_char ds) (
      sym (
        map-append digit_char _ ds
        ∙ ap (λ z. z ++ map digit_char ds) (map-replicate digit_char _ 0))))

padded-All : (k : ℕ) (ds : List ℕ) → All (λ d. d < 16) ds → All (λ d. d < 16) (pad_start k 0 ds)
padded-All k ds h = All-append _ _ ds (All-replicate _ (k - length ds) 0 (omega arith)) h

word_nibbles : ℕ → List ℕ
word_nibbles n = pad_start 64 0 (digits 16 n)

word_nibbles-All : (n : ℕ) → All (λ d. d < 16) (word_nibbles n)
unfolding word_nibbles
word_nibbles-All n = padded-All 64 (digits 16 n) (digits-All 16 n (omega arith))

length-word_nibbles : (n : ℕ) → n < 2 ^ 256 → length (word_nibbles n) ≡ 64
unfolding word_nibbles
length-word_nibbles n h =
    length-pad_start 64 0 (digits 16 n) (length-digits 63 16 n (omega arith) (omega arith))

-- The word of a number that fits has 32 bytes, which stand for the number.
pub length-word : (n : ℕ) → n < 2 ^ 256 → length (word n) ≡ 32
unfolding word word_nibbles
length-word n h = length-pairs 32 _ (length-word_nibbles n h)

pub word-All : (n : ℕ) → All IsByte (word n)
unfolding word word_nibbles
word-All n = pairs-All _ (word_nibbles-All n)

pub value-word : (n : ℕ) → n < 2 ^ 256 → value 256 (word n) ≡ n
unfolding word word_nibbles
value-word n h =
    value-pairs 32 _ (length-word_nibbles n h)
    ∙ value-pad_start 16 64 (digits 16 n)
    ∙ value-digits 16 n (omega arith)

hex_to_uint8_array-map :
    (k : ℕ) (ds : List ℕ)
    → All (λ d. d < 16) ds
    → length ds ≡ 2 * k
    → hex_to_uint8_array (map digit_char ds) ≡ some (pairs ds)
unfolding hex_to_uint8_array
hex_to_uint8_array-map k ds h e =
    let x = (no_prefix ds h).0 in
    let even : (length ds % 2 == 0) ≡ true = (==_iff _ 0).1 (omega arith) in
    rw x (rw (length-map digit_char ds) (rw even (rw (parse_pairs-map ds h))))

-- `hexToUint8Array(padLeft(n.toString(16), 64))` are the 32 bytes of `n`.
pub to_word :
    (n : ℕ) → n < 2 ^ 256 → hex_to_uint8_array (pad_left (to_string 16 n) 64) ≡ some (word n)
unfolding to_string word word_nibbles
to_word n h =
    rw (pad_left-digits 64 (digits 16 n) (digits-All 16 n (omega arith)))
      (hex_to_uint8_array-map 32 _ (word_nibbles-All n) (length-word_nibbles n h))

pub big_int_to_uint8_array-pos :
    (n : ℕ) → n < 2 ^ 256 → big_int_to_uint8_array (pos n) ≡ some (word n)
unfolding big_int_to_uint8_array
big_int_to_uint8_array-pos n h = to_word n h

pub big_int_to_uint8_array-negsuc :
    (n : ℕ) → n < 2 ^ 256 → big_int_to_uint8_array (negsuc n) ≡ some (word (2 ^ 256 - suc n))
unfolding big_int_to_uint8_array
big_int_to_uint8_array-negsuc n h = to_word _ (omega arith)
