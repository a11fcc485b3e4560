-- ===== src/Iban/Validity.antt =====
-- The checksum that `fromBban` writes.
use electroneum_web3_js.Base.{
  ℕ, ◌-◌, ◌/◌, ◌%◌, ◌<◌, ◌≡◌, refl, sym, ap, ◌∙◌, List, [], ◌∷◌, ◌++◌, append_assoc, map, Bool,
  true, ◌&&◌, ◌||◌, some, ok, arith, ◌==◌, length, drop, all, All-append, if◌then◌else◌,
}
use mathlib.Core.List.{map-append}
use mathlib.Core.Path.{ap₂}
use electroneum_web3_js.Base.Int.{pos, ◌-ℤ◌}
use electroneum_web3_js.Digits.{
  digits, digits-All, digits-one, value, value_from, value_from-append,
}
use electroneum_web3_js.Text.{Text, lit, starts_with, text_eq, upper, digit_char, to_string}
use electroneum_web3_js.Text.Hex.{holds_below, holds_below-lt, text_eq→eq}
use electroneum_web3_js.Iban.{
  is_capital, is_code, prepare_char, prepare_chars, iso13616_prepare, mod_9710, has_iban_shape,
  is_valid, new_iban, last_two, show, minus_from_98, from_bban,
}
use electroneum_web3_js.Iban.Mod97.{AreDecimal, mod_9710-digits}

-- The decimal digits that stand for a letter or digit, and for a text of these.
code_digits : ℕ → List ℕ
code_digits c = digits 10 (if is_capital c then c - 55 else c - 48)

numeral : Text → List ℕ
numeral [] = []
numeral (c ∷ t) = code_digits c ++ numeral t

numeral-All : (t : Text) → AreDecimal (numeral t)
unfolding numeral code_digits
numeral-All [] = tt
numeral-All (c ∷ t) = All-append _ (code_digits c) _ (digits-All 10 _ (omega arith)) (numeral-All t)

numeral-append : (s t : Text) → numeral (s ++ t) ≡ numeral s ++ numeral t
unfolding numeral
numeral-append [] t = refl
numeral-append (c ∷ s) t =
    ap (λ u. code_digits c ++ u) (numeral-append s t)
    ∙ sym (append_assoc (code_digits c) (numeral s) (numeral t))

agrees : ℕ → Bool
agrees c =
    if is_code c then text_eq (prepare_char (upper c)) (map digit_char (code_digits c)) else true

table : holds_below agrees 91 ≡ true
unfolding holds_below agrees prepare_char upper code_digits to_string digits digit_char
table = refl

prepare_code : (c : ℕ) → is_code c ≡ true → prepare_char (upper c) ≡ map digit_char (code_digits c)
unfolding agrees
prepare_code c h =
    let small : c < 91 = ground arith in
    text_eq→eq _ _ (rw h at (holds_below-lt agrees 91 c small table))

prepare_codes :
    (t : Text) → all is_code t ≡ true → prepare_chars (map upper t) ≡ map digit_char (numeral t)
unfolding prepare_chars numeral
prepare_codes [] h = refl
prepare_codes (c ∷ t) h =
    ap₂ ◌++◌ (prepare_code c (ground arith)) (prepare_codes t (ground arith))
    ∙ sym (map-append digit_char (code_digits c) (numeral t))

-- The text that `_iso13616Prepare` makes of `XE`, two check digits and a bban.
abbrev turned : ℕ → ℕ → Text → Text
turned d e bban = bban ++ (lit "XE" ++ (digit_char d ∷ digit_char e ∷ []))

digit_code : (d : ℕ) → d < 10 → code_digits (digit_char d) ≡ d ∷ []
unfolding code_digits digit_char
digit_code d h =
    let same : (if is_capital (digit_char d) then digit_char d - 55 else digit_char d - 48) ≡ d =
      ground arith in
    ap (digits 10) same ∙ digits-one 10 d h

letter_codes : (code_digits 88 ≡ 3 ∷ 3 ∷ []) × (code_digits 69 ≡ 1 ∷ 4 ∷ [])
unfolding code_digits digits
letter_codes = (refl, refl)

tail_digits :
    (d e : ℕ)
    → d < 10
    → e < 10
    → numeral (lit "XE" ++ (digit_char d ∷ digit_char e ∷ [])) ≡ 3 ∷ 3 ∷ 1 ∷ 4 ∷ d ∷ e ∷ []
unfolding numeral
tail_digits d e h k = rw (letter_codes.0, letter_codes.1, digit_code d h, digit_code e k)

all-append :
    (s t : Text) → all is_code s ≡ true → all is_code t ≡ true → all is_code (s ++ t) ≡ true
all-append [] t h k = k
all-append (c ∷ s) t h k = ground (arith, all-append s t)

-- The number behind the check digits `d`, `e`.
checked : ℕ → ℕ → ℕ → ℕ
checked b d e = value_from 10 b (3 ∷ 3 ∷ 1 ∷ 4 ∷ d ∷ e ∷ [])

mod_9710-append :
    (xs : List ℕ) (y : ℕ) (ys : List ℕ)
    → AreDecimal (xs ++ (y ∷ ys))
    → mod_9710 (map digit_char (xs ++ (y ∷ ys)))
      ≡ some (some (pos (value 10 (xs ++ (y ∷ ys)) % 97)))
mod_9710-append [] y ys h = mod_9710-digits y ys h
mod_9710-append (x ∷ xs) y ys h = mod_9710-digits x (xs ++ (y ∷ ys)) h

tail_codes :
    (d e : ℕ)
    → d < 10
    → e < 10
    → all is_code (lit "XE" ++ (digit_char d ∷ digit_char e ∷ [])) ≡ true
unfolding digit_char
tail_codes d e h k = ground arith

prepare-turned :
    (d e : ℕ) (bban : Text)
    → d < 10
    → e < 10
    → all is_code bban ≡ true
    → iso13616_prepare (lit "XE" ++ (digit_char d ∷ digit_char e ∷ bban))
      ≡ map digit_char (numeral bban ++ (3 ∷ 3 ∷ 1 ∷ 4 ∷ d ∷ e ∷ []))
unfolding iso13616_prepare
prepare-turned d e bban h k codes =
    let end_ = lit "XE" ++ (digit_char d ∷ digit_char e ∷ []) in
    ap prepare_chars (sym (map-append upper bban end_))
    ∙ prepare_codes (bban ++ end_) (all-append bban end_ codes (tail_codes d e h k))
    ∙ ap (map digit_char)
        (numeral-append bban end_ ∙ ap (λ t. numeral bban ++ t) (tail_digits d e h k))

remainder_lem :
    (d e : ℕ) (bban : Text)
    → d < 10
    → e < 10
    → all is_code bban ≡ true
    → mod_9710 (iso13616_prepare (lit "XE" ++ (digit_char d ∷ digit_char e ∷ bban)))
      ≡ some (some (pos (checked (value 10 (numeral bban)) d e % 97)))
unfolding checked value
remainder_lem d e bban h k codes =
    let tail_ = 3 ∷ 3 ∷ 1 ∷ 4 ∷ d ∷ e ∷ [] in
    ap mod_9710 (prepare-turned d e bban h k codes)
    ∙ mod_9710-append (numeral bban) 3 (3 ∷ 1 ∷ 4 ∷ d ∷ e ∷ []) (
        All-append _ (numeral bban) tail_ (numeral-All bban)
          (omega arith, (omega arith, (omega arith, (omega arith, (h, (k, tt)))))))
    ∙ ap (λ n. some (some (pos (n % 97)))) (value_from-append 10 0 (numeral bban) tail_)

-- 98 minus the remainder for `00`, written behind `XE`, makes the remainder 1.
checked-one : (b : ℕ) → let k = 98 - checked b 0 0 % 97 in checked b (k / 10) (k % 10) % 97 ≡ 1
unfolding checked value_from
checked-one b = omega arith

two_digits : ℕ → Bool
two_digits k =
    text_eq (last_two (b'0' ∷ to_string 10 k)) (digit_char (k / 10) ∷ digit_char (k % 10) ∷ [])

two_digits_table : holds_below two_digits 99 ≡ true
unfolding holds_below two_digits to_string digits digit_char
two_digits_table = refl

check_digits :
    (r : ℕ)
    → r < 97
    → last_two (b'0' ∷ show (minus_from_98 (some (pos r))))
      ≡ digit_char ((98 - r) / 10) ∷ digit_char ((98 - r) % 10) ∷ []
unfolding two_digits
check_digits r h =
    let positive : pos 98 -ℤ pos r ≡ pos (98 - r) = ground arith in
    ap (λ z. last_two (b'0' ∷ show (some z))) positive
    ∙ text_eq→eq _ _ (holds_below-lt two_digits 99 (98 - r) (omega arith) two_digits_table)

-- The bodies that `isValid` asks for.
abbrev pub is_bban : Text → Bool
is_bban t =
    all is_code t
    && (starts_with (lit "ETH") t && length t == 16 || length t == 30 || length t == 31)

shape-bban :
    (d e : ℕ) (bban : Text)
    → d < 10
    → e < 10
    → is_bban bban ≡ true
    → has_iban_shape (lit "XE" ++ (digit_char d ∷ digit_char e ∷ bban)) ≡ true
unfolding has_iban_shape digit_char
shape-bban d e bban h k codes = ground arith

new_iban-bban :
    (c d : ℕ) (bban : Text)
    → is_bban bban ≡ true
    → new_iban (lit "XE" ++ (c ∷ d ∷ bban)) ≡ ok (lit "XE" ++ (c ∷ d ∷ bban))
unfolding new_iban
new_iban-bban c d bban h = ground arith

remainder_start :
    (bban : Text)
    → all is_code bban ≡ true
    → mod_9710 (iso13616_prepare (lit "XE00" ++ bban))
      ≡ some (some (pos (checked (value 10 (numeral bban)) 0 0 % 97)))
unfolding digit_char
remainder_start bban h = remainder_lem 0 0 bban (omega arith) (omega arith) h

-- For a body of capital letters and digits of one of the lengths that `isValid` asks for,
-- `fromBban` returns, and its result is a valid iban that ends in the body.
pub is_valid-from_bban :
    (bban : Text)
    → is_bban bban ≡ true
    → (iban : Text) × (from_bban bban ≡ ok iban) × (is_valid iban ≡ true) × (drop 4 iban ≡ bban)
unfolding from_bban is_valid
is_valid-from_bban bban h =
    let codes : all is_code bban ≡ true = ground arith in
    let b = value 10 (numeral bban) in
    let r = checked b 0 0 % 97 in
    let k = 98 - r in
    let first = remainder_start bban codes in
    let again = remainder_lem (k / 10) (k % 10) bban (omega arith) (omega arith) codes in
    let digits_ = check_digits r (omega arith) in
    let shaped = shape-bban (k / 10) (k % 10) bban (omega arith) (omega arith) h in
    (
      lit "XE" ++ (digit_char (k / 10) ∷ digit_char (k % 10) ∷ bban),
      rw (from_bban, first, digits_) (new_iban-bban _ _ bban h),
      rw (shaped, again, checked-one b) refl,
      refl,
    )
