-- ===== src/Iban/Mod97.antt =====
-- `_mod9710` is the remainder by 97 of the number that the digits write.
use electroneum_web3_js.Base.{
  take-map, drop-map, All-take, All-drop, ℕ, zero, suc, ◌+◌, ◌*◌, ◌%◌, ◌<◌, ◌≤◌, ◌≡◌, refl, sym, ap,
  ◌∙◌, List, [], ◌∷◌, ◌++◌, map, Bool, true, false, none, some, Bool-cases, inl, inr, arith, ltb,
  ltb→lt, lt→ltb, not, ◌||◌, ◌==◌, length, length-map, length-append, length-take, length-drop,
  take, drop, All, All-append,
}
use mathlib.Core.List.{map-append}
use electroneum_web3_js.Base.Int.{pos}
use electroneum_web3_js.Digits.{
  digits, digits-cons, digits-All, length-digits, value, value_from, value_from-append,
  value-digits,
}
use electroneum_web3_js.Text.{
  Text, lit, starts_with, digit_char, to_string, is_space, digit_in, char_digit,
}
use electroneum_web3_js.Text.Hex.{digit_in-digit_char}
use electroneum_web3_js.Iban.{
  leading_digits, skip_spaces, parse_int, mod_97, next_remainder, after_block, mod_9710_loop,
  mod_9710, is_digit,
}

abbrev pub AreDecimal : List ℕ → Type 0
AreDecimal ds = All (λ d. d < 10) ds

leading_digits-map : (ds : List ℕ) → AreDecimal ds → leading_digits (map digit_char ds) ≡ ds
unfolding leading_digits
leading_digits-map [] h = refl
leading_digits-map (d ∷ ds) (k, h) =
    rw (leading_digits, digit_in-digit_char 10 d (omega arith) k)
      (ap (λ t. d ∷ t) (leading_digits-map ds h))

no_space : (d : ℕ) → d < 10 → is_space (digit_char d) ≡ false
unfolding is_space digit_char
no_space d h = ground arith

no_sign :
    (d : ℕ) (t : Text)
    → d < 10
    → (starts_with (lit "-") (digit_char d ∷ t) ≡ false)
      × (starts_with (lit "+") (digit_char d ∷ t) ≡ false)
unfolding digit_char
no_sign d t h = ground arith

parse_int-map :
    (d : ℕ) (ds : List ℕ)
    → AreDecimal (d ∷ ds)
    → parse_int (map digit_char (d ∷ ds)) ≡ some (pos (value 10 (d ∷ ds)))
unfolding parse_int skip_spaces
parse_int-map d ds (k, h) =
    let (minus, plus) = no_sign d (map digit_char ds) k in
    rw (no_space d k, minus, plus, leading_digits-map (d ∷ ds) (k, h))

-- Digits read on from two numbers with the same remainder.
value_from-mod :
    (a b : ℕ) (ds : List ℕ) → a % 97 ≡ b % 97 → value_from 10 a ds % 97 ≡ value_from 10 b ds % 97
unfolding value_from
value_from-mod a b [] h = h
value_from-mod a b (d ∷ ds) h = value_from-mod (a * 10 + d) (b * 10 + d) ds (omega arith)

rejoin : (n : ℕ) (ds : List ℕ) → take n ds ++ drop (length (take n ds)) ds ≡ ds
rejoin zero ds = refl
rejoin (suc n) [] = refl
rejoin (suc n) (d ∷ ds) = ap (λ t. d ∷ t) (rejoin n ds)

-- The digits after a round.
next_digits : List ℕ → List ℕ
next_digits ds = digits 10 (value 10 (take 9 ds) % 97) ++ drop (length (take 9 ds)) ds

next_digits-All : (ds : List ℕ) → AreDecimal ds → AreDecimal (next_digits ds)
unfolding next_digits
next_digits-All ds h =
    All-append _ (digits 10 (value 10 (take 9 ds) % 97)) _ (digits-All 10 _ (omega arith))
      (All-drop _ _ ds h)

after_block-map :
    (x : ℕ) (xs ds : List ℕ)
    → AreDecimal (x ∷ xs)
    → after_block (map digit_char (x ∷ xs)) (map digit_char ds)
      ≡ map digit_char (digits 10 (value 10 (x ∷ xs) % 97) ++ drop (length (x ∷ xs)) ds)
unfolding after_block to_string
after_block-map x xs ds h =
    rw (parse_int-map x xs h, length-map digit_char xs, drop-map digit_char (suc (length xs)) ds)
      (sym (map-append digit_char _ (drop (suc (length xs)) ds)))

next_remainder-map :
    (d : ℕ) (ds : List ℕ)
    → AreDecimal (d ∷ ds)
    → next_remainder (map digit_char (d ∷ ds)) ≡ map digit_char (next_digits (d ∷ ds))
unfolding next_digits
next_remainder-map d ds h =
    ap (λ b. after_block b (map digit_char (d ∷ ds))) (take-map digit_char 9 (d ∷ ds))
    ∙ after_block-map d (take 8 ds) (d ∷ ds) (All-take _ 9 (d ∷ ds) h)

value-next_digits : (ds : List ℕ) → value 10 (next_digits ds) % 97 ≡ value 10 ds % 97
unfolding next_digits value
value-next_digits ds =
    let block = take 9 ds in
    let kept = value-digits 10 (value 10 block % 97) (omega arith) in
    ap (λ n. n % 97)
      (value_from-append 10 0 (digits 10 (value 10 block % 97)) (drop (length block) ds))
    ∙ value_from-mod _ (value_from 10 0 block) (drop (length block) ds) (omega arith)
    ∙ ap (λ n. n % 97)
        (sym (value_from-append 10 0 block (drop (length block) ds))
          ∙ ap (value_from 10 0) (rejoin 9 ds))

length-next_digits : (ds : List ℕ) → 2 < length ds → length (next_digits ds) < length ds
unfolding next_digits
length-next_digits ds h =
    let block = take 9 ds in
    let few : length (digits 10 (value 10 block % 97)) ≤ 2 =
      length-digits 1 10 (value 10 block % 97) (omega arith) (omega arith) in
    omega (
      arith,
      length-append (digits 10 (value 10 block % 97)) (drop (length block) ds),
      length-drop (length block) ds,
      length-take 9 ds,
    )

next_digits-nonempty :
    (d : ℕ) (ds : List ℕ) → (e : ℕ) × (es : List ℕ) × (next_digits (d ∷ ds) ≡ e ∷ es)
unfolding next_digits
next_digits-nonempty d ds =
    let block = take 9 (d ∷ ds) in
    let (e, es, form) = digits-cons 10 (value 10 block % 97) in
    (e, es ++ drop (length block) (d ∷ ds), ap (λ t. t ++ drop (length block) (d ∷ ds)) form)

-- With more rounds than digits the loop ends, with the remainder of the number.
loop-remainder :
    (fuel d : ℕ) (ds : List ℕ)
    → AreDecimal (d ∷ ds)
    → length (d ∷ ds) < fuel
    → mod_9710_loop fuel (map digit_char (d ∷ ds)) ≡ some (some (pos (value 10 (d ∷ ds) % 97)))
unfolding mod_9710_loop
loop-remainder zero d ds h enough = absurd (omega arith)
loop-remainder (suc fuel) d ds h enough = elim (Bool-cases (ltb 2 (length (d ∷ ds)))) [
  | inl long ↦
      let (e, es, form) = next_digits-nonempty d ds in
      let shorter = length-next_digits (d ∷ ds) (ltb→lt 2 _ long) in
      rw (mod_9710_loop, length-map digit_char ds, long, next_remainder-map d ds h, form)
        (loop-remainder fuel e es (rw form at (next_digits-All (d ∷ ds) h))
            (rw form at (let fits : length (next_digits (d ∷ ds)) < fuel = omega arith in fits))
          ∙ ap (λ n. some (some (pos n))) (rw form at (value-next_digits (d ∷ ds))))
  | inr short ↦
      rw (mod_9710_loop, length-map digit_char ds, short)
        (ap (λ z. some (mod_97 z)) (parse_int-map d ds h))
]

-- `_mod9710` ends on every run of decimal digits, and returns the remainder by 97 of the number
-- that they write.
pub mod_9710-digits :
    (d : ℕ) (ds : List ℕ)
    → AreDecimal (d ∷ ds)
    → mod_9710 (map digit_char (d ∷ ds)) ≡ some (some (pos (value 10 (d ∷ ds) % 97)))
unfolding mod_9710
mod_9710-digits d ds h =
    loop-remainder (suc (length (map digit_char (d ∷ ds)))) d ds h
      (omega (arith, length-map digit_char (d ∷ ds)))

-- The characters at which `parseInt(t, 10)` gives up at once.
abbrev pub starts_nothing : ℕ → Bool
starts_nothing c = not (is_space c || is_digit c || c == b'-' || c == b'+')

not_a_digit : (c : ℕ) → is_digit c ≡ false → digit_in 10 c ≡ none
unfolding digit_in char_digit
not_a_digit c h = ground arith

parse_int-NaN : (c : ℕ) (t : Text) → starts_nothing c ≡ true → parse_int (c ∷ t) ≡ none
unfolding parse_int skip_spaces leading_digits
parse_int-NaN c t h =
    let space : is_space c ≡ false = ground arith in
    let minus : (b'-' == c) ≡ false = ground arith in
    let plus : (b'+' == c) ≡ false = ground arith in
    let digit : is_digit c ≡ false = ground arith in
    rw (parse_int, skip_spaces, space, minus, plus, leading_digits, not_a_digit c digit)

letter_n : starts_nothing b'N' ≡ true
unfolding is_space
letter_n = refl

-- The loop of `_mod9710` does not end, however many rounds it has, on a text of three characters or
-- more whose first character is no digit, no white space and no sign: from the first round on, the
-- remainder starts with `NaN`.
pub mod_9710_loop-none :
    (fuel c : ℕ) (t : Text)
    → starts_nothing c ≡ true
    → 2 < length (c ∷ t)
    → mod_9710_loop fuel (c ∷ t) ≡ none
unfolding mod_9710_loop after_block
mod_9710_loop-none zero c t h long = refl
mod_9710_loop-none (suc fuel) c t h long =
    rw (mod_9710_loop, lt→ltb 2 (length (c ∷ t)) long, after_block, parse_int-NaN c (take 8 t) h)
      (mod_9710_loop-none fuel b'N' (b'a' ∷ b'N' ∷ drop (length (take 8 t)) t) letter_n
        (omega arith))
