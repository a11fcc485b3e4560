-- ===== src/Digits.antt =====
-- Positional notation: what `Number.prototype.toString(radix)` writes and what `BigInt(text)` and
-- `parseInt(text, radix)` read back, as lists of digits with the most significant one first.
use electroneum_web3_js.Base.{
  ℕ, zero, suc, ◌+◌, ◌*◌, ◌/◌, ◌%◌, ◌^◌, ◌-◌, ◌≤◌, ◌<◌, ◌≡◌, refl, ap, ◌∙◌, List, [], ◌∷◌, ◌++◌,
  Bool-cases, inl, inr, All, All-append, length, length-append, replicate, if◌then◌else◌, ltb,
  arith, ltb→lt, lt→ltb, pad_start,
}
use mathlib.Core.Bool.{false}
use native.Mathlib.Nat.{
  div-lt_self, div-add-mod', div-lt_iff_lt-mul, pow-suc, pow-zero, mul-le-mul_right, mul_assoc,
  pow-succ', le_trans,
}

-- One digit more for each round; `n + 1` rounds are enough for `n`.
digits_loop : ℕ → ℕ → ℕ → List ℕ
digits_loop zero b n = []
digits_loop (suc f) b n =
    let rest = digits_loop f b (n / b) ++ (n % b) ∷ [] in if ltb n b then n ∷ [] else rest

unfoldable pub digits : ℕ → ℕ → List ℕ
unfolding digits_loop
digits b n = digits_loop (suc n) b n

unfoldable pub value_from : ℕ → ℕ → List ℕ → ℕ
value_from b acc [] = acc
value_from b acc (d ∷ ds) = value_from b (acc * b + d) ds

unfoldable pub value : ℕ → List ℕ → ℕ
unfolding value_from
value b ds = value_from b 0 ds

pub value_from-append :
    (b acc : ℕ) (xs ys : List ℕ)
    → value_from b acc (xs ++ ys) ≡ value_from b (value_from b acc xs) ys
unfolding value_from
value_from-append b acc [] ys = refl
value_from-append b acc (x ∷ xs) ys = value_from-append b (acc * b + x) xs ys

div_shrinks : (b n : ℕ) → 2 ≤ b → b ≤ n → n / b < n
div_shrinks b n h k = div-lt_self (omega arith) h

large→le : (n b : ℕ) → ltb n b ≡ false → b ≤ n
large→le n b e = ground arith

mod_lt : (b n : ℕ) → 2 ≤ b → n % b < b
mod_lt b n h = omega arith

value_from-digits_loop : (f b n : ℕ) → 2 ≤ b → n < f → value_from b 0 (digits_loop f b n) ≡ n
unfolding digits_loop value_from
value_from-digits_loop zero b n hb h = elim h [ ]
value_from-digits_loop (suc f) b n hb h = elim (Bool-cases (ltb n b)) [
  | inl small ↦ rw small (omega arith)
  | inr large ↦
      rw (large, value_from-append)
        (rw
          (value_from-digits_loop f b (n / b) hb
            (omega (arith, div_shrinks b n hb (large→le n b large))))
          (div-add-mod' n b))
]

-- `BigInt(n.toString(b))` gives back `n`.
pub value-digits : (b n : ℕ) → 2 ≤ b → value b (digits b n) ≡ n
unfolding value digits
value-digits b n h = value_from-digits_loop (suc n) b n h (omega arith)

digits_loop-All : (f b n : ℕ) → 2 ≤ b → All (λ d. d < b) (digits_loop f b n)
unfolding digits_loop
digits_loop-All zero b n hb = tt
digits_loop-All (suc f) b n hb = elim (Bool-cases (ltb n b)) [
  | inl small ↦ rw small (ltb→lt n b small, tt)
  | inr large ↦ rw large (
      All-append (λ d. d < b) (digits_loop f b (n / b)) (n % b ∷ [])
        (digits_loop-All f b (n / b) hb) (mod_lt b n hb, tt))
]

pub digits-All : (b n : ℕ) → 2 ≤ b → All (λ d. d < b) (digits b n)
unfolding digits
digits-All b n hb = digits_loop-All (suc n) b n hb

pow_one : (b : ℕ) → b ^ 1 ≡ b
pow_one b = pow-suc b 0 ∙ rw pow-zero (omega arith)

length-digits_loop : (k f b n : ℕ) → 2 ≤ b → n < b ^ suc k → length (digits_loop f b n) ≤ suc k
unfolding digits_loop
length-digits_loop k zero b n hb h = omega arith
length-digits_loop zero (suc f) b n hb h =
    let small : n < b = rw pow_one at h in rw (lt→ltb n b small) (omega arith)
length-digits_loop (suc k) (suc f) b n hb h = elim (Bool-cases (ltb n b)) [
  | inl small ↦ rw small (omega arith)
  | inr large ↦
      let less : n / b < b ^ suc k = (div-lt_iff_lt-mul (omega arith)).1 (rw pow-suc at h) in
      rw large (
        omega (
          arith,
          length-append (digits_loop f b (n / b)) (n % b ∷ []),
          length-digits_loop k f b (n / b) hb less,
        ))
]

-- A number below `b ^ k` has at most `k` digits.
pub length-digits : (k b n : ℕ) → 2 ≤ b → n < b ^ suc k → length (digits b n) ≤ suc k
unfolding digits
length-digits k b n hb h = length-digits_loop k (suc n) b n hb h

value_from-replicate :
    (b k : ℕ) (ds : List ℕ) → value_from b 0 (replicate k 0 ++ ds) ≡ value_from b 0 ds
unfolding value_from
value_from-replicate b zero ds = refl
value_from-replicate b (suc k) ds =
    ap (λ acc. value_from b acc (replicate k 0 ++ ds)) (omega arith) ∙ value_from-replicate b k ds

-- Zeros in front leave the value alone.
pub value-pad_start : (b k : ℕ) (ds : List ℕ) → value b (pad_start k 0 ds) ≡ value b ds
unfolding value
value-pad_start b k ds = value_from-replicate b (k - length ds) ds

value_from-lt :
    (b acc : ℕ) (ds : List ℕ)
    → All (λ d. d < b) ds
    → value_from b acc ds < (acc + 1) * b ^ length ds
unfolding value_from
value_from-lt b acc [] h = rw pow-zero (omega arith)
value_from-lt b acc (d ∷ ds) (hd, h) =
    let step : acc * b + d + 1 ≤ (acc + 1) * b = omega arith in
    rw (pow-succ', ← mul_assoc)
      (le_trans (value_from-lt b (acc * b + d) ds h) (mul-le-mul_right (b ^ length ds) step))

pub value-lt : (b : ℕ) (ds : List ℕ) → All (λ d. d < b) ds → value b ds < b ^ length ds
unfolding value
value-lt b ds h = omega (arith, value_from-lt b 0 ds h)

append_one : (xs : List ℕ) (x : ℕ) → (e : ℕ) × (es : List ℕ) × (xs ++ (x ∷ []) ≡ e ∷ es)
append_one [] x = (x, [], refl)
append_one (y ∷ xs) x = (y, xs ++ (x ∷ []), refl)

-- Every number has a digit.
pub digits-cons : (b n : ℕ) → (e : ℕ) × (es : List ℕ) × (digits b n ≡ e ∷ es)
unfolding digits digits_loop
digits-cons b n = elim (Bool-cases (ltb n b)) [
  | inl small ↦ rw small (n, [], refl)
  | inr large ↦ rw large (append_one (digits_loop n b (n / b)) (n % b))
]

pub digits-one : (b n : ℕ) → n < b → digits b n ≡ n ∷ []
unfolding digits digits_loop
digits-one b n h = rw (lt→ltb n b h)

div_positive : (b n : ℕ) → 2 ≤ b → b ≤ n → 0 < n / b
div_positive b n h le = elim (Bool-cases (ltb (n / b) 1)) [
  | inl small ↦
      let less : n < 1 * b = (div-lt_iff_lt-mul (omega arith)).0 (ltb→lt (n / b) 1 small) in
      absurd (omega arith)
  | inr large ↦ ground arith
]

-- A positive number has no digit 0 in front.
digits_loop-positive :
    (f b n : ℕ)
    → 2 ≤ b
    → 0 < n
    → n < f
    → (e : ℕ) × (es : List ℕ) × (digits_loop f b n ≡ e ∷ es) × (0 < e)
unfolding digits_loop
digits_loop-positive zero b n h pos_ lt = absurd (omega arith)
digits_loop-positive (suc f) b n h pos_ lt = elim (Bool-cases (ltb n b)) [
  | inl small ↦ (n, [], rw (digits_loop, small) refl, pos_)
  | inr large ↦
      let le = large→le n b large in
      let shrinks = div_shrinks b n h le in
      let quotient = div_positive b n h le in
      let (e, es, same, positive) =
        digits_loop-positive f b (n / b) h quotient (omega (arith, shrinks)) in
      (e, es ++ ((n % b) ∷ []), rw (digits_loop, large, same) refl, positive)
]

pub digits-positive :
    (b n : ℕ) → 2 ≤ b → 0 < n → (e : ℕ) × (es : List ℕ) × (digits b n ≡ e ∷ es) × (0 < e)
unfolding digits
digits-positive b n h pos_ = digits_loop-positive (suc n) b n h pos_ (omega arith)
