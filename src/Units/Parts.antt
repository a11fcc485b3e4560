-- ===== src/Units/Parts.antt =====
-- The two parts of the text that `fromWei` cuts, as digits.
use electroneum_web3_js.Base.{
  ℕ, suc, ◌-◌, ◌<◌, ◌≤◌, ◌≡◌, refl, sym, ap, ◌∙◌, List, [], ◌∷◌, ◌++◌, map, Bool, true, false, ◌&&◌,
  arith, ◌==◌, if◌then◌else◌, length, length-map, length-append, length-replicate, length-drop,
  take, drop, replicate, pad_start, take-map, drop-map, map-replicate, All, All-append,
  All-replicate, All-drop,
}
use mathlib.Core.List.{map-append}
use electroneum_web3_js.Digits.{digits, digits-All}
use electroneum_web3_js.Text.{is_nil, digit_char, to_string}
use electroneum_web3_js.Units.{strip_zeros, with_point, cut_at, scale_down}

pub AreDecimal : List ℕ → Type 0
AreDecimal ds = All (λ d. d < 10) ds

-- Digits without the zeros at their end.
unfoldable pub strip : List ℕ → List ℕ
strip [] = []
strip (d ∷ ds) = let rest = strip ds in if d == 0 && is_nil rest then [] else d ∷ rest

is_nil-map : (ds : List ℕ) → is_nil (map digit_char ds) ≡ is_nil ds
is_nil-map [] = refl
is_nil-map (d ∷ ds) = refl

is_zero-digit : (d : ℕ) → d < 10 → (digit_char d == b'0') ≡ (d == 0)
unfolding digit_char
is_zero-digit d h = ground arith

map-if :
    (t : Bool) (d : ℕ) (ds : List ℕ)
    → (if t then [] else digit_char d ∷ map digit_char ds)
      ≡ map digit_char (if t then [] else d ∷ ds)
map-if true d ds = refl
map-if false d ds = refl

strip_zeros-map :
    (ds : List ℕ) → AreDecimal ds → strip_zeros (map digit_char ds) ≡ map digit_char (strip ds)
unfolding strip_zeros strip AreDecimal
strip_zeros-map [] h = refl
strip_zeros-map (d ∷ ds) (k, h) =
    rw (strip_zeros, strip_zeros-map ds h, is_zero-digit d k, is_nil-map (strip ds))
      (map-if (d == 0 && is_nil (strip ds)) d (strip ds))

pub zeros_eq : (m n : ℕ) → m ≡ n → replicate {A = ℕ} m 0 ≡ replicate n 0
zeros_eq m n e = ap (λ k. replicate k 0) e

nil_of : (ds : List ℕ) → is_nil ds ≡ true → ds ≡ []
nil_of [] h = refl
nil_of (d ∷ ds) h = cc

abbrev pub Filled : List ℕ → List ℕ → Type 0
Filled short ds =
    (length short ≤ length ds) × (short ++ replicate (length ds - length short) 0 ≡ ds)

strip_step :
    (t : Bool) (d : ℕ) (rest ds : List ℕ)
    → (t ≡ true → (d ≡ 0) × (rest ≡ []))
    → Filled rest ds
    → Filled (if t then [] else d ∷ rest) (d ∷ ds)
strip_step true d rest ds h (le, same) =
    let (zero_, none_) = h refl in
    let zeros : replicate {A = ℕ} (length ds - 0) 0 ≡ ds = rw none_ at same in
    (
      omega arith,
      zeros_eq (suc (length ds) - 0) (suc (length ds)) (omega arith)
          ∙ (λ i. sym zero_ i ∷ (zeros_eq (length ds) (length ds - 0) (omega arith) ∙ zeros) i),
    )
strip_step false d rest ds h (le, same) = (
  omega arith,
  ap (λ z. d ∷ (rest ++ z))
        (zeros_eq (suc (length ds) - suc (length rest)) (length ds - length rest) (omega arith))
      ∙ ap (λ z. d ∷ z) same,
)

-- The digits that were stripped are zeros.
pub filled : (ds : List ℕ) → Filled (strip ds) ds
unfolding strip
filled [] = (omega arith, refl)
filled (d ∷ ds) =
    strip_step (d == 0 && is_nil (strip ds)) d (strip ds) ds
      (λ h. (ground arith, nil_of (strip ds) (ground arith))) (filled ds)

cut_at-map :
    (k : ℕ) (ds : List ℕ)
    → AreDecimal ds
    → cut_at k (map digit_char ds)
      ≡ with_point
          (map digit_char (take (length ds - k) ds))
          (map digit_char (strip (drop (length ds - k) ds)))
unfolding AreDecimal cut_at
cut_at-map k ds h =
    let n = length ds - k in
    let same : length (map digit_char ds) - k ≡ n = ap (λ m. m - k) (length-map digit_char ds) in
    rw
      (
        cut_at,
        same,
        take-map digit_char n ds,
        drop-map digit_char n ds,
        strip_zeros-map (drop n ds) (All-drop _ n ds h),
      )
      refl

-- The two parts of the number: its digits, at least `k` of them, cut before the last `k`.
module _ (n k : ℕ) where
  abbrev pub padded : List ℕ
  padded = pad_start k 0 (digits 10 n)

  abbrev pub whole : List ℕ
  whole = take (length padded - k) padded

  abbrev pub behind : List ℕ
  behind = drop (length padded - k) padded

  pub length-behind : length behind ≡ k
  length-behind = omega (
    arith,
    length-drop (length padded - k) padded,
    length-append (replicate (k - length (digits 10 n)) 0) (digits 10 n),
    length-replicate {A = ℕ} (k - length (digits 10 n)) 0,
  )

  pub padded-All : AreDecimal padded
  unfolding AreDecimal
  padded-All =
      All-append _ (replicate (k - length (digits 10 n)) 0) _
        (All-replicate _ (k - length (digits 10 n)) 0 (omega arith)) (digits-All 10 n (omega arith))

  digits_of_text : pad_start k b'0' (to_string 10 n) ≡ map digit_char padded
  unfolding to_string digit_char
  digits_of_text = rw (length-map digit_char (digits 10 n)) (
      ap (λ z. z ++ map digit_char (digits 10 n))
        (sym (map-replicate digit_char (k - length (digits 10 n)) 0))
      ∙ sym (map-append digit_char (replicate (k - length (digits 10 n)) 0) (digits 10 n)))

  pub scale_down-digits :
      0 < k
      → scale_down (to_string 10 n) k
        ≡ with_point (map digit_char whole) (map digit_char (strip behind))
  unfolding scale_down
  scale_down-digits h =
      let positive : (k == 0) ≡ false = ground arith in
      rw (scale_down, positive) (ap (cut_at k) digits_of_text ∙ cut_at-map k padded padded-All)
