-- ===== src/Address/Checksum.antt =====
-- The checksum form of an address passes the test for checksum addresses.
use electroneum_web3_js.Base.{
  ℕ, zero, suc, ◌≡◌, ◌≢◌, refl, sym, ap, ◌∙◌, [], ◌∷◌, ◌++◌, map, true, false, Option, some,
  Bool-cases, inl, inr, arith, if◌then◌else◌, length, length-map, all, drop, All,
}
use mathlib.Core.Path.{ap₂}
use electroneum_web3_js.Text.{
  Text, lit, text_eq, lower, upper, has_0x, is_hex_digit, is_hex_strict, uint8_array_to_hex_string,
}
use electroneum_web3_js.Address.{
  Host, drop_0x, has_address_shape, has_case, have_case, set_case, set_cases, empty_hash, hash_text,
  check_address_check_sum, is_address, checksum_form, to_checksum_address,
}

drop_0x-lower : (t : Text) → drop_0x (map lower t) ≡ map lower (drop_0x t)
unfolding lower
drop_0x-lower [] = refl
drop_0x-lower (c ∷ []) = ground arith
drop_0x-lower (c ∷ d ∷ t) = ground arith

AreLower : Text → Type 0
AreLower t = All (λ c. lower c ≡ c) t

lower-lower : (c : ℕ) → lower (lower c) ≡ lower c
unfolding lower
lower-lower c = ground arith

lower-upper : (c : ℕ) → lower c ≡ c → lower (upper c) ≡ c
unfolding lower upper
lower-upper c h = ground arith

upper-upper : (c : ℕ) → upper (upper c) ≡ upper c
unfolding upper
upper-upper c = ground arith

lower-AreLower : (t : Text) → AreLower (map lower t)
unfolding AreLower
lower-AreLower [] = tt
lower-AreLower (c ∷ t) = (lower-lower c, lower-AreLower t)

hex-lower : (c : ℕ) → is_hex_digit c ≡ true → is_hex_digit (lower c) ≡ true
unfolding is_hex_digit lower
hex-lower c h = ground arith

hex-upper : (c : ℕ) → is_hex_digit c ≡ true → is_hex_digit (upper c) ≡ true
unfolding is_hex_digit upper
hex-upper c h = ground arith

all_hex-lower : (t : Text) → all is_hex_digit t ≡ true → all is_hex_digit (map lower t) ≡ true
all_hex-lower [] h = refl
all_hex-lower (c ∷ t) h = ground (arith, hex-lower c, all_hex-lower t)

lower-set_case : (h c : ℕ) → lower c ≡ c → lower (set_case h c) ≡ c
unfolding set_case
lower-set_case h c e = ground (arith, lower-upper c)

hex-set_case : (h c : ℕ) → is_hex_digit c ≡ true → is_hex_digit (set_case h c) ≡ true
unfolding set_case
hex-set_case h c e = ground (arith, hex-upper c)

has_case-set_case : (h c : ℕ) → lower c ≡ c → has_case h (set_case h c) ≡ true
unfolding has_case set_case
has_case-set_case h c e = ground (arith, upper-upper c)

lower-map : (t : Text) → AreLower t → map lower t ≡ t
unfolding AreLower
lower-map [] k = refl
lower-map (c ∷ t) (e, k) = ap₂ ◌∷◌ e (lower-map t k)

lower-set_cases : (hash t : Text) → AreLower t → map lower (set_cases hash t) ≡ t
unfolding set_cases AreLower
lower-set_cases hash [] k = refl
lower-set_cases [] (c ∷ t) (e, k) = ap₂ ◌∷◌ e (lower-map t k)
lower-set_cases (h ∷ hs) (c ∷ t) (e, k) = λ i. lower-set_case h c e i ∷ lower-set_cases hs t k i

hex-set_cases :
    (hash t : Text) → all is_hex_digit t ≡ true → all is_hex_digit (set_cases hash t) ≡ true
unfolding set_cases
hex-set_cases hash [] k = refl
hex-set_cases [] (c ∷ t) k = k
hex-set_cases (h ∷ hs) (c ∷ t) k = ground (arith, hex-set_case h c, hex-set_cases hs t)

length-set_cases : (hash t : Text) → length (set_cases hash t) ≡ length t
unfolding set_cases
length-set_cases hash [] = refl
length-set_cases [] (c ∷ t) = refl
length-set_cases (h ∷ hs) (c ∷ t) = ap suc (length-set_cases hs t)

have_case-set_cases :
    (n : ℕ) (hash t : Text)
    → AreLower t
    → length t ≡ n
    → have_case n hash (set_cases hash t) ≡ some true
unfolding have_case set_cases AreLower
have_case-set_cases zero hash t k size = refl
have_case-set_cases (suc n) [] t k size = refl
have_case-set_cases (suc n) (h ∷ hs) [] k size = absurd (omega arith)
have_case-set_cases (suc n) (h ∷ hs) (c ∷ t) (e, k) size =
    rw (has_case-set_case h c e, have_case-set_cases n hs t k (omega arith)) refl

some-injective : {s t : Text} → ◌≡◌ {A = Option Text} (some s) (some t) → s ≡ t
some-injective e = cc

-- What `isAddress` accepts has 40 hexadecimal digits behind an optional prefix.
shape_digits :
    (t : Text)
    → has_address_shape t ≡ true
    → (length (drop_0x t) ≡ 40) × (all is_hex_digit (drop_0x t) ≡ true)
unfolding has_address_shape
shape_digits t h = ground arith

is_address-digits :
    (host : Host) (a : Text)
    → is_address host a false ≡ true
    → (length (drop_0x a) ≡ 40) × (all is_hex_digit (drop_0x a) ≡ true)
unfolding is_address
is_address-digits host a h = elim (Bool-cases (has_0x a)) [
  | inl has ↦ shape_digits a (ground arith)
  | inr lacks ↦ elim (Bool-cases (is_hex_strict a)) [
    | inl strict ↦ shape_digits a (ground arith)
    | inr loose ↦ rw lacks (shape_digits (lit "0x" ++ a) (ground arith))
  ]
]

prefixed-shape :
    (u : Text)
    → length u ≡ 40
    → all is_hex_digit u ≡ true
    → has_address_shape (lit "0x" ++ u) ≡ true
unfolding has_address_shape
prefixed-shape u e h = ground (arith, e, h)

drop_0x-hash : (host : Host) (t : Text) → drop_0x (hash_text host t) ≡ drop 2 (hash_text host t)
unfolding hash_text uint8_array_to_hex_string
drop_0x-hash host t = refl

lower_0x : (u : Text) → map lower (lit "0x" ++ u) ≡ lit "0x" ++ map lower u
unfolding lower
lower_0x u = refl

module _ (host : Host) where
  checked_form :
      (u : Text)
      → AreLower u
      → length u ≡ 40
      → all is_hex_digit u ≡ true
      → check_address_check_sum host (lit "0x" ++ set_cases (drop 2 (hash_text host u)) u)
        ≡ some true
  unfolding check_address_check_sum
  checked_form u low size hex =
      let hash = drop 2 (hash_text host u) in
      rw
        (
          prefixed-shape (set_cases hash u) (length-set_cases hash u ∙ size)
              (hex-set_cases hash u hex),
          lower-set_cases hash u low,
          have_case-set_cases 40 hash u low size,
        )
        refl

  checksum_form-eq :
      (a : Text)
      → let u = map lower (drop_0x a) in
        checksum_form host a ≡ (
          if text_eq (hash_text host u) empty_hash
          then []
          else lit "0x" ++ set_cases (drop 2 (hash_text host u)) u)
  unfolding checksum_form
  checksum_form-eq a =
      let form : Text → Text = λ w.
        if text_eq (hash_text host w) empty_hash
        then []
        else lit "0x" ++ set_cases (drop_0x (hash_text host w)) w in
      let u = map lower (drop_0x a) in
      ap form (drop_0x-lower a)
      ∙ ap (λ h. if text_eq (hash_text host u) empty_hash then [] else lit "0x" ++ set_cases h u)
          (drop_0x-hash host u)

  -- What `toChecksumAddress` returns, if it is not the empty string, passes
  -- `checkAddressCheckSum`, and in lower case it is the address that was given, with the prefix 0x.
  pub check_address_check_sum-to_checksum_address :
      (a t : Text)
      → to_checksum_address host a ≡ some t
      → t ≢ []
      → (check_address_check_sum host t ≡ some true)
        × (map lower t ≡ lit "0x" ++ map lower (drop_0x a))
  unfolding to_checksum_address
  check_address_check_sum-to_checksum_address a t e given =
      elim (Bool-cases (is_address host a false)) [
        | inr bad ↦ cc (rw bad at e)
        | inl fine ↦
            let (size, hex) = is_address-digits host a fine in
            let form = sym (checksum_form-eq a) ∙ some-injective (rw fine at e) in
            let u = map lower (drop_0x a) in
            elim (Bool-cases (text_eq (hash_text host u) empty_hash)) [
              | inl empty ↦ absurd (given (sym (rw empty at form)))
              | inr other ↦
                  let low = lower-AreLower (drop_0x a) in
                  rw (← rw other at form) (
                    checked_form u low (length-map lower (drop_0x a) ∙ size)
                        (all_hex-lower (drop_0x a) hex),
                    lower_0x _
                        ∙ ap (λ s. lit "0x" ++ s)
                            (lower-set_cases (drop 2 (hash_text host u)) u low),
                  )
            ]
      ]
