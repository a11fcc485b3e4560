-- ===== src/Address/Bare.antt =====
-- `checkAddressCheckSum` on addresses with the prefix 0x, and on those without it.
use electroneum_web3_js.Base.{
  ℕ, zero, suc, ◌≡◌, ◌≢◌, ◌≤◌, ◌<◌, refl, List, [], ◌∷◌, Bool, true, false, some, Bool-cases, inl,
  inr, arith, length, length-drop, drop, All, map,
}
use electroneum_web3_js.Text.{Text, lower, digit_char, bytes_hex, uint8_array_to_hex_string}
use electroneum_web3_js.Text.Hex.{
  IsByte, nibbles, nibbles-All, length-nibbles, bytes_hex-nibbles, digit_in-digit_char,
}
use electroneum_web3_js.Address.{
  Host, has_address_shape, has_case, have_case, hash_text, check_address_check_sum,
}

-- With a letter of the address for every round, the loop returns.
have_case-some :
    (n : ℕ) (hash cs : Text) → n ≤ length cs → (b : Bool) × (have_case n hash cs ≡ some b)
unfolding have_case
have_case-some zero hash cs le = (true, refl)
have_case-some (suc n) [] cs le = (true, refl)
have_case-some (suc n) (h ∷ hs) [] le = absurd (omega arith)
have_case-some (suc n) (h ∷ hs) (c ∷ cs) le = elim (Bool-cases (has_case h c)) [
  | inl same ↦ rw (have_case, same) (have_case-some n hs cs (omega arith))
  | inr other ↦ (false, rw (have_case, other) refl)
]

-- With fewer letters it does not end with true.
have_case-short :
    (n : ℕ) (ds : List ℕ) (cs : Text)
    → All (λ d. d < 16) ds
    → n ≤ length ds
    → length cs < n
    → have_case n (map digit_char ds) cs ≢ some true
unfolding have_case
have_case-short zero ds cs h le less = absurd (omega arith)
have_case-short (suc n) [] cs h le less = absurd (omega arith)
have_case-short (suc n) (d ∷ ds) [] (k, h) le less =
    rw (have_case, digit_in-digit_char 16 d (omega arith) k) (λ e. cc e)
have_case-short (suc n) (d ∷ ds) (c ∷ cs) (k, h) le less =
    elim (Bool-cases (has_case (digit_char d) c)) [
      | inl same ↦ rw (have_case, same) (have_case-short n ds cs h (omega arith) (omega arith))
      | inr other ↦ rw (have_case, other) (λ e. cc e)
    ]

module _ (host : Host) where
  -- `checkAddressCheckSum` returns on every text as long as an address with its prefix.
  check_address_check_sum-some :
      (t : Text) → length t ≡ 42 → (b : Bool) × (check_address_check_sum host t ≡ some b)
  unfolding check_address_check_sum
  check_address_check_sum-some t size = elim (Bool-cases (has_address_shape t)) [
    | inl shape ↦
        let forty : 40 ≤ length (drop 2 t) = omega (arith, length-drop 2 t) in
        rw shape
          (have_case-some 40 (drop 2 (hash_text host (map lower (drop 2 t)))) (drop 2 t) forty)
    | inr bad ↦ (false, rw bad refl)
  ]

  -- With a hash of 32 bytes, `checkAddressCheckSum` returns true for no text of 40 characters: for
  -- an address without its prefix 0x, whatever the case of its letters, it returns false or throws.
  pub check_address_check_sum-bare :
      (t : Text)
      → ((octets : List ℕ) → All IsByte (host.keccak256 octets))
      → ((octets : List ℕ) → length (host.keccak256 octets) ≡ 32)
      → length t ≡ 40
      → check_address_check_sum host t ≢ some true
  unfolding check_address_check_sum hash_text uint8_array_to_hex_string
  check_address_check_sum-bare t bytes_ size_ size =
      let hash = host.keccak256 (host.utf8_to_bytes (map lower (drop 2 t))) in
      elim (Bool-cases (has_address_shape t)) [
        | inl shape ↦
            let written : bytes_hex hash ≡ map digit_char (nibbles hash) =
              bytes_hex-nibbles hash (bytes_ _) in
            rw (check_address_check_sum, shape, hash_text, uint8_array_to_hex_string, written)
              (have_case-short 40 (nibbles hash) (drop 2 t) (nibbles-All hash (bytes_ _))
                (omega
                  (arith, length-nibbles hash, size_ (host.utf8_to_bytes (map lower (drop 2 t)))))
                (omega (arith, length-drop 2 t)))
        | inr bad ↦ rw (check_address_check_sum, bad) (λ e. cc e)
      ]
