-- ===== src/Address.antt =====
-- Checksum addresses: web3-validator/src/validation/address.ts and `toChecksumAddress` of
-- web3-utils/src/converters.ts. The hash and the UTF-8 codec come from the package
-- ethereum-cryptography and stay parameters.
pub mod Checksum
pub mod Bare
use electroneum_web3_js.Base.{
  ℕ, zero, suc, ◌<◌, List, [], ◌∷◌, ◌++◌, map, Bool, true, false, not, ◌&&◌, ◌||◌, Option, none,
  some, if◌then◌else◌, ltb, leb, ◌==◌, length, all, drop, All,
}
use electroneum_web3_js.Text.{
  Text, lit, text_eq, lower, upper, has_0x, digit_in, is_hex_digit, is_hex_strict,
  uint8_array_to_hex_string,
}

-- What the packages take from ethereum-cryptography: `keccak256`, `utf8ToBytes`, `bytesToUtf8`.
-- The two that return a Uint8Array return bytes.
pub record Host : Type 0 where
  pub keccak256 : List ℕ → List ℕ
  pub utf8_to_bytes : Text → List ℕ
  pub bytes_to_utf8 : List ℕ → Text
  pub utf8_to_bytes-All : (t : Text) → All (λ b. b < 256) (utf8_to_bytes t)

-- `value.replace(/^0x/i, '')`
abbrev pub drop_0x : Text → Text
drop_0x t = if has_0x t then drop 2 t else t

-- `/^(0x)?[0-9a-f]{40}$/i`
unfoldable pub has_address_shape : Text → Bool
has_address_shape t = length (drop_0x t) == 40 && all is_hex_digit (drop_0x t)

abbrev pub is_lower_hex : ℕ → Bool
is_lower_hex c = leb b'0' c && leb c b'9' || leb b'a' c && leb c b'f'

abbrev pub is_upper_hex : ℕ → Bool
is_upper_hex c = leb b'0' c && leb c b'9' || leb b'A' c && leb c b'F'

-- The test of one letter against one digit of the hash.
unfoldable pub has_case : ℕ → ℕ → Bool
has_case h c = elim (digit_in 16 h) [
  | none ↦ true
  | some d ↦ if ltb 7 d then upper c == c else lower c == c
]

-- The rounds of the loop, with what is left of the hash and of the address. A digit of the hash
-- without a letter of the address is the TypeError, `none`.
unfoldable pub have_case : ℕ → Text → Text → Option Bool
have_case zero hash cs = some true
have_case (suc n) [] cs = some true
have_case (suc n) (h ∷ hs) [] = elim (digit_in 16 h) [ none ↦ have_case n hs [] | some d ↦ none ]
have_case (suc n) (h ∷ hs) (c ∷ cs) =
    let rest = have_case n hs cs in if has_case h c then rest else some false

-- One letter of a checksum address.
unfoldable pub set_case : ℕ → ℕ → ℕ
set_case h c = elim (digit_in 16 h) [ none ↦ c | some d ↦ if ltb 7 d then upper c else c ]

unfoldable pub set_cases : Text → Text → Text
set_cases hash [] = []
set_cases [] (c ∷ cs) = c ∷ cs
set_cases (h ∷ hs) (c ∷ cs) = set_case h c ∷ set_cases hs cs

abbrev is_true : Option Bool → Bool
is_true none = false
is_true (some b) = b

-- The hash of no data, for which `toChecksumAddress` returns the empty string.
abbrev pub empty_hash : Text
empty_hash = lit "0xc5d2460186f7233c927e7db2dcc703c0e500b653ca82273b7bfad8045d85a470"

module _ (host : Host) where
  -- `uint8ArrayToHexString(keccak256(utf8ToBytes(text)))`
  unfoldable pub hash_text : Text → Text
  hash_text t = uint8_array_to_hex_string (host.keccak256 (host.utf8_to_bytes t))

  -- `checkAddressCheckSum`, which drops two characters whether they are the prefix 0x or digits.
  unfoldable pub check_address_check_sum : Text → Option Bool
  check_address_check_sum t =
      if has_address_shape t
      then have_case 40 (drop 2 (hash_text (map lower (drop 2 t)))) (drop 2 t)
      else some false

  -- `isAddress` on a string. The text that it checks has the prefix 0x, so that the check returns.
  unfoldable pub is_address : Text → Bool → Bool
  is_address value check_checksum =
      let t = if is_hex_strict value || has_0x value then value else lit "0x" ++ value in
      if has_address_shape t
      then if all is_lower_hex (drop_0x t) || all is_upper_hex (drop_0x t)
        then true
        else if check_checksum
        then is_true (check_address_check_sum t)
        else true
      else false

  -- The checksum form of an address, empty if its hash is that of no data.
  unfoldable pub checksum_form : Text → Text
  checksum_form address =
      let bare = drop_0x (map lower address) in
      let hash = hash_text bare in
      if text_eq hash empty_hash then [] else lit "0x" ++ set_cases (drop_0x hash) bare

  -- `toChecksumAddress`; `none` is the InvalidAddressError.
  unfoldable pub to_checksum_address : Text → Option Text
  to_checksum_address address =
      if is_address address false then some (checksum_form address) else none
