-- ===== src/Iban.antt =====
-- web3-eth-iban/src/iban.ts
pub mod Mod97
pub mod Validity
use electroneum_web3_js.Base.{
  ℕ, zero, suc, ◌+◌, ◌-◌, ◌*◌, ◌%◌, List, [], ◌∷◌, ◌++◌, map, Bool, true, false, not, ◌&&◌, ◌||◌,
  Option, none, some, Result, ok, err, ◌>>=◌, ◌>>◌, throw_if, or_throw, if◌then◌else◌, ltb, leb,
  ◌==◌, length, take, drop, all, pad_start,
}
use electroneum_web3_js.Base.Int.{ℤ, pos, negsuc, sub_ℕ, ◌-ℤ◌, pos_part, neg_part}
use electroneum_web3_js.Digits.{value}
use electroneum_web3_js.Text.{
  Text, lit, starts_with, upper, to_string, digit_in, digit_values, is_space, is_hex_strict,
  big_int, pad_left,
}
use electroneum_web3_js.Address.{Host, is_address, to_checksum_address}

-- `endless` stands for a call that does not return.
pub data Failure : Type 0 where
  endless invalid_iban invalid_address not_hex not_a_number indirect : Failure

abbrev pub is_digit : ℕ → Bool
is_digit c = leb b'0' c && leb c b'9'

abbrev pub is_capital : ℕ → Bool
is_capital c = leb b'A' c && leb c b'Z'

abbrev pub is_code : ℕ → Bool
is_code c = is_digit c || is_capital c

-- One character in `_iso13616Prepare`.
unfoldable pub prepare_char : ℕ → Text
prepare_char c = if is_capital c then to_string 10 (c - 65 + 10) else c ∷ []

unfoldable pub prepare_chars : Text → Text
prepare_chars [] = []
prepare_chars (c ∷ t) = prepare_char c ++ prepare_chars t

-- `_iso13616Prepare`
unfoldable pub iso13616_prepare : Text → Text
iso13616_prepare iban =
    let upper_iban = map upper iban in prepare_chars (drop 4 upper_iban ++ take 4 upper_iban)

-- The digits that `parseInt(t, 10)` reads.
unfoldable pub leading_digits : Text → List ℕ
leading_digits [] = []
leading_digits (c ∷ t) = elim (digit_in 10 c) [ none ↦ [] | some d ↦ d ∷ leading_digits t ]

unfoldable pub skip_spaces : Text → Text
skip_spaces [] = []
skip_spaces (c ∷ t) = let rest = skip_spaces t in if is_space c then rest else c ∷ t

abbrev pub decimal : Bool → List ℕ → Option ℤ
decimal negative [] = none
decimal true (d ∷ ds) = some (sub_ℕ 0 (value 10 (d ∷ ds)))
decimal false (d ∷ ds) = some (pos (value 10 (d ∷ ds)))

-- `parseInt(t, 10)`; `none` is NaN.
unfoldable pub parse_int : Text → Option ℤ
parse_int t =
    let s = skip_spaces t in
    if starts_with (lit "-") s
    then decimal true (leading_digits (drop 1 s))
    else decimal false (leading_digits (if starts_with (lit "+") s then drop 1 s else s))

-- `n % 97`, with the sign of `n`.
abbrev pub mod_97 : Option ℤ → Option ℤ
mod_97 none = none
mod_97 (some (pos n)) = some (pos (n % 97))
mod_97 (some (negsuc n)) = some (sub_ℕ 0 (suc n % 97))

-- `n.toString()`
abbrev pub show : Option ℤ → Text
show none = lit "NaN"
show (some (pos n)) = to_string 10 n
show (some (negsuc n)) = b'-' ∷ to_string 10 (suc n)

-- One round of the loop of `_mod9710`.
unfoldable pub after_block : Text → Text → Text
after_block block remainder = show (mod_97 (parse_int block)) ++ drop (length block) remainder

abbrev pub next_remainder : Text → Text
next_remainder remainder = after_block (take 9 remainder) remainder

-- `_mod9710` in at most `fuel` rounds; `none` if that is not enough. The result may be NaN.
unfoldable pub mod_9710_loop : ℕ → Text → Option (Option ℤ)
mod_9710_loop zero remainder = none
mod_9710_loop (suc fuel) remainder = elim (ltb 2 (length remainder)) [
  | true ↦ mod_9710_loop fuel (next_remainder remainder)
  | false ↦ some (mod_97 (parse_int remainder))
]

-- `_mod9710`, with a round for each character.
unfoldable pub mod_9710 : Text → Option (Option ℤ)
mod_9710 iban = mod_9710_loop (suc (length iban)) iban

-- `/^XE[0-9]{2}(ETH[0-9A-Z]{13}|[0-9A-Z]{30,31})$/`
unfoldable pub has_iban_shape : Text → Bool
has_iban_shape iban =
    let body = drop 4 iban in
    starts_with (lit "XE") iban
    && length (take 2 (drop 2 iban)) == 2
    && all is_digit (take 2 (drop 2 iban))
    && all is_code body
    && (starts_with (lit "ETH") body && length body == 16 || length body == 30 || length body == 31)

abbrev pub is_one : Option (Option ℤ) → Bool
is_one (some (some (pos n))) = n == 1
is_one _ = false

-- `Iban.isValid`
unfoldable pub is_valid : Text → Bool
is_valid iban = has_iban_shape iban && is_one (mod_9710 (iso13616_prepare iban))

-- `Iban.isDirect`, `Iban.isIndirect`
abbrev pub is_direct : Text → Bool
is_direct iban = length iban == 34 || length iban == 35

abbrev pub is_indirect : Text → Bool
is_indirect iban = length iban == 20

-- The constructor: the object is the string it holds.
unfoldable pub new_iban : Text → Result Failure Text
new_iban iban = if is_indirect iban || is_direct iban then ok iban else err invalid_iban

abbrev pub last_two : Text → Text
last_two t = drop (length t - 2) t

abbrev pub minus_from_98 : Option ℤ → Option ℤ
minus_from_98 none = none
minus_from_98 (some z) = some (pos 98 -ℤ z)

-- `fromBban`
unfoldable pub from_bban : Text → Result Failure Text
from_bban bban = do
  remainder ← or_throw (mod_9710 (iso13616_prepare (lit "XE00" ++ bban))) endless
  new_iban (lit "XE" ++ (last_two (b'0' ∷ show (minus_from_98 remainder)) ++ bban))

-- `createIndirect`
unfoldable pub create_indirect : Text → Text → Result Failure Text
create_indirect institution identifier = from_bban (lit "ETH" ++ (institution ++ identifier))

-- `client`, `checksum`, `institution`
abbrev pub client : Text → Text
client iban = if is_indirect iban then drop 11 iban else []

abbrev pub checksum : Text → Text
checksum iban = take 2 (drop 2 iban)

abbrev pub institution : Text → Text
institution iban = if is_indirect iban then take 4 (drop 7 iban) else []

-- `[...str].reduce((acc, curr) => BigInt(parseInt(curr, base)) + BigInt(base) * acc, BigInt(0))`;
-- `none` is the RangeError of `BigInt(NaN)`.
unfoldable pub parse_big_int : Text → ℕ → Option ℕ
parse_big_int t base = elim (digit_values base t) [ none ↦ none | some ds ↦ some (value base ds) ]

module _ (host : Host) where
  -- `fromAddress`
  unfoldable pub from_address : Text → Result Failure Text
  from_address address = do
    throw_if (not (is_address host address true)) invalid_address
    throw_if (not (is_hex_strict address)) not_hex
    num ← or_throw (big_int address) not_hex
    from_bban (map upper (pad_left (to_string 36 num) 15))

  -- `toAddress`
  unfoldable pub to_address : Text → Result Failure Text
  to_address iban = do
    object ← new_iban iban
    throw_if (not (is_direct object)) indirect
    num ← or_throw (parse_big_int (drop 4 object) 36) not_a_number
    or_throw (to_checksum_address host (pad_left (lit "0x" ++ to_string 16 num) 40)) invalid_address
