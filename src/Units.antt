-- ===== src/Units.antt =====
-- `ethUnitMap` and `fromWei` of web3-utils/src/converters.ts.
pub mod Parts
pub mod FromWei
use electroneum_web3_js.Base.{
  ℕ, zero, suc, ◌-◌, List, [], ◌∷◌, ◌++◌, Bool, true, false, ◌&&◌, Option, none, some, Result, ok,
  err, ◌>>=◌, ◌>>◌, throw_if, or_throw, if◌then◌else◌, ◌==◌, length, take, drop, pad_start,
}
use electroneum_web3_js.Base.Int.{ℤ, pos, negsuc}
use electroneum_web3_js.Text.{Text, lit, text_eq, is_nil, to_string}

pub data Failure : Type 0 where
  invalid_unit : Failure

-- `ethUnitMap`
abbrev pub eth_unit_map : List (Text × ℕ)
eth_unit_map =
    (lit "noether", 0)
    ∷ (lit "wei", 1)
    ∷ (lit "kwei", 1_000)
    ∷ (lit "Kwei", 1_000)
    ∷ (lit "babbage", 1_000)
    ∷ (lit "femtoether", 1_000)
    ∷ (lit "mwei", 1_000_000)
    ∷ (lit "Mwei", 1_000_000)
    ∷ (lit "lovelace", 1_000_000)
    ∷ (lit "picoether", 1_000_000)
    ∷ (lit "gwei", 1_000_000_000)
    ∷ (lit "Gwei", 1_000_000_000)
    ∷ (lit "shannon", 1_000_000_000)
    ∷ (lit "nanoether", 1_000_000_000)
    ∷ (lit "nano", 1_000_000_000)
    ∷ (lit "szabo", 1_000_000_000_000)
    ∷ (lit "microether", 1_000_000_000_000)
    ∷ (lit "micro", 1_000_000_000_000)
    ∷ (lit "finney", 1_000_000_000_000_000)
    ∷ (lit "milliether", 1_000_000_000_000_000)
    ∷ (lit "milli", 1_000_000_000_000_000)
    ∷ (lit "ether", 1_000_000_000_000_000_000)
    ∷ (lit "kether", 1_000_000_000_000_000_000_000)
    ∷ (lit "grand", 1_000_000_000_000_000_000_000)
    ∷ (lit "mether", 1_000_000_000_000_000_000_000_000)
    ∷ (lit "gether", 1_000_000_000_000_000_000_000_000_000)
    ∷ (lit "tether", 1_000_000_000_000_000_000_000_000_000_000)
    ∷ []

unfoldable pub find_unit : Text → List (Text × ℕ) → Option ℕ
find_unit unit [] = none
find_unit unit ((name, d) ∷ units) = if text_eq name unit then some d else find_unit unit units

-- `!denomination`: the unit is missing, or it is `noether`.
abbrev pub denomination : Text → Option ℕ
denomination unit = elim (find_unit unit eth_unit_map) [
  | none ↦ none
  | some d ↦ if d == 0 then none else some d
]

-- `denomination.toString().length - 1`
abbrev pub number_of_zeros : ℕ → ℕ
number_of_zeros d = length (to_string 10 d) - 1

-- `fraction.replace(/\.?0+$/, '')` on a text without a point.
unfoldable pub strip_zeros : Text → Text
strip_zeros [] = []
strip_zeros (c ∷ t) = let rest = strip_zeros t in if c == b'0' && is_nil rest then [] else c ∷ rest

-- The text of the two parts.
abbrev pub with_point : Text → Text → Text
with_point integer fraction =
    if is_nil integer
    then lit "0." ++ fraction
    else if is_nil fraction
    then integer
    else integer ++ (lit "." ++ fraction)

-- The parts before and behind the point, from the padded text on.
unfoldable pub cut_at : ℕ → Text → Text
cut_at zeros padded =
    let at_point = length padded - zeros in
    with_point (take at_point padded) (strip_zeros (drop at_point padded))

-- `fromWei` of a decimal text, with the zeros of the denomination.
unfoldable pub scale_down : Text → ℕ → Text
scale_down value zeros = if zeros == 0 then value else cut_at zeros (pad_start zeros b'0' value)

-- `String(number)`
abbrev pub decimal_text : ℤ → Text
decimal_text (pos n) = to_string 10 n
decimal_text (negsuc n) = b'-' ∷ to_string 10 (suc n)

-- `fromWei` behind its `toNumber`, for an integer that `String` writes without an exponent.
unfoldable pub from_wei : ℤ → Text → Result Failure Text
from_wei number unit = do
  d ← or_throw (denomination unit) invalid_unit
  ok (scale_down (decimal_text number) (number_of_zeros d))
