-- ===== src/Transaction.antt =====
-- web3-eth/src/validation.ts: the checks of a transaction before it is signed.
pub mod Gas
pub mod Shape
pub mod Kind
pub mod Detect
use electroneum_web3_js.Base.{
  ℕ, List, [], ◌∷◌, Bool, true, false, not, ◌&&◌, ◌||◌, Option, none, some, Result, ok, err, ◌>>=◌,
  ◌>>◌, throw_if, if◌then◌else◌, ltb, ◌==◌, ◌^◌,
}
use electroneum_web3_js.Base.Int.{ℤ, pos, negsuc}
use electroneum_web3_js.Text.{Text, lit, text_eq}

-- `isNullish`
abbrev pub is_nullish {ℓ} : {A : Type ℓ} → Option A → Bool
is_nullish none = true
is_nullish (some a) = false

-- `isUInt` of a number, for the type uint.
unfoldable pub is_uint : ℤ → Bool
is_uint (pos n) = ltb n (2 ^ 256)
is_uint (negsuc n) = false

-- `isNullish(n) || !isUInt(n)`
abbrev pub no_uint : Option ℤ → Bool
no_uint none = true
no_uint (some z) = not (is_uint z)

-- `s > t`: the first character that differs decides.
abbrev pub text_gt : Text → Text → Bool
text_gt [] t = false
text_gt (c ∷ s) [] = true
text_gt (c ∷ s) (d ∷ t) = ltb d c || (c == d && text_gt s t)

abbrev pub type_is : Option Text → Text → Bool
type_is none t = false
type_is (some s) t = text_eq s t

pub record CustomChain : Type 0 where
  pub chain_id : Option ℤ

pub record TransactionCommon : Type 0 where
  pub custom_chain : Option CustomChain
  pub base_chain : Option Text
  pub hardfork : Option Text

-- The members that the checks read. Numbers are integers, also where `formatTransaction` has made
-- hexadecimal strings of them; the type is its string.
pub record Transaction : Type 0 where
  pub kind : Option Text
  pub nonce : Option ℤ
  pub gas : Option ℤ
  pub gas_limit : Option ℤ
  pub gas_price : Option ℤ
  pub max_fee_per_gas : Option ℤ
  pub max_priority_fee_per_gas : Option ℤ
  pub has_access_list : Bool
  pub chain_id : Option ℤ
  pub chain : Option Text
  pub hardfork : Option Text
  pub common : Option TransactionCommon

pub data TransactionError : Type 0 where
  missing_custom_chain : TransactionError
  missing_custom_chain_id : TransactionError
  chain_id_mismatch : TransactionError
  common_or_chain_and_hardfork : TransactionError
  missing_chain_or_hardfork : TransactionError
  chain_mismatch : TransactionError
  hardfork_mismatch : TransactionError
  invalid_gas_or_gas_price : TransactionError
  unsupported_fee_market : TransactionError
  eip1559_gas_price : TransactionError
  invalid_fees : TransactionError
  missing_gas : TransactionError
  gas_mismatch : TransactionError
  invalid_nonce_or_chain_id : TransactionError
  invalid_transaction_object : TransactionError
  invalid_properties_for_type : Text → TransactionError
  invalid_type : TransactionError

abbrev ℤ_eq : ℤ → ℤ → Bool
ℤ_eq (pos m) (pos n) = m == n
ℤ_eq (pos m) (negsuc n) = false
ℤ_eq (negsuc m) (pos n) = false
ℤ_eq (negsuc m) (negsuc n) = m == n

-- Both are given, and they differ.
abbrev pub mismatch : Option Text → Option Text → Bool
mismatch none t = false
mismatch (some s) none = false
mismatch (some s) (some t) = not (text_eq s t)

abbrev pub id_mismatch : Option ℤ → ℤ → Bool
id_mismatch none id = false
id_mismatch (some z) id = not (ℤ_eq z id)

abbrev check_custom_chain : Transaction → Option CustomChain → Result TransactionError (Unit {0})
check_custom_chain tx none = err missing_custom_chain
check_custom_chain tx (some custom) = elim custom.chain_id [
  | none ↦ err missing_custom_chain_id
  | some id ↦ throw_if (id_mismatch tx.chain_id id) chain_id_mismatch
]

unfoldable pub validate_custom_chain_info : Transaction → Result TransactionError (Unit {0})
validate_custom_chain_info tx = elim tx.common [
  | none ↦ ok tt
  | some common ↦ check_custom_chain tx common.custom_chain
]

unfoldable pub validate_chain_info : Transaction → Result TransactionError (Unit {0})
validate_chain_info tx = do
  throw_if (not (is_nullish tx.common) && not (is_nullish tx.chain) && not (is_nullish tx.hardfork))
      common_or_chain_and_hardfork
  throw_if
      (not (is_nullish tx.chain) && is_nullish tx.hardfork
        || not (is_nullish tx.hardfork) && is_nullish tx.chain)
      missing_chain_or_hardfork

unfoldable pub validate_base_chain : Transaction → Result TransactionError (Unit {0})
validate_base_chain tx = elim tx.common [
  | none ↦ ok tt
  | some common ↦ throw_if (mismatch common.base_chain tx.chain) chain_mismatch
]

unfoldable pub validate_hardfork : Transaction → Result TransactionError (Unit {0})
validate_hardfork tx = elim tx.common [
  | none ↦ ok tt
  | some common ↦ throw_if (mismatch common.hardfork tx.hardfork) hardfork_mismatch
]

unfoldable pub validate_legacy_gas : Transaction → Result TransactionError (Unit {0})
validate_legacy_gas tx = do
  throw_if (no_uint tx.gas || no_uint tx.gas_price) invalid_gas_or_gas_price
  throw_if (not (is_nullish tx.max_fee_per_gas) || not (is_nullish tx.max_priority_fee_per_gas))
      unsupported_fee_market

unfoldable pub validate_fee_market_gas : Transaction → Result TransactionError (Unit {0})
validate_fee_market_gas tx = do
  throw_if (not (is_nullish tx.gas_price) && type_is tx.kind (lit "0x2")) eip1559_gas_price
  throw_if (type_is tx.kind (lit "0x0") || type_is tx.kind (lit "0x1")) unsupported_fee_market
  throw_if (no_uint tx.max_fee_per_gas || no_uint tx.max_priority_fee_per_gas) invalid_fees

-- `!isNullish(type) && type > '0x1'`
abbrev pub is_above_1 : Option Text → Bool
is_above_1 none = false
is_above_1 (some t) = text_gt t (lit "0x1")

abbrev pub gas_present : Transaction → Bool
gas_present tx = not (is_nullish tx.gas) || not (is_nullish tx.gas_limit)

abbrev pub legacy_gas_present : Transaction → Bool
legacy_gas_present tx = gas_present tx && not (is_nullish tx.gas_price)

abbrev pub fee_market_gas_present : Transaction → Bool
fee_market_gas_present tx =
    gas_present tx
    && not (is_nullish tx.max_priority_fee_per_gas)
    && not (is_nullish tx.max_fee_per_gas)

unfoldable pub validate_gas : Transaction → Result TransactionError (Unit {0})
validate_gas tx = do
  throw_if (not (legacy_gas_present tx) && not (fee_market_gas_present tx)) missing_gas
  throw_if (legacy_gas_present tx && fee_market_gas_present tx) gas_mismatch
  (if legacy_gas_present tx then validate_legacy_gas tx else validate_fee_market_gas tx)
  (if is_above_1 tx.kind then validate_fee_market_gas tx else validate_legacy_gas tx)

-- `isNullish(n) || n.startsWith('-')`
abbrev pub no_natural : Option ℤ → Bool
no_natural none = true
no_natural (some (pos n)) = false
no_natural (some (negsuc n)) = true

-- `validateTransactionForSigning` of an object, without an override, over `formatTransaction`.
unfoldable pub validate_transaction_for_signing :
    (Transaction → Result TransactionError Transaction)
    → Transaction
    → Result TransactionError (Unit {0})
validate_transaction_for_signing format_transaction tx = do
  validate_custom_chain_info tx
  validate_chain_info tx
  validate_base_chain tx
  validate_hardfork tx
  formatted ← format_transaction tx
  validate_gas formatted
  throw_if (no_natural formatted.nonce || no_natural formatted.chain_id) invalid_nonce_or_chain_id
