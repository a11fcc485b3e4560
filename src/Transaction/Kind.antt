-- ===== src/Transaction/Kind.antt =====
-- web3-eth/src/utils/detect_transaction_type.ts: the type of a transaction from its members. The
-- schemas ask members to be null or undefined.
use electroneum_web3_js.Base.{
  ℕ, suc, List, [], ◌∷◌, ◌++◌, Bool, true, false, not, ◌&&◌, ◌||◌, Option, none, some, Result, ok,
  ◌>>=◌, ◌>>◌, throw_if, or_throw, if◌then◌else◌, ltb, leb, ◌==◌,
}
use electroneum_web3_js.Text.{Text, lit, text_eq, to_string, big_int}
use electroneum_web3_js.Transaction.{
  Transaction, TransactionCommon, TransactionError, invalid_properties_for_type, invalid_type,
  is_nullish,
}

-- Do the members that the schema of a type lists have no value?
abbrev pub schema_holds_0 : Transaction → Bool
schema_holds_0 tx =
    not tx.has_access_list
    && is_nullish tx.max_fee_per_gas
    && is_nullish tx.max_priority_fee_per_gas

abbrev pub schema_holds_1 : Transaction → Bool
schema_holds_1 tx = is_nullish tx.max_fee_per_gas && is_nullish tx.max_priority_fee_per_gas

abbrev pub schema_holds_2 : Transaction → Bool
schema_holds_2 tx = is_nullish tx.gas_price

abbrev pub type_0 : Text
type_0 = lit "0x0"

abbrev pub type_1 : Text
type_1 = lit "0x1"

abbrev pub type_2 : Text
type_2 = lit "0x2"

-- `validateTxTypeAndHandleErrors`, and the type where the members fit.
abbrev pub validated : Bool → Text → Result TransactionError (Option Text)
validated holds kind = throw_if (not holds) (invalid_properties_for_type kind) >> ok (some kind)

-- `format({ format: 'uint' }, type, ETH_DATA_FORMAT)` of a string without a sign.
unfoldable pub format_uint : Text → Result TransactionError (Option Text)
format_uint t = do n ← or_throw (big_int t) invalid_type; ok (some (lit "0x" ++ to_string 16 n))

-- The type is given.
unfoldable pub given_type : Transaction → Text → Result TransactionError (Option Text)
given_type tx t =
    if text_eq t type_0
    then validated (schema_holds_0 tx) type_0
    else if text_eq t type_1
    then validated (schema_holds_1 tx) type_1
    else if text_eq t type_2
    then validated (schema_holds_2 tx) type_2
    else format_uint t

-- `HardforksOrdered`
abbrev pub hardforks_ordered : List Text
hardforks_ordered =
    lit "chainstart"
    ∷ lit "frontier"
    ∷ lit "homestead"
    ∷ lit "dao"
    ∷ lit "tangerineWhistle"
    ∷ lit "spuriousDragon"
    ∷ lit "byzantium"
    ∷ lit "constantinople"
    ∷ lit "petersburg"
    ∷ lit "istanbul"
    ∷ lit "muirGlacier"
    ∷ lit "berlin"
    ∷ lit "london"
    ∷ lit "altair"
    ∷ lit "arrowGlacier"
    ∷ lit "grayGlacier"
    ∷ lit "bellatrix"
    ∷ lit "merge"
    ∷ lit "capella"
    ∷ lit "shanghai"
    ∷ []

-- `indexOf`; `none` is -1.
abbrev pub index_of : Text → List Text → Option ℕ
index_of name [] = none
index_of name (t ∷ ts) = elim (text_eq t name) [
  | true ↦ some 0
  | false ↦ elim (index_of name ts) [ none ↦ none | some i ↦ some (suc i) ]
]

abbrev common_hardfork : Option TransactionCommon → Option Text
common_hardfork none = none
common_hardfork (some common) = common.hardfork

-- `tx.hardfork ?? tx.common?.hardfork`
abbrev pub given_hardfork : Transaction → Option Text
given_hardfork tx = elim tx.hardfork [ none ↦ common_hardfork tx.common | some name ↦ some name ]

-- The type that the hardfork tells; london has the index 12 and berlin 11.
abbrev pub hardfork_type : Transaction → Option Text → Option Text
hardfork_type tx none = none
hardfork_type tx (some name) = elim (index_of name hardforks_ordered) [
  | none ↦ none
  | some i ↦
      if leb 12 i
      then some (if is_nullish tx.gas_price then type_2 else type_0)
      else if i == 11
      then some type_0
      else none
]

abbrev pub price_type : Transaction → Result TransactionError (Option Text)
price_type tx = if is_nullish tx.gas_price then ok none else validated (schema_holds_0 tx) type_0

-- The type is not given.
unfoldable pub inferred_type : Transaction → Result TransactionError (Option Text)
inferred_type tx =
    if not (is_nullish tx.max_fee_per_gas) || not (is_nullish tx.max_priority_fee_per_gas)
    then validated (schema_holds_2 tx) type_2
    else if tx.has_access_list
    then validated (schema_holds_1 tx) type_1
    else elim (hardfork_type tx (given_hardfork tx)) [
      | some kind ↦ ok (some kind)
      | none ↦ price_type tx
    ]

unfoldable pub default_transaction_type_parser : Transaction → Result TransactionError (Option Text)
default_transaction_type_parser tx = elim tx.kind [
  | some t ↦ given_type tx t
  | none ↦ inferred_type tx
]

-- The parser of the context goes first.
unfoldable pub detect_transaction_type :
    Option (Transaction → Result TransactionError (Option Text))
    → Transaction
    → Result TransactionError (Option Text)
detect_transaction_type none tx = default_transaction_type_parser tx
detect_transaction_type (some parser) tx = parser tx

-- `detectRawTransactionType` of the first byte.
unfoldable pub detect_raw_transaction_type : ℕ → Text
detect_raw_transaction_type b = if ltb 0x7f b then type_0 else lit "0x" ++ to_string 16 b
