-- ===== src/Common/Params.antt =====
-- web3-eth-accounts/src/common/common.ts: the order of hardforks, the parameters that hardforks and
-- EIPs set, and the active EIPs.
use electroneum_web3_js.Base.{
  ℕ, ◌+◌, List, [], ◌∷◌, Bool, true, false, not, ◌&&◌, ◌||◌, Option, none, some, Result, ok, err,
  ◌>>=◌, ◌>>◌, throw_if, or_throw, if◌then◌else◌, leb, ◌==◌,
}
use electroneum_web3_js.Text.{Text, lit, text_eq}
use electroneum_web3_js.Dict.{text_key, number_key, lookup}
use electroneum_web3_js.Common.{
  Hardfork, Consensus, Amount, amount, null, amounts, discounts, Spec, CommonError,
  eip_not_supported, topic_not_defined, below_minimum_hardfork, required_eip, type_error,
  syntax_error, Common,
}
use electroneum_web3_js.Common.Tables.Eips.{eip_of}

-- `list.includes(n)`
abbrev pub includes : ℕ → List ℕ → Bool
includes n [] = false
includes n (m ∷ ms) = m == n || includes n ms

-- `name ?? this._hardfork`
abbrev pub or_set : Common → Option Text → Text
or_set c none = c.hardfork
or_set c (some name) = name

abbrev find_hardfork : Text → List Hardfork → Option Hardfork
find_hardfork name [] = none
find_hardfork name (hf ∷ hfs) = if text_eq hf.name name then some hf else find_hardfork name hfs

unfoldable pub get_hardfork : Common → Text → Option Hardfork
get_hardfork c name = find_hardfork name c.chain.hardforks

-- The loop of `hardforkGteHardfork` for one name; `none` is -1.
unfoldable pub place_of : Text → List Hardfork → ℕ → Option ℕ → Option ℕ
place_of name [] index place = place
place_of name (hf ∷ hfs) index place =
    place_of name hfs (index + 1) (if text_eq hf.name name then some index else place)

-- `posHf1 >= posHf2 && posHf2 !== -1`
abbrev pub not_before : Option ℕ → Option ℕ → Bool
not_before place₁ none = false
not_before none (some j) = false
not_before (some i) (some j) = leb j i

unfoldable pub hardfork_gte_hardfork : Common → Option Text → Text → Bool
hardfork_gte_hardfork c hardfork₁ hardfork₂ =
    not_before (place_of (or_set c hardfork₁) c.chain.hardforks 0 none)
      (place_of hardfork₂ c.chain.hardforks 0 none)

abbrev pub gte_hardfork : Common → Text → Bool
gte_hardfork c hardfork = hardfork_gte_hardfork c none hardfork

abbrev block_of : Option Hardfork → Option ℕ
block_of none = none
block_of (some hf) = hf.block

unfoldable pub hardfork_block : Common → Option Text → Option ℕ
hardfork_block c hardfork = block_of (get_hardfork c (or_set c hardfork))

-- `BigInt(v)`, where `null` is undefined too: an array is read as the text of its elements with commas between them.
unfoldable pub big_int_of : Amount → Result CommonError ℕ
big_int_of (amount n) = ok n
big_int_of null = err type_error
big_int_of (amounts []) = ok 0
big_int_of (amounts (n ∷ [])) = ok n
big_int_of (amounts (m ∷ n ∷ ns)) = err syntax_error
big_int_of (discounts []) = ok 0
big_int_of (discounts (d ∷ ds)) = err syntax_error

abbrev big_int_option : Option Amount → Result CommonError (Option ℕ)
big_int_option none = ok none
big_int_option (some v) = do n ← big_int_of v; ok (some n)

-- What every object inherits from Object.prototype. None of these has a member `v`.
abbrev inherited : List Text
inherited =
    lit "constructor"
    ∷ lit "toString"
    ∷ lit "toLocaleString"
    ∷ lit "valueOf"
    ∷ lit "hasOwnProperty"
    ∷ lit "isPrototypeOf"
    ∷ lit "propertyIsEnumerable"
    ∷ lit "__proto__"
    ∷ lit "__defineGetter__"
    ∷ lit "__defineSetter__"
    ∷ lit "__lookupGetter__"
    ∷ lit "__lookupSetter__"
    ∷ []

abbrev pub has_member : Text → List Text → Bool
has_member param [] = false
has_member param (member ∷ members) = text_eq member param || has_member param members

unfoldable pub is_inherited : Text → Bool
is_inherited name = has_member name inherited

-- `params[name]` with its `.v`: `none` where there is no member, and `null` where the member is
-- inherited, whose `.v` is undefined.
unfoldable pub value_of : Text → List (Text × Amount) → Option Amount
value_of name params = elim (lookup name params) [
  | some v ↦ some v
  | none ↦ if is_inherited name then some null else none
]

-- `none` is undefined.
unfoldable pub param_by_eip : Text → Text → ℕ → Result CommonError (Option ℕ)
param_by_eip topic name eip = do
  eip_params ← or_throw (eip_of eip) (eip_not_supported eip)
  params ← or_throw (lookup topic eip_params.topics) (topic_not_defined topic)
  big_int_option (value_of name params)

-- `typeof valueEIP === 'bigint' ? valueEIP : value`
abbrev amount_or : Option ℕ → Amount → Amount
amount_or none value = value
amount_or (some n) value = amount n

unfoldable pub param_by_eips : Text → Text → List ℕ → Amount → Result CommonError Amount
param_by_eips topic name [] value = ok value
param_by_eips topic name (eip ∷ eips) value = do
  found ← param_by_eip topic name eip
  param_by_eips topic name eips (amount_or found value)

abbrev value_or : Option Amount → Amount → Amount
value_or none value = value
value_or (some v) value = v

-- One round of the loop of `paramByHardfork`; a hardfork without a table throws at `'eips' in`.
unfoldable pub change_value : Text → Text → Option Spec → Amount → Result CommonError Amount
change_value topic name none value = err type_error
change_value topic name (some spec) value = elim spec.eips [
  | some eips ↦ param_by_eips topic name eips value
  | none ↦ (do
    params ← or_throw (lookup topic spec.topics) (topic_not_defined topic)
    ok (value_or (value_of name params) value))
]

unfoldable pub param_loop :
    Text → Text → Text → List (Text × Option Spec) → Amount → Result CommonError Amount
param_loop topic name hardfork [] value = ok value
param_loop topic name hardfork ((hf, spec) ∷ changes) value = do
  changed ← change_value topic name spec value
  elim (text_eq hf hardfork) [
    | true ↦ ok changed
    | false ↦ param_loop topic name hardfork changes changed
  ]

-- `BigInt(value ?? 0)`
unfoldable pub big_int_or_zero : Amount → Result CommonError ℕ
big_int_or_zero null = ok 0
big_int_or_zero value = big_int_of value

unfoldable pub param_by_hardfork : Common → Text → Text → Text → Result CommonError ℕ
param_by_hardfork c topic name hardfork = do
  value ← param_loop topic name hardfork c.changes null
  big_int_or_zero value

abbrev or_else : Option ℕ → Result CommonError ℕ → Result CommonError ℕ
or_else none other = other
or_else (some n) other = ok n

abbrev param_in : Common → Text → Text → List ℕ → Result CommonError ℕ
param_in c topic name [] = param_by_hardfork c topic name c.hardfork
param_in c topic name (eip ∷ eips) = do
  value ← param_by_eip topic name eip
  or_else value (param_in c topic name eips)

unfoldable pub param : Common → Text → Text → Result CommonError ℕ
param c topic name = param_in c topic name c.eips

abbrev pub eips_or_none : Option (List ℕ) → List ℕ
eips_or_none none = []
eips_or_none (some eips) = eips

-- The loop of `isActivatedEIP`; `hf.name` throws for a hardfork without a table.
unfoldable pub activated_in : Common → ℕ → List (Text × Option Spec) → Result CommonError Bool
activated_in c eip [] = ok false
activated_in c eip ((hf, none) ∷ changes) = err type_error
activated_in c eip ((hf, some spec) ∷ changes) =
    elim (gte_hardfork c spec.name && includes eip (eips_or_none spec.eips)) [
      | true ↦ ok true
      | false ↦ activated_in c eip changes
    ]

unfoldable pub is_activated_eip : Common → ℕ → Result CommonError Bool
is_activated_eip c eip = if includes eip c.eips then ok true else activated_in c eip c.changes

unfoldable pub eip_block_in : Common → ℕ → List (Text × Option Spec) → Result CommonError (Option ℕ)
eip_block_in c eip [] = ok none
eip_block_in c eip ((hf, none) ∷ changes) = err type_error
eip_block_in c eip ((hf, some spec) ∷ changes) = elim (includes eip (eips_or_none spec.eips)) [
  | true ↦ ok (hardfork_block c (some hf))
  | false ↦ eip_block_in c eip changes
]

unfoldable pub eip_block : Common → ℕ → Result CommonError (Option ℕ)
eip_block c eip = eip_block_in c eip c.changes

-- The loops of `setEIPs`: over the EIPs that one requires, and over the EIPs.
unfoldable pub check_required : Common → List ℕ → ℕ → List ℕ → Result CommonError (Unit {0})
check_required c eips eip [] = ok tt
check_required c eips eip (elem ∷ elems) = do
  included ← (if includes elem eips then ok true else is_activated_eip c elem)
  throw_if (not included) (required_eip eip elem)
  check_required c eips eip elems

unfoldable pub check_eips : Common → List ℕ → List ℕ → Result CommonError (Unit {0})
check_eips c all_eips [] = ok tt
check_eips c all_eips (eip ∷ eips) = do
  eip_params ← or_throw (eip_of eip) (eip_not_supported eip)
  throw_if (not (gte_hardfork c eip_params.minimum_hardfork)) (below_minimum_hardfork eip)
  check_required c all_eips eip (eips_or_none eip_params.required_eips)
  check_eips c all_eips eips

unfoldable pub set_eips : Common → List ℕ → Result CommonError Common
set_eips c eips = check_eips c eips eips >> ok (record c { eips = eips })

-- `none` where the hardfork does not change the consensus.
abbrev consensus_value : Option Consensus → Option Consensus → Option Consensus
consensus_value none value = value
consensus_value (some consensus) value = some consensus

-- The loops of `consensusType` and `consensusAlgorithm`.
abbrev consensus_in :
    Text → List (Text × Option Spec) → Option Consensus → Result CommonError (Option Consensus)
consensus_in hardfork [] value = ok value
consensus_in hardfork ((hf, none) ∷ changes) value = err type_error
consensus_in hardfork ((hf, some spec) ∷ changes) value = elim (text_eq hf hardfork) [
  | true ↦ ok (consensus_value spec.consensus value)
  | false ↦ consensus_in hardfork changes (consensus_value spec.consensus value)
]

abbrev consensus_or : Option Consensus → Consensus → Consensus
consensus_or none other = other
consensus_or (some consensus) other = consensus

unfoldable pub consensus_type : Common → Result CommonError Text
consensus_type c = do
  value ← consensus_in c.hardfork c.changes none
  ok (consensus_or value c.chain.consensus).kind

unfoldable pub consensus_algorithm : Common → Result CommonError Text
consensus_algorithm c = do
  value ← consensus_in c.hardfork c.changes none
  ok (consensus_or value c.chain.consensus).algorithm

-- `consensus[consensus.algorithm]`, which replaces the value where the hardfork has a consensus.
abbrev config_value : Option Consensus → Option (List (Text × ℕ)) → Option (List (Text × ℕ))
config_value none value = value
config_value (some consensus) value = lookup consensus.algorithm consensus.configs

abbrev config_in :
    Text
    → List (Text × Option Spec)
    → Option (List (Text × ℕ))
    → Result CommonError (Option (List (Text × ℕ)))
config_in hardfork [] value = ok value
config_in hardfork ((hf, none) ∷ changes) value = err type_error
config_in hardfork ((hf, some spec) ∷ changes) value = elim (text_eq hf hardfork) [
  | true ↦ ok (config_value spec.consensus value)
  | false ↦ config_in hardfork changes (config_value spec.consensus value)
]

abbrev config_or : Option (List (Text × ℕ)) → List (Text × ℕ) → List (Text × ℕ)
config_or none other = other
config_or (some config) other = config

unfoldable pub consensus_config : Common → Result CommonError (List (Text × ℕ))
consensus_config c = do
  value ← config_in c.hardfork c.changes none
  algorithm ← consensus_algorithm c
  ok (config_or value (config_or (lookup algorithm c.chain.consensus.configs) []))

abbrev timestamp_of : Option Hardfork → Option ℕ
timestamp_of none = none
timestamp_of (some hf) = hf.timestamp

abbrev ttd_of : Option Hardfork → Option ℕ
ttd_of none = none
ttd_of (some hf) = hf.ttd

unfoldable pub hardfork_timestamp : Common → Option Text → Option ℕ
hardfork_timestamp c hardfork = timestamp_of (get_hardfork c (or_set c hardfork))

unfoldable pub hardfork_ttd : Common → Option Text → Option ℕ
hardfork_ttd c hardfork = ttd_of (get_hardfork c (or_set c hardfork))
