-- ===== src/Common.antt =====
-- web3-eth-accounts/src/common: the chains, their hardforks and the parameters that hardforks and
-- EIPs change (the class `Common` and the types of types.ts).
pub mod Tables
pub mod Params
pub mod Chains
pub mod Blocks
pub mod Reading
pub mod Order
pub mod Standard
pub mod Applied
pub mod ForkHash
use electroneum_web3_js.Base.{ℕ, List, Bool, Option}
use electroneum_web3_js.Text.{Text}

-- `HardforkConfig`. A missing `ttd`, `timestamp` or `forkHash` and the block null are `none`;
-- differences and times given as strings are the numbers that they write.
pub record Hardfork : Type 0 where
  pub name : Text
  pub block : Option ℕ
  pub ttd : Option ℕ
  pub timestamp : Option ℕ
  pub fork_hash : Option Text

-- The type and algorithm of a consensus, and the settings of algorithms.
pub record Consensus : Type 0 where
  pub kind : Text
  pub algorithm : Text
  pub configs : List (Text × List (Text × ℕ))

pub record ChainConfig : Type 0 where
  pub name : Text
  pub chain_id : ℕ
  pub network_id : ℕ
  pub default_hardfork : Option Text
  pub hardforks : List Hardfork
  pub consensus : Consensus

-- The value `v` of a parameter.
pub data Amount : Type 0 where
  amount : ℕ → Amount
  null : Amount
  amounts : List ℕ → Amount
  discounts : List (ℕ × ℕ) → Amount

pub record Eip : Type 0 where
  pub name : Text
  pub minimum_hardfork : Text
  pub required_eips : Option (List ℕ)
  pub topics : List (Text × List (Text × Amount))

-- What a hardfork changes.
pub record Spec : Type 0 where
  pub name : Text
  pub eips : Option (List ℕ)
  pub consensus : Option Consensus
  pub topics : List (Text × List (Text × Amount))

-- The errors that the methods throw; the last two are the language's own.
pub data CommonError : Type 0 where
  chain_not_supported : CommonError
  custom_chains_given : CommonError
  missing_parameter : Text → CommonError
  hardfork_not_supported : Text → CommonError
  no_hardfork_at_start : CommonError
  several_merges : CommonError
  below_total_difficulty : CommonError
  above_total_difficulty : CommonError
  below_timestamp : CommonError
  above_timestamp : CommonError
  eip_not_supported : ℕ → CommonError
  below_minimum_hardfork : ℕ → CommonError
  required_eip : ℕ → ℕ → CommonError
  topic_not_defined : Text → CommonError
  merge_not_found : CommonError
  future_hardfork : CommonError
  genesis_hash_required : CommonError
  type_error : CommonError
  syntax_error : CommonError

-- An instance of `Common`: its fields `_chainParams`, `DEFAULT_HARDFORK`, `HARDFORK_CHANGES`,
-- `_hardfork` and `_eips`.
pub record Common : Type 0 where
  pub chain : ChainConfig
  pub default_hardfork : Text
  pub changes : List (Text × Option Spec)
  pub hardfork : Text
  pub eips : List ℕ
