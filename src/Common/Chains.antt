-- ===== src/Common/Chains.antt =====
-- web3-eth-accounts/src/common/common.ts: the chains, the constructor and the hardfork set. A chain
-- is named by a string that is neither `names` nor a member of every JavaScript object.
use electroneum_web3_js.Base.{
  ℕ, List, [], ◌∷◌, map, Bool, true, false, ◌||◌, Option, none, some, Result, ok, err, ◌>>=◌, ◌>>◌,
  throw_if, or_throw, if◌then◌else◌,
}
use electroneum_web3_js.Text.{Text, lit, text_eq, is_nil}
use electroneum_web3_js.Dict.{text_key, number_key, lookup, insert}
use electroneum_web3_js.Common.{
  Hardfork, Consensus, ChainConfig, Spec, CommonError, chain_not_supported, custom_chains_given,
  missing_parameter, hardfork_not_supported, Common,
}
use electroneum_web3_js.Common.Tables.Specs.{spec_of}
use electroneum_web3_js.Common.Tables.Mainnet.{mainnet}
use electroneum_web3_js.Common.Tables.Goerli.{goerli}
use electroneum_web3_js.Common.Tables.Sepolia.{sepolia}
use electroneum_web3_js.Common.Params.{has_member, set_eips}

-- `_getInitializedChains`: the names by chain id, and the chains by name.
pub record Chains : Type 0 where
  pub names : List (ℕ × Text)
  pub chains : List (Text × ChainConfig)

abbrev add_chain : Chains → ChainConfig → Chains
add_chain cs chain = record {
  names = insert chain.chain_id chain.name cs.names;
  chains = insert chain.name chain cs.chains;
}

unfoldable pub add_chains : Chains → List ChainConfig → Chains
add_chains cs [] = cs
add_chains cs (chain ∷ custom_chains) = add_chains (add_chain cs chain) custom_chains

abbrev standard_chains : Chains
standard_chains = record {
  names = (1, lit "mainnet") ∷ (5, lit "goerli") ∷ (11_155_111, lit "sepolia") ∷ [];
  chains = (lit "mainnet", mainnet) ∷ (lit "goerli", goerli) ∷ (lit "sepolia", sepolia) ∷ [];
}

unfoldable pub initialized_chains : List ChainConfig → Chains
initialized_chains custom_chains = add_chains standard_chains custom_chains

-- `if (names[id])`: the empty name does not count.
abbrev name_of : Chains → ℕ → Option Text
name_of cs id = elim (lookup id cs.names) [
  | none ↦ none
  | some name ↦ if is_nil name then none else some name
]

unfoldable pub is_supported_chain_id : ℕ → Bool
is_supported_chain_id id = elim (name_of (initialized_chains []) id) [
  | none ↦ false
  | some name ↦ true
]

-- The chain that the constructor is given: an id, a name, or an object with the names of its members.
pub data ChainArg : Type 0 where
  by_id : ℕ → ChainArg
  by_name : Text → ChainArg
  given : List Text → ChainConfig → ChainArg

abbrev chain_named : Chains → Text → Result CommonError ChainConfig
chain_named cs name = or_throw (lookup name cs.chains) chain_not_supported

unfoldable pub get_chain_by_id : List ChainConfig → ℕ → Result CommonError ChainConfig
get_chain_by_id custom_chains id = do
  name ← or_throw (name_of (initialized_chains custom_chains) id) chain_not_supported
  chain_named (initialized_chains custom_chains) name

unfoldable pub get_chain_by_name : List ChainConfig → Text → Result CommonError ChainConfig
get_chain_by_name custom_chains name = chain_named (initialized_chains custom_chains) name

abbrev check_members : List Text → List Text → Result CommonError (Unit {0})
check_members members [] = ok tt
check_members members (param ∷ required) =
    if has_member param members
    then check_members members required
    else err (missing_parameter param)

abbrev required_members : List Text
required_members = lit "networkId" ∷ lit "genesis" ∷ lit "hardforks" ∷ lit "bootstrapNodes" ∷ []

abbrev not_empty : List ChainConfig → Bool
not_empty [] = false
not_empty (chain ∷ chains) = true

-- A `ChainConfig` has no undefined block, for which the last loop of `setChain` looks.
unfoldable pub set_chain : List ChainConfig → ChainArg → Result CommonError ChainConfig
set_chain custom_chains (by_id id) = get_chain_by_id custom_chains id
set_chain custom_chains (by_name name) = get_chain_by_name custom_chains name
set_chain custom_chains (given members chain) = do
  throw_if (not_empty custom_chains) custom_chains_given
  check_members members required_members
  ok chain

-- Is there a table of changes for the hardfork?
unfoldable pub has_changes : Text → List (Text × Option Spec) → Bool
has_changes hardfork [] = false
has_changes hardfork ((name, spec) ∷ changes) =
    text_eq name hardfork || has_changes hardfork changes

unfoldable pub set_hardfork : Common → Text → Result CommonError Common
set_hardfork c hardfork =
    if has_changes hardfork c.changes
    then ok (record c { hardfork = hardfork })
    else err (hardfork_not_supported hardfork)

abbrev default_or_merge : Option Text → Text
default_or_merge none = lit "merge"
default_or_merge (some name) = name

-- `HARDFORK_CHANGES`
unfoldable pub changes_of : List Hardfork → List (Text × Option Spec)
changes_of hardforks = map (λ hf. (hf.name, spec_of hf.name)) hardforks

-- The instance before its options are applied.
unfoldable pub instance_of : ChainConfig → Common
instance_of chain = record {
  chain = chain;
  default_hardfork = default_or_merge chain.default_hardfork;
  changes = changes_of chain.hardforks;
  hardfork = default_or_merge chain.default_hardfork;
  eips = [];
}

abbrev set_optional_hardfork : Common → Option Text → Result CommonError Common
set_optional_hardfork c none = ok c
set_optional_hardfork c (some hardfork) = set_hardfork c hardfork

abbrev set_optional_eips : Common → Option (List ℕ) → Result CommonError Common
set_optional_eips c none = ok c
set_optional_eips c (some eips) = set_eips c eips

-- The constructor: `customChains`, `chain`, `hardfork` and `eips` of its options.
unfoldable pub new_common :
    List ChainConfig → ChainArg → Option Text → Option (List ℕ) → Result CommonError Common
new_common custom_chains arg hardfork eips = do
  chain ← set_chain custom_chains arg
  c ← set_optional_hardfork (instance_of chain) hardfork
  set_optional_eips c eips

-- A `Partial<ChainConfig>`.
pub record ChainParams : Type 0 where
  pub name : Option Text
  pub chain_id : Option ℕ
  pub network_id : Option ℕ
  pub default_hardfork : Option Text
  pub hardforks : Option (List Hardfork)
  pub consensus : Option Consensus

abbrev or_base {ℓ} : {A : Type ℓ} → Option A → A → A
or_base none a = a
or_base (some b) a = b

-- `{ ...standardChainParams, ...chainParams }`, with the name `custom-chain` where none is given.
abbrev merge_params : ChainConfig → ChainParams → ChainConfig
merge_params base params = record {
  name = or_base params.name (lit "custom-chain");
  chain_id = or_base params.chain_id base.chain_id;
  network_id = or_base params.network_id base.network_id;
  default_hardfork = elim params.default_hardfork [
    | none ↦ base.default_hardfork
    | some name ↦ some name
  ];
  hardforks = or_base params.hardforks base.hardforks;
  consensus = or_base params.consensus base.consensus;
}

-- A missing `baseChain` is mainnet.
abbrev base_params : Option ChainArg → Result CommonError ChainConfig
base_params none = set_chain [] (by_name (lit "mainnet"))
base_params (some base) = set_chain [] base

-- `Common.custom` with an object.
unfoldable pub custom :
    ChainParams → Option ChainArg → Option Text → Option (List ℕ) → Result CommonError Common
custom params base hardfork eips = do
  standard ← base_params base
  new_common [] (given required_members (merge_params standard params)) hardfork eips

-- The chains that `Common.custom` knows by name: the id, and the hardfork where one is set.
abbrev pub custom_chains : List (Text × (ℕ × Option Text))
custom_chains =
    (lit "polygon-mainnet", (137, none))
    ∷ (lit "polygon-mumbai", (80_001, none))
    ∷ (lit "arbitrum-rinkeby-testnet", (421_611, none))
    ∷ (lit "arbitrum-one", (42_161, none))
    ∷ (lit "x-dai-chain", (100, none))
    ∷ (lit "optimistic-kovan", (69, some (lit "berlin")))
    ∷ (lit "optimistic-ethereum", (10, some (lit "berlin")))
    ∷ []

-- `{ hardfork: Hardfork.Berlin, ...opts }`: the hardfork of the options goes first.
abbrev or_option {ℓ} : {A : Type ℓ} → Option A → Option A → Option A
or_option none a = a
or_option (some b) a = some b

abbrev named_params : Text → ℕ → ChainParams
named_params name id = record {
  name = some name;
  chain_id = some id;
  network_id = some id;
  default_hardfork = none;
  hardforks = none;
  consensus = none;
}

-- `Common.custom` with a name; the base chain is looked up in any case.
unfoldable pub custom_named :
    Text → Option ChainArg → Option Text → Option (List ℕ) → Result CommonError Common
custom_named name base hardfork eips = do
  standard ← base_params base
  entry ← or_throw (lookup name custom_chains) chain_not_supported
  custom (named_params name entry.0) base (or_option hardfork entry.1) eips
