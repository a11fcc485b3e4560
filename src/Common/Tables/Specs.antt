-- ===== src/Common/Tables/Specs.antt =====
-- web3-eth-accounts/src/common/hardforks: what each hardfork changes, without the comments.
use electroneum_web3_js.Base.{List, [], ◌∷◌, Option, none, some}
use electroneum_web3_js.Text.{Text, lit}
use electroneum_web3_js.Dict.{text_key, lookup}
use electroneum_web3_js.Common.{amount, null, Spec}
use electroneum_web3_js.Common.Tables.Chainstart.{chainstart}

abbrev homestead : Spec
homestead = record {
  name = lit "homestead";
  eips = none;
  consensus = none;
  topics =
      (lit "gasConfig", [])
      ∷ (lit "gasPrices", (lit "delegatecall", amount 40) ∷ [])
      ∷ (lit "vm", [])
      ∷ (lit "pow", [])
      ∷ [];
}

abbrev dao : Spec
dao = record {
  name = lit "dao";
  eips = none;
  consensus = none;
  topics = (lit "gasConfig", []) ∷ (lit "gasPrices", []) ∷ (lit "vm", []) ∷ (lit "pow", []) ∷ [];
}

abbrev tangerine_whistle : Spec
tangerine_whistle = record {
  name = lit "tangerineWhistle";
  eips = none;
  consensus = none;
  topics =
      (lit "gasConfig", [])
      ∷ (
        lit "gasPrices",
        (lit "sload", amount 200)
            ∷ (lit "call", amount 700)
            ∷ (lit "extcodesize", amount 700)
            ∷ (lit "extcodecopy", amount 700)
            ∷ (lit "balance", amount 400)
            ∷ (lit "delegatecall", amount 700)
            ∷ (lit "callcode", amount 700)
            ∷ (lit "selfdestruct", amount 5000)
            ∷ [],
      )
      ∷ (lit "vm", [])
      ∷ (lit "pow", [])
      ∷ [];
}

abbrev spurious_dragon : Spec
spurious_dragon = record {
  name = lit "spuriousDragon";
  eips = none;
  consensus = none;
  topics =
      (lit "gasConfig", [])
      ∷ (lit "gasPrices", (lit "expByte", amount 50) ∷ [])
      ∷ (lit "vm", (lit "maxCodeSize", amount 24576) ∷ [])
      ∷ (lit "pow", [])
      ∷ [];
}

abbrev byzantium : Spec
byzantium = record {
  name = lit "byzantium";
  eips = none;
  consensus = none;
  topics =
      (lit "gasConfig", [])
      ∷ (
        lit "gasPrices",
        (lit "modexpGquaddivisor", amount 20)
            ∷ (lit "ecAdd", amount 500)
            ∷ (lit "ecMul", amount 40000)
            ∷ (lit "ecPairing", amount 100000)
            ∷ (lit "ecPairingWord", amount 80000)
            ∷ (lit "revert", amount 0)
            ∷ (lit "staticcall", amount 700)
            ∷ (lit "returndatasize", amount 2)
            ∷ (lit "returndatacopy", amount 3)
            ∷ [],
      )
      ∷ (lit "vm", [])
      ∷ (
        lit "pow",
        (lit "minerReward", amount 3000000000000000000)
            ∷ (lit "difficultyBombDelay", amount 3000000)
            ∷ [],
      )
      ∷ [];
}

abbrev constantinople : Spec
constantinople = record {
  name = lit "constantinople";
  eips = none;
  consensus = none;
  topics =
      (lit "gasConfig", [])
      ∷ (
        lit "gasPrices",
        (lit "netSstoreNoopGas", amount 200)
            ∷ (lit "netSstoreInitGas", amount 20000)
            ∷ (lit "netSstoreCleanGas", amount 5000)
            ∷ (lit "netSstoreDirtyGas", amount 200)
            ∷ (lit "netSstoreClearRefund", amount 15000)
            ∷ (lit "netSstoreResetRefund", amount 4800)
            ∷ (lit "netSstoreResetClearRefund", amount 19800)
            ∷ (lit "shl", amount 3)
            ∷ (lit "shr", amount 3)
            ∷ (lit "sar", amount 3)
            ∷ (lit "extcodehash", amount 400)
            ∷ (lit "create2", amount 32000)
            ∷ [],
      )
      ∷ (lit "vm", [])
      ∷ (
        lit "pow",
        (lit "minerReward", amount 2000000000000000000)
            ∷ (lit "difficultyBombDelay", amount 5000000)
            ∷ [],
      )
      ∷ [];
}

abbrev petersburg : Spec
petersburg = record {
  name = lit "petersburg";
  eips = none;
  consensus = none;
  topics =
      (lit "gasConfig", [])
      ∷ (
        lit "gasPrices",
        (lit "netSstoreNoopGas", null)
            ∷ (lit "netSstoreInitGas", null)
            ∷ (lit "netSstoreCleanGas", null)
            ∷ (lit "netSstoreDirtyGas", null)
            ∷ (lit "netSstoreClearRefund", null)
            ∷ (lit "netSstoreResetRefund", null)
            ∷ (lit "netSstoreResetClearRefund", null)
            ∷ [],
      )
      ∷ (lit "vm", [])
      ∷ (lit "pow", [])
      ∷ [];
}

abbrev istanbul : Spec
istanbul = record {
  name = lit "istanbul";
  eips = none;
  consensus = none;
  topics =
      (lit "gasConfig", [])
      ∷ (
        lit "gasPrices",
        (lit "blake2Round", amount 1)
            ∷ (lit "ecAdd", amount 150)
            ∷ (lit "ecMul", amount 6000)
            ∷ (lit "ecPairing", amount 45000)
            ∷ (lit "ecPairingWord", amount 34000)
            ∷ (lit "txDataNonZero", amount 16)
            ∷ (lit "sstoreSentryGasEIP2200", amount 2300)
            ∷ (lit "sstoreNoopGasEIP2200", amount 800)
            ∷ (lit "sstoreDirtyGasEIP2200", amount 800)
            ∷ (lit "sstoreInitGasEIP2200", amount 20000)
            ∷ (lit "sstoreInitRefundEIP2200", amount 19200)
            ∷ (lit "sstoreCleanGasEIP2200", amount 5000)
            ∷ (lit "sstoreCleanRefundEIP2200", amount 4200)
            ∷ (lit "sstoreClearRefundEIP2200", amount 15000)
            ∷ (lit "balance", amount 700)
            ∷ (lit "extcodehash", amount 700)
            ∷ (lit "chainid", amount 2)
            ∷ (lit "selfbalance", amount 5)
            ∷ (lit "sload", amount 800)
            ∷ [],
      )
      ∷ (lit "vm", [])
      ∷ (lit "pow", [])
      ∷ [];
}

abbrev muir_glacier : Spec
muir_glacier = record {
  name = lit "muirGlacier";
  eips = none;
  consensus = none;
  topics =
      (lit "gasConfig", [])
      ∷ (lit "gasPrices", [])
      ∷ (lit "vm", [])
      ∷ (lit "pow", (lit "difficultyBombDelay", amount 9000000) ∷ [])
      ∷ [];
}

abbrev berlin : Spec
berlin = record {
  name = lit "berlin";
  eips = some (2565 ∷ 2929 ∷ 2718 ∷ 2930 ∷ []);
  consensus = none;
  topics = [];
}

abbrev london : Spec
london = record {
  name = lit "london";
  eips = some (1559 ∷ 3198 ∷ 3529 ∷ 3541 ∷ []);
  consensus = none;
  topics = [];
}

abbrev pub shanghai : Spec
shanghai = record {
  name = lit "shanghai";
  eips = some (3651 ∷ 3855 ∷ 3860 ∷ 4895 ∷ []);
  consensus = none;
  topics = [];
}

abbrev arrow_glacier : Spec
arrow_glacier = record {
  name = lit "arrowGlacier";
  eips = some (4345 ∷ []);
  consensus = none;
  topics = (lit "gasConfig", []) ∷ (lit "gasPrices", []) ∷ (lit "vm", []) ∷ (lit "pow", []) ∷ [];
}

abbrev gray_glacier : Spec
gray_glacier = record {
  name = lit "grayGlacier";
  eips = some (5133 ∷ []);
  consensus = none;
  topics = (lit "gasConfig", []) ∷ (lit "gasPrices", []) ∷ (lit "vm", []) ∷ (lit "pow", []) ∷ [];
}

abbrev merge_fork_id_transition : Spec
merge_fork_id_transition = record {
  name = lit "mergeForkIdTransition";
  eips = some ([]);
  consensus = none;
  topics = [];
}

abbrev merge : Spec
merge = record {
  name = lit "merge";
  eips = some (3675 ∷ 4399 ∷ []);
  consensus =
      some
        (record { kind = lit "pos"; algorithm = lit "casper"; configs = (lit "casper", []) ∷ [] });
  topics = [];
}

-- `HARDFORK_SPECS`
abbrev pub hardfork_specs : List (Text × Spec)
hardfork_specs =
    (lit "chainstart", chainstart)
    ∷ (lit "homestead", homestead)
    ∷ (lit "dao", dao)
    ∷ (lit "tangerineWhistle", tangerine_whistle)
    ∷ (lit "spuriousDragon", spurious_dragon)
    ∷ (lit "byzantium", byzantium)
    ∷ (lit "constantinople", constantinople)
    ∷ (lit "petersburg", petersburg)
    ∷ (lit "istanbul", istanbul)
    ∷ (lit "muirGlacier", muir_glacier)
    ∷ (lit "berlin", berlin)
    ∷ (lit "london", london)
    ∷ (lit "shanghai", shanghai)
    ∷ (lit "arrowGlacier", arrow_glacier)
    ∷ (lit "grayGlacier", gray_glacier)
    ∷ (lit "mergeForkIdTransition", merge_fork_id_transition)
    ∷ (lit "merge", merge)
    ∷ []

-- `HARDFORK_SPECS[name]`
unfoldable pub spec_of : Text → Option Spec
spec_of name = lookup name hardfork_specs
