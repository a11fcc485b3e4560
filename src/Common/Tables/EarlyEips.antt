-- ===== src/Common/Tables/EarlyEips.antt =====
-- web3-eth-accounts/src/common/eips: the EIPs below 3000, but 2537, without comments.
use electroneum_web3_js.Base.{[], ◌∷◌, none, some}
use electroneum_web3_js.Text.{lit}
use electroneum_web3_js.Dict.{number_key}
use electroneum_web3_js.Common.{amount, Eip}

abbrev pub eip_1153 : Eip
eip_1153 = record {
  name = lit "EIP-1153";
  minimum_hardfork = lit "chainstart";
  required_eips = some ([]);
  topics =
      (lit "gasConfig", [])
      ∷ (lit "gasPrices", (lit "tstore", amount 100) ∷ (lit "tload", amount 100) ∷ [])
      ∷ (lit "vm", [])
      ∷ (lit "pow", [])
      ∷ [];
}

abbrev pub eip_1559 : Eip
eip_1559 = record {
  name = lit "EIP-1559";
  minimum_hardfork = lit "berlin";
  required_eips = some (2930 ∷ []);
  topics =
      (
        lit "gasConfig",
        (lit "baseFeeMaxChangeDenominator", amount 8)
            ∷ (lit "elasticityMultiplier", amount 2)
            ∷ (lit "initialBaseFee", amount 1000000000)
            ∷ [],
      )
      ∷ (lit "gasPrices", [])
      ∷ (lit "vm", [])
      ∷ (lit "pow", [])
      ∷ [];
}

abbrev pub eip_2315 : Eip
eip_2315 = record {
  name = lit "EIP-2315";
  minimum_hardfork = lit "istanbul";
  required_eips = none;
  topics =
      (lit "gasConfig", [])
      ∷ (
        lit "gasPrices",
        (lit "beginsub", amount 2) ∷ (lit "returnsub", amount 5) ∷ (lit "jumpsub", amount 10) ∷ [],
      )
      ∷ (lit "vm", [])
      ∷ (lit "pow", [])
      ∷ [];
}

abbrev pub eip_2565 : Eip
eip_2565 = record {
  name = lit "EIP-2565";
  minimum_hardfork = lit "byzantium";
  required_eips = none;
  topics =
      (lit "gasConfig", [])
      ∷ (lit "gasPrices", (lit "modexpGquaddivisor", amount 3) ∷ [])
      ∷ (lit "vm", [])
      ∷ (lit "pow", [])
      ∷ [];
}

abbrev pub eip_2718 : Eip
eip_2718 = record {
  name = lit "EIP-2718";
  minimum_hardfork = lit "chainstart";
  required_eips = none;
  topics = (lit "gasConfig", []) ∷ (lit "gasPrices", []) ∷ (lit "vm", []) ∷ (lit "pow", []) ∷ [];
}

abbrev pub eip_2929 : Eip
eip_2929 = record {
  name = lit "EIP-2929";
  minimum_hardfork = lit "chainstart";
  required_eips = none;
  topics =
      (lit "gasConfig", [])
      ∷ (
        lit "gasPrices",
        (lit "coldsload", amount 2100)
            ∷ (lit "coldaccountaccess", amount 2600)
            ∷ (lit "warmstorageread", amount 100)
            ∷ (lit "sstoreCleanGasEIP2200", amount 2900)
            ∷ (lit "sstoreNoopGasEIP2200", amount 100)
            ∷ (lit "sstoreDirtyGasEIP2200", amount 100)
            ∷ (lit "sstoreInitRefundEIP2200", amount 19900)
            ∷ (lit "sstoreCleanRefundEIP2200", amount 4900)
            ∷ (lit "call", amount 0)
            ∷ (lit "callcode", amount 0)
            ∷ (lit "delegatecall", amount 0)
            ∷ (lit "staticcall", amount 0)
            ∷ (lit "balance", amount 0)
            ∷ (lit "extcodesize", amount 0)
            ∷ (lit "extcodecopy", amount 0)
            ∷ (lit "extcodehash", amount 0)
            ∷ (lit "sload", amount 0)
            ∷ (lit "sstore", amount 0)
            ∷ [],
      )
      ∷ (lit "vm", [])
      ∷ (lit "pow", [])
      ∷ [];
}

abbrev pub eip_2930 : Eip
eip_2930 = record {
  name = lit "EIP-2930";
  minimum_hardfork = lit "istanbul";
  required_eips = some (2718 ∷ 2929 ∷ []);
  topics =
      (lit "gasConfig", [])
      ∷ (
        lit "gasPrices",
        (lit "accessListStorageKeyCost", amount 1900)
            ∷ (lit "accessListAddressCost", amount 2400)
            ∷ [],
      )
      ∷ (lit "vm", [])
      ∷ (lit "pow", [])
      ∷ [];
}
