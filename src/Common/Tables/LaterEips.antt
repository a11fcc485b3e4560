-- ===== src/Common/Tables/LaterEips.antt =====
-- web3-eth-accounts/src/common/eips: the EIPs above 3000, without comments.
use electroneum_web3_js.Base.{[], ◌∷◌, none, some}
use electroneum_web3_js.Text.{lit}
use electroneum_web3_js.Dict.{number_key}
use electroneum_web3_js.Common.{amount, Eip}

abbrev pub eip_3198 : Eip
eip_3198 = record {
  name = lit "EIP-3198";
  minimum_hardfork = lit "london";
  required_eips = none;
  topics =
      (lit "gasConfig", [])
      ∷ (lit "gasPrices", (lit "basefee", amount 2) ∷ [])
      ∷ (lit "vm", [])
      ∷ (lit "pow", [])
      ∷ [];
}

abbrev pub eip_3529 : Eip
eip_3529 = record {
  name = lit "EIP-3529";
  minimum_hardfork = lit "berlin";
  required_eips = some (2929 ∷ []);
  topics =
      (lit "gasConfig", (lit "maxRefundQuotient", amount 5) ∷ [])
      ∷ (
        lit "gasPrices",
        (lit "selfdestructRefund", amount 0) ∷ (lit "sstoreClearRefundEIP2200", amount 4800) ∷ [],
      )
      ∷ (lit "vm", [])
      ∷ (lit "pow", [])
      ∷ [];
}

abbrev pub eip_3540 : Eip
eip_3540 = record {
  name = lit "EIP-3540";
  minimum_hardfork = lit "london";
  required_eips = some (3541 ∷ []);
  topics = (lit "gasConfig", []) ∷ (lit "gasPrices", []) ∷ (lit "vm", []) ∷ (lit "pow", []) ∷ [];
}

abbrev pub eip_3541 : Eip
eip_3541 = record {
  name = lit "EIP-3541";
  minimum_hardfork = lit "berlin";
  required_eips = some ([]);
  topics = (lit "gasConfig", []) ∷ (lit "gasPrices", []) ∷ (lit "vm", []) ∷ (lit "pow", []) ∷ [];
}

abbrev pub eip_3554 : Eip
eip_3554 = record {
  name = lit "EIP-3554";
  minimum_hardfork = lit "muirGlacier";
  required_eips = some ([]);
  topics =
      (lit "gasConfig", [])
      ∷ (lit "gasPrices", [])
      ∷ (lit "vm", [])
      ∷ (lit "pow", (lit "difficultyBombDelay", amount 9500000) ∷ [])
      ∷ [];
}

abbrev pub eip_3607 : Eip
eip_3607 = record {
  name = lit "EIP-3607";
  minimum_hardfork = lit "chainstart";
  required_eips = some ([]);
  topics = (lit "gasConfig", []) ∷ (lit "gasPrices", []) ∷ (lit "vm", []) ∷ (lit "pow", []) ∷ [];
}

abbrev pub eip_3651 : Eip
eip_3651 = record {
  name = lit "EIP-3651";
  minimum_hardfork = lit "london";
  required_eips = some (2929 ∷ []);
  topics = (lit "gasConfig", []) ∷ (lit "gasPrices", []) ∷ (lit "vm", []) ∷ (lit "pow", []) ∷ [];
}

abbrev pub eip_3670 : Eip
eip_3670 = record {
  name = lit "EIP-3670";
  minimum_hardfork = lit "london";
  required_eips = some (3540 ∷ []);
  topics = (lit "gasConfig", []) ∷ (lit "gasPrices", []) ∷ (lit "vm", []) ∷ (lit "pow", []) ∷ [];
}

abbrev pub eip_3675 : Eip
eip_3675 = record {
  name = lit "EIP-3675";
  minimum_hardfork = lit "london";
  required_eips = some ([]);
  topics = (lit "gasConfig", []) ∷ (lit "gasPrices", []) ∷ (lit "vm", []) ∷ (lit "pow", []) ∷ [];
}

abbrev pub eip_3855 : Eip
eip_3855 = record {
  name = lit "EIP-3855";
  minimum_hardfork = lit "chainstart";
  required_eips = some ([]);
  topics =
      (lit "gasConfig", [])
      ∷ (lit "gasPrices", (lit "push0", amount 2) ∷ [])
      ∷ (lit "vm", [])
      ∷ (lit "pow", [])
      ∷ [];
}

abbrev pub eip_3860 : Eip
eip_3860 = record {
  name = lit "EIP-3860";
  minimum_hardfork = lit "spuriousDragon";
  required_eips = some ([]);
  topics =
      (lit "gasConfig", [])
      ∷ (lit "gasPrices", (lit "initCodeWordCost", amount 2) ∷ [])
      ∷ (lit "vm", (lit "maxInitCodeSize", amount 49152) ∷ [])
      ∷ (lit "pow", [])
      ∷ [];
}

abbrev pub eip_4345 : Eip
eip_4345 = record {
  name = lit "EIP-4345";
  minimum_hardfork = lit "london";
  required_eips = none;
  topics =
      (lit "gasConfig", [])
      ∷ (lit "gasPrices", [])
      ∷ (lit "vm", [])
      ∷ (lit "pow", (lit "difficultyBombDelay", amount 10700000) ∷ [])
      ∷ [];
}

abbrev pub eip_4399 : Eip
eip_4399 = record {
  name = lit "EIP-4399";
  minimum_hardfork = lit "london";
  required_eips = some ([]);
  topics = (lit "gasConfig", []) ∷ (lit "gasPrices", []) ∷ (lit "vm", []) ∷ (lit "pow", []) ∷ [];
}

abbrev pub eip_5133 : Eip
eip_5133 = record {
  name = lit "EIP-5133";
  minimum_hardfork = lit "grayGlacier";
  required_eips = none;
  topics =
      (lit "gasConfig", [])
      ∷ (lit "gasPrices", [])
      ∷ (lit "vm", [])
      ∷ (lit "pow", (lit "difficultyBombDelay", amount 11400000) ∷ [])
      ∷ [];
}
