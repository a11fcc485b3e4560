-- ===== src/Common/Tables/Chainstart.antt =====
-- web3-eth-accounts/src/common/hardforks: the parameters at the start of the chain.
use electroneum_web3_js.Base.{List, [], ◌∷◌, ◌++◌, none}
use electroneum_web3_js.Text.{Text, lit}
use electroneum_web3_js.Dict.{text_key}
use electroneum_web3_js.Common.{Amount, amount, amounts, Spec}

abbrev chainstart_gas_config : List (Text × Amount)
chainstart_gas_config =
    (lit "minGasLimit", amount 5000)
    ∷ (lit "gasLimitBoundDivisor", amount 1024)
    ∷ (lit "maxRefundQuotient", amount 2)
    ∷ []

abbrev chainstart_gas_prices : List (Text × Amount)
chainstart_gas_prices =
    (lit "base", amount 2)
    ∷ (lit "tierStep", amounts (0 ∷ 2 ∷ 3 ∷ 5 ∷ 8 ∷ 10 ∷ 20 ∷ []))
    ∷ (lit "exp", amount 10)
    ∷ (lit "expByte", amount 10)
    ∷ (lit "sha3", amount 30)
    ∷ (lit "sha3Word", amount 6)
    ∷ (lit "sload", amount 50)
    ∷ (lit "sstoreSet", amount 20000)
    ∷ (lit "sstoreReset", amount 5000)
    ∷ (lit "sstoreRefund", amount 15000)
    ∷ (lit "jumpdest", amount 1)
    ∷ (lit "log", amount 375)
    ∷ (lit "logData", amount 8)
    ∷ (lit "logTopic", amount 375)
    ∷ (lit "create", amount 32000)
    ∷ (lit "call", amount 40)
    ∷ (lit "callStipend", amount 2300)
    ∷ (lit "callValueTransfer", amount 9000)
    ∷ (lit "callNewAccount", amount 25000)
    ∷ (lit "selfdestructRefund", amount 24000)
    ∷ (lit "memory", amount 3)
    ∷ (lit "quadCoeffDiv", amount 512)
    ∷ (lit "createData", amount 200)
    ∷ (lit "tx", amount 21000)
    ∷ (lit "txCreation", amount 32000)
    ∷ (lit "txDataZero", amount 4)
    ∷ (lit "txDataNonZero", amount 68)
    ∷ (lit "copy", amount 3)
    ∷ (lit "ecRecover", amount 3000)
    ∷ (lit "sha256", amount 60)
    ∷ (lit "sha256Word", amount 12)
    ∷ (lit "ripemd160", amount 600)
    ∷ (lit "ripemd160Word", amount 120)
    ∷ (lit "identity", amount 15)
    ∷ (lit "identityWord", amount 3)
    ∷ (lit "stop", amount 0)
    ∷ (lit "add", amount 3)
    ∷ (lit "mul", amount 5)
    ∷ (lit "sub", amount 3)
    ∷ (lit "div", amount 5)
    ∷ (lit "sdiv", amount 5)
    ∷ (lit "mod", amount 5)
    ∷ (lit "smod", amount 5)
    ∷ (lit "addmod", amount 8)
    ∷ (lit "mulmod", amount 8)
    ∷ (lit "signextend", amount 5)
    ∷ []

abbrev chainstart_gas_prices_rest : List (Text × Amount)
chainstart_gas_prices_rest =
    (lit "lt", amount 3)
    ∷ (lit "gt", amount 3)
    ∷ (lit "slt", amount 3)
    ∷ (lit "sgt", amount 3)
    ∷ (lit "eq", amount 3)
    ∷ (lit "iszero", amount 3)
    ∷ (lit "and", amount 3)
    ∷ (lit "or", amount 3)
    ∷ (lit "xor", amount 3)
    ∷ (lit "not", amount 3)
    ∷ (lit "byte", amount 3)
    ∷ (lit "address", amount 2)
    ∷ (lit "balance", amount 20)
    ∷ (lit "origin", amount 2)
    ∷ (lit "caller", amount 2)
    ∷ (lit "callvalue", amount 2)
    ∷ (lit "calldataload", amount 3)
    ∷ (lit "calldatasize", amount 2)
    ∷ (lit "calldatacopy", amount 3)
    ∷ (lit "codesize", amount 2)
    ∷ (lit "codecopy", amount 3)
    ∷ (lit "gasprice", amount 2)
    ∷ (lit "extcodesize", amount 20)
    ∷ (lit "extcodecopy", amount 20)
    ∷ (lit "blockhash", amount 20)
    ∷ (lit "coinbase", amount 2)
    ∷ (lit "timestamp", amount 2)
    ∷ (lit "number", amount 2)
    ∷ (lit "difficulty", amount 2)
    ∷ (lit "gaslimit", amount 2)
    ∷ (lit "pop", amount 2)
    ∷ (lit "mload", amount 3)
    ∷ (lit "mstore", amount 3)
    ∷ (lit "mstore8", amount 3)
    ∷ (lit "sstore", amount 0)
    ∷ (lit "jump", amount 8)
    ∷ (lit "jumpi", amount 10)
    ∷ (lit "pc", amount 2)
    ∷ (lit "msize", amount 2)
    ∷ (lit "gas", amount 2)
    ∷ (lit "push", amount 3)
    ∷ (lit "dup", amount 3)
    ∷ (lit "swap", amount 3)
    ∷ (lit "callcode", amount 40)
    ∷ (lit "return", amount 0)
    ∷ (lit "invalid", amount 0)
    ∷ (lit "selfdestruct", amount 0)
    ∷ []

abbrev chainstart_vm : List (Text × Amount)
chainstart_vm =
    (lit "stackLimit", amount 1024)
    ∷ (lit "callCreateDepth", amount 1024)
    ∷ (lit "maxExtraDataSize", amount 32)
    ∷ []

abbrev chainstart_pow : List (Text × Amount)
chainstart_pow =
    (lit "minimumDifficulty", amount 131072)
    ∷ (lit "difficultyBoundDivisor", amount 2048)
    ∷ (lit "durationLimit", amount 13)
    ∷ (lit "epochDuration", amount 30000)
    ∷ (lit "timebombPeriod", amount 100000)
    ∷ (lit "minerReward", amount 5000000000000000000)
    ∷ (lit "difficultyBombDelay", amount 0)
    ∷ []

abbrev pub chainstart : Spec
chainstart = record {
  name = lit "chainstart";
  eips = none;
  consensus = none;
  topics =
      (lit "gasConfig", chainstart_gas_config)
      ∷ (lit "gasPrices", chainstart_gas_prices ++ chainstart_gas_prices_rest)
      ∷ (lit "vm", chainstart_vm)
      ∷ (lit "pow", chainstart_pow)
      ∷ [];
}
