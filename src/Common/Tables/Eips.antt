-- ===== src/Common/Tables/Eips.antt =====
-- web3-eth-accounts/src/common/eips/index.ts: the table of the EIPs.
use electroneum_web3_js.Base.{ℕ, List, [], ◌∷◌, Option}
use electroneum_web3_js.Dict.{number_key, lookup}
use electroneum_web3_js.Common.{Eip}
use electroneum_web3_js.Common.Tables.Eip2537.{eip_2537}
use electroneum_web3_js.Common.Tables.EarlyEips.{
  eip_1153, eip_1559, eip_2315, eip_2565, eip_2718, eip_2929, eip_2930,
}
use electroneum_web3_js.Common.Tables.LaterEips.{
  eip_3198, eip_3529, eip_3540, eip_3541, eip_3554, eip_3607, eip_3651, eip_3670, eip_3675,
  eip_3855, eip_3860, eip_4345, eip_4399, eip_5133,
}

-- `EIPs`
abbrev pub eip_table : List (ℕ × Eip)
eip_table =
    (1153, eip_1153)
    ∷ (1559, eip_1559)
    ∷ (2315, eip_2315)
    ∷ (2537, eip_2537)
    ∷ (2565, eip_2565)
    ∷ (2718, eip_2718)
    ∷ (2929, eip_2929)
    ∷ (2930, eip_2930)
    ∷ (3198, eip_3198)
    ∷ (3529, eip_3529)
    ∷ (3540, eip_3540)
    ∷ (3541, eip_3541)
    ∷ (3554, eip_3554)
    ∷ (3607, eip_3607)
    ∷ (3651, eip_3651)
    ∷ (3670, eip_3670)
    ∷ (3675, eip_3675)
    ∷ (3855, eip_3855)
    ∷ (3860, eip_3860)
    ∷ (4345, eip_4345)
    ∷ (4399, eip_4399)
    ∷ (5133, eip_5133)
    ∷ []

-- `EIPs[eip]`
unfoldable pub eip_of : ℕ → Option Eip
eip_of eip = lookup eip eip_table
