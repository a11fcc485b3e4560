-- ===== src/Tests/Chains.antt =====
-- Runs on the tables of mainnet and sepolia.
use electroneum_web3_js.Base.{
  ℕ, ◌≡◌, refl, List, [], ◌∷◌, none, some, ok, err, All, ◌+◌, take, drop, arith,
}
use electroneum_web3_js.Text.{lit}
use electroneum_web3_js.Dict.{text_key, number_key, lookup}
use electroneum_web3_js.Common.{Hardfork, CommonError, type_error, Common}
use electroneum_web3_js.Common.Tables.Eips.{eip_of}
use electroneum_web3_js.Common.Tables.Specs.{spec_of}
use electroneum_web3_js.Common.Tables.Mainnet.{mainnet, mainnet_hardforks}
use electroneum_web3_js.Common.Params.{
  hardfork_gte_hardfork, place_of, check_required, check_eips, set_eips, param_by_hardfork,
  param_loop, change_value, param_by_eips, param_by_eip, value_of, is_inherited, big_int_of,
  big_int_or_zero,
}
use electroneum_web3_js.Common.Chains.{changes_of, has_changes}
use electroneum_web3_js.Common.Blocks.{get_hardfork_by_block_number}
use electroneum_web3_js.Common.Order.{
  has_name, hardfork_gte_hardfork-append, IsActivatable, set_eips-eq-ok,
}
use electroneum_web3_js.Common.Standard.{param_by_hardfork-standard, param_by_hardfork-shanghai}
use electroneum_web3_js.Common.ForkHash.{calc_fork_hash}
use electroneum_web3_js.Common.ForkHash.Same.{calc_fork_hash-same}
use electroneum_web3_js.Common.Applied.{get_hardfork_by_block_number-latest}

abbrev main : Common
main = record {
  chain = mainnet;
  default_hardfork = lit "merge";
  changes = changes_of mainnet_hardforks;
  hardfork = lit "merge";
  eips = [];
}

param_by_hardfork-standard_example :
    (n : ℕ) × (param_by_hardfork main (lit "pow") (lit "minerReward") (lit "london") ≡ ok n)
unfolding has_changes changes_of is_inherited
param_by_hardfork-standard_example =
    param_by_hardfork-standard 0 mainnet main (lit "pow") (lit "minerReward") (lit "london") refl
      refl refl refl refl refl

-- An inherited name reads as 0 up to istanbul, and throws from berlin on.
inherited_name :
    (param_by_hardfork main (lit "vm") (lit "constructor") (lit "istanbul") ≡ ok 0)
    × (param_by_hardfork main (lit "vm") (lit "constructor") (lit "berlin") ≡ err type_error)
unfolding param_by_hardfork param_loop change_value param_by_eips param_by_eip value_of is_inherited
    changes_of spec_of eip_of lookup big_int_of big_int_or_zero
inherited_name = (refl, refl)

miner_reward :
    param_by_hardfork main (lit "pow") (lit "minerReward") (lit "london")
    ≡ ok 2_000_000_000_000_000_000
unfolding param_by_hardfork param_loop change_value param_by_eips param_by_eip value_of is_inherited
    changes_of spec_of eip_of lookup big_int_of big_int_or_zero
miner_reward = refl

param_by_hardfork-shanghai_example :
    (e : CommonError) × (param_by_hardfork main (lit "pow") (lit "minerReward") (lit "shanghai")
      ≡ err e)
unfolding has_changes changes_of
param_by_hardfork-shanghai_example =
    param_by_hardfork-shanghai 0 mainnet main (lit "pow") (lit "minerReward") (lit "shanghai") refl
      refl refl

abbrev hardfork_named : List Hardfork → Hardfork
hardfork_named [] = record {
  name = [];
  block = none;
  ttd = none;
  timestamp = none;
  fork_hash = none;
}
hardfork_named (hf ∷ hfs) = hf

hardfork_gte_hardfork-append_example :
    hardfork_gte_hardfork main (some (lit "byzantium")) (hardfork_named mainnet_hardforks).name
    ≡ has_name (lit "byzantium") mainnet_hardforks
hardfork_gte_hardfork-append_example =
    hardfork_gte_hardfork-append main (lit "byzantium") _ [] _ refl refl

set_3670 :
    set_eips main (3670 ∷ 3540 ∷ 3541 ∷ []) ≡ ok (record main { eips = 3670 ∷ 3540 ∷ 3541 ∷ [] })
unfolding set_eips check_eips check_required hardfork_gte_hardfork place_of eip_of lookup
set_3670 = refl

set_eips-eq-ok_example :
    (record main { eips = 3670 ∷ 3540 ∷ 3541 ∷ [] }
      ≡ record main { eips = 3670 ∷ 3540 ∷ 3541 ∷ [] })
    × All (IsActivatable main (3670 ∷ 3540 ∷ 3541 ∷ [])) (3670 ∷ 3540 ∷ 3541 ∷ [])
set_eips-eq-ok_example = set_eips-eq-ok main _ (3670 ∷ 3540 ∷ 3541 ∷ []) set_3670

get_hardfork_by_block_number-latest_example :
    get_hardfork_by_block_number main 12_964_999 none none ≡ ok (lit "berlin")
get_hardfork_by_block_number-latest_example =
    get_hardfork_by_block_number-latest main 12_964_999 _ _ refl refl
      (
        1150000,
        refl,
        omega arith,
        (
          1920000,
          refl,
          omega arith,
          (
            2463000,
            refl,
            omega arith,
            (
              2675000,
              refl,
              omega arith,
              (
                4370000,
                refl,
                omega arith,
                (
                  7280000,
                  refl,
                  omega arith,
                  (
                    7280000,
                    refl,
                    omega arith,
                    (
                      9069000,
                      refl,
                      omega arith,
                      (
                        9200000,
                        refl,
                        omega arith,
                        (
                          12244000,
                          refl,
                          omega arith,
                          (
                            12965000,
                            refl,
                            omega arith,
                            (
                              13773000,
                              refl,
                              omega arith,
                              (15050000, refl, omega arith, (15537394, refl, omega arith, tt)),
                            ),
                          ),
                        ),
                      ),
                    ),
                  ),
                ),
              ),
            ),
          ),
        ),
      )
      refl

-- A checksum that is no checksum.
abbrev sum : List ℕ → ℕ
sum [] = 0
sum (b ∷ bs) = b + sum bs

calc_fork_hash-same_example :
    calc_fork_hash sum main (lit "petersburg") (1 ∷ [])
    ≡ calc_fork_hash sum main (lit "constantinople") (1 ∷ [])
calc_fork_hash-same_example =
    calc_fork_hash-same sum main
      (record {
        name = lit "constantinople";
        block = some 7_280_000;
        ttd = none;
        timestamp = none;
        fork_hash = some (lit "0x668db0af");
      })
      (record {
        name = lit "petersburg";
        block = some 7_280_000;
        ttd = none;
        timestamp = none;
        fork_hash = some (lit "0x668db0af");
      })
      (take 6 mainnet_hardforks) (drop 8 mainnet_hardforks) 7_280_000 (1 ∷ []) refl refl refl refl
      refl refl
