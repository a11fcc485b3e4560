-- ===== src/Common/ForkHash.antt =====
-- web3-eth-accounts/src/common/common.ts: the next hardfork, and the fork hashes of EIP-2124 over a
-- checksum that is given.
pub mod Same
use electroneum_web3_js.Base.{
  ℕ, zero, suc, ◌+◌, ◌-◌, ◌%◌, ◌≡◌, ◌≢◌, refl, sym, ap, ◌∙◌, List, [], ◌∷◌, ◌++◌, Bool, true, false,
  not, ◌&&◌, ◌||◌, Option, none, some, Option-cases, Bool-cases, inl, inr, Result, ok, err, ◌>>=◌,
  ◌>>◌, throw_if, or_throw, if◌then◌else◌, ltb, leb, ◌==◌, ==_iff, length, get_elem?, drop,
  pad_start, arith,
}
use electroneum_web3_js.Text.{Text, lit, text_eq, to_string, parse_pairs, uint8_array_to_hex_string}
use electroneum_web3_js.Dict.{text_eq_iff}
use electroneum_web3_js.Common.{
  Hardfork, CommonError, merge_not_found, future_hardfork, genesis_hash_required, type_error,
  Common,
}
use electroneum_web3_js.Common.Params.{get_hardfork, hardfork_block, or_set}
use electroneum_web3_js.Common.Blocks.{is_some, filter, find_index, has_ttd, same_time}
use electroneum_web3_js.Common.Order.{has_name}

-- `hf.timestamp ?? hf.block`
abbrev pub time_or_block : Hardfork → Option ℕ
time_or_block hf = elim hf.timestamp [ none ↦ hf.block | some timestamp ↦ some timestamp ]

abbrev pub is_merge : Text → Bool
is_merge name = text_eq name (lit "merge")

-- The test of `nextHardforkBlockOrTimestamp` on a hardfork behind the current one.
abbrev is_next : Option ℕ → Hardfork → Bool
is_next current hf =
    not (is_merge hf.name)
    && is_some (time_or_block hf)
    && not (same_time (time_or_block hf) current)

abbrev first_next : Option ℕ → List Hardfork → Option ℕ
first_next current [] = none
first_next current (hf ∷ hfs) =
    if is_next current hf then time_or_block hf else first_next current hfs

-- For the merge the search starts one earlier; `none` is a negative index.
abbrev start_index : Text → Option ℕ → Option ℕ
start_index name none = none
start_index name (some i) =
    if is_merge name then elim i [ zero ↦ none | suc j ↦ some j ] else some i

unfoldable pub next_hardfork_block_or_timestamp : Common → Option Text → Option ℕ
next_hardfork_block_or_timestamp c hardfork =
    let name = or_set c hardfork in
    elim (start_index name (find_index (λ hf. text_eq hf.name name) c.chain.hardforks)) [
      | none ↦ none
      | some i ↦ elim (drop i c.chain.hardforks) [
        | [] ↦ none
        | hf ∷ hfs ↦ first_next (time_or_block hf) hfs
      ]
    ]

-- The block to compare with: 0 for the merge and for a hardfork without a block.
abbrev compared_block : Hardfork → ℕ
compared_block hf = elim hf.block [ none ↦ 0 | some block ↦ if has_ttd hf then 0 else block ]

-- The `reduce` of `nextHardforkBlock`.
abbrev next_block : ℕ → Option ℕ → List Hardfork → Option ℕ
next_block block acc [] = acc
next_block block acc (hf ∷ hfs) =
    next_block block
      (if ltb block (compared_block hf) && not (is_some acc) then some (compared_block hf) else acc)
      hfs

-- The block of the hardfork in front of the merge.
abbrev block_before_merge : Common → Result CommonError (Option ℕ)
block_before_merge c = elim (find_index has_ttd c.chain.hardforks) [
  | none ↦ err merge_not_found
  | some zero ↦ err type_error
  | some (suc i) ↦ (do
    hf ← or_throw (get_elem? c.chain.hardforks i) type_error
    ok (hardfork_block c (some hf.name)))
]

abbrev current_block : Common → Text → Result CommonError (Option ℕ)
current_block c name =
    if not (is_some (hardfork_block c (some name))) && is_merge name
    then block_before_merge c
    else ok (hardfork_block c (some name))

abbrev next_after : Common → Option ℕ → Option ℕ
next_after c none = none
next_after c (some block) = next_block block none c.chain.hardforks

unfoldable pub next_hardfork_block : Common → Option Text → Result CommonError (Option ℕ)
next_hardfork_block c hardfork = do
  block ← current_block c (or_set c hardfork)
  ok (next_after c block)

abbrev equals : Option ℕ → ℕ → Bool
equals none n = false
equals (some m) n = m == n

unfoldable pub is_next_hardfork_block : Common → ℕ → Option Text → Result CommonError Bool
is_next_hardfork_block c block_number hardfork = do
  next ← next_hardfork_block c hardfork
  ok (equals next block_number)

-- `hexToBytes(blockOrTime.toString(16).padStart(16, '0'))`, 8 bytes for a number below 2 ** 64.
abbrev pub time_bytes : ℕ → List ℕ
time_bytes t = parse_pairs (pad_start 16 b'0' (to_string 16 t))

-- Does a hardfork add to the hash, when the last block or time added is `prev`?
abbrev pub adds : Hardfork → ℕ → ℕ → Bool
adds hf prev t = not (t == 0) && not (t == prev) && not (is_merge hf.name)

abbrev pub added : Hardfork → ℕ → Option ℕ
added hf prev = elim (time_or_block hf) [
  | none ↦ none
  | some t ↦ if adds hf prev t then some t else none
]

-- The loop of `_calcForkHash`.
unfoldable pub fork_bytes : Text → List Hardfork → ℕ → List ℕ → List ℕ
fork_bytes hardfork [] prev bytes = bytes
fork_bytes hardfork (hf ∷ hfs) prev bytes = elim (added hf prev) [
  | none ↦ elim (text_eq hf.name hardfork) [
    | true ↦ bytes
    | false ↦ fork_bytes hardfork hfs prev bytes
  ]
  | some t ↦ elim (text_eq hf.name hardfork) [
    | true ↦ bytes ++ time_bytes t
    | false ↦ fork_bytes hardfork hfs t (bytes ++ time_bytes t)
  ]
]

-- `padToEven`
abbrev pub pad_to_even : Text → Text
pad_to_even t = if length t % 2 == 0 then t else b'0' ∷ t

module _ (crc32 : List ℕ → ℕ) where
  unfoldable pub calc_fork_hash : Common → Text → List ℕ → Text
  calc_fork_hash c hardfork genesis_hash = uint8_array_to_hex_string (
      parse_pairs (
        pad_to_even
          (to_string 16 (crc32 (genesis_hash ++ fork_bytes hardfork c.chain.hardforks 0 [])))))

  abbrev is_future : Hardfork → Bool
  is_future hf = not (is_some hf.block) && not (is_some hf.timestamp) && not (is_some hf.ttd)

  abbrev hash_or_calc : Common → Hardfork → Text → Option (List ℕ) → Result CommonError Text
  hash_or_calc c data_ hardfork genesis_hash = elim data_.fork_hash [
    | some fork_hash ↦ ok fork_hash
    | none ↦ elim genesis_hash [
      | none ↦ err genesis_hash_required
      | some genesis ↦ ok (calc_fork_hash c hardfork genesis)
    ]
  ]

  unfoldable pub fork_hash : Common → Option Text → Option (List ℕ) → Result CommonError Text
  fork_hash c hardfork genesis_hash = elim (get_hardfork c (or_set c hardfork)) [
    | none ↦ err future_hardfork
    | some data_ ↦
        if is_future data_
        then err future_hardfork
        else hash_or_calc c data_ (or_set c hardfork) genesis_hash
  ]

abbrev last_or_none : List Hardfork → Option Hardfork
last_or_none [] = none
last_or_none (hf ∷ []) = some hf
last_or_none (hf ∷ next ∷ hfs) = last_or_none (next ∷ hfs)

abbrev has_hash : Text → Hardfork → Bool
has_hash hash hf = elim hf.fork_hash [ none ↦ false | some fork_hash ↦ text_eq fork_hash hash ]

unfoldable pub hardfork_for_fork_hash : Common → Text → Option Hardfork
hardfork_for_fork_hash c hash = last_or_none (filter (has_hash hash) c.chain.hardforks)

abbrev lacks_hash : Hardfork → Bool
lacks_hash hf = not (is_some hf.fork_hash) && (is_some (time_or_block hf) || is_some hf.ttd)

abbrev with_hardforks : Common → List Hardfork → Common
with_hardforks c hardforks = record c { chain = record c.chain { hardforks = hardforks } }

-- The loop of `setForkHashes`, behind the hardforks that it has gone through: `forkHash` reads the
-- hardforks as they are by then.
abbrev set_hashes :
    (List ℕ → ℕ)
    → Common
    → List ℕ
    → List Hardfork
    → List Hardfork
    → Result CommonError (List Hardfork)
set_hashes crc32 c genesis_hash done [] = ok done
set_hashes crc32 c genesis_hash done (hf ∷ hfs) = elim (lacks_hash hf) [
  | false ↦ set_hashes crc32 c genesis_hash (done ++ (hf ∷ [])) hfs
  | true ↦ (do
    hash ←
        fork_hash crc32 (with_hardforks c (done ++ (hf ∷ hfs))) (some hf.name) (some genesis_hash)
    set_hashes crc32 c genesis_hash (done ++ (record hf { fork_hash = some hash } ∷ [])) hfs)
]

unfoldable pub set_fork_hashes : (List ℕ → ℕ) → Common → List ℕ → Result CommonError Common
set_fork_hashes crc32 c genesis_hash = do
  hardforks ← set_hashes crc32 c genesis_hash [] c.chain.hardforks
  ok (with_hardforks c hardforks)
