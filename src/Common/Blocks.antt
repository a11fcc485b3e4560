-- ===== src/Common/Blocks.antt =====
-- web3-eth-accounts/src/common/common.ts: the hardfork of a block, the next hardfork and the fork
-- hashes. Block numbers, total difficulties and timestamps are natural numbers.
use electroneum_web3_js.Base.{
  ℕ, zero, suc, ◌+◌, ◌-◌, List, [], ◌∷◌, Bool, true, false, not, ◌&&◌, ◌||◌, Option, none, some,
  Result, ok, err, ◌>>=◌, ◌>>◌, throw_if, or_throw, if◌then◌else◌, ltb, leb, ◌==◌, length,
  get_elem?, take, drop, max, min,
}
use electroneum_web3_js.Text.{Text}
use electroneum_web3_js.Common.{
  Hardfork, CommonError, no_hardfork_at_start, several_merges, below_total_difficulty,
  above_total_difficulty, below_timestamp, above_timestamp, type_error, Common,
}
use electroneum_web3_js.Common.Params.{hardfork_block, param_by_hardfork}
use electroneum_web3_js.Common.Chains.{set_hardfork}

abbrev pub is_some {ℓ} : {A : Type ℓ} → Option A → Bool
is_some none = false
is_some (some a) = true

abbrev pub filter {ℓ} : {A : Type ℓ} → (A → Bool) → List A → List A
filter p [] = []
filter p (x ∷ xs) = let rest = filter p xs in if p x then x ∷ rest else rest

-- `list.findIndex(p)`; `none` is -1.
abbrev pub find_index {ℓ} : {A : Type ℓ} → (A → Bool) → List A → Option ℕ
find_index p [] = none
find_index p (x ∷ xs) = elim (p x) [
  | true ↦ some 0
  | false ↦ elim (find_index p xs) [ none ↦ none | some i ↦ some (suc i) ]
]

abbrev pub is_applied : Hardfork → Bool
is_applied hf = is_some hf.block || is_some hf.ttd || is_some hf.timestamp

abbrev pub has_ttd : Hardfork → Bool
has_ttd hf = is_some hf.ttd

-- `limit > n`, false where there is no limit.
abbrev pub exceeds : Option ℕ → ℕ → Bool
exceeds none n = false
exceeds (some limit) n = ltb n limit

-- A hardfork that comes after the block, or after the timestamp where one is given.
abbrev pub is_later : ℕ → Option ℕ → Hardfork → Bool
is_later block_number none hf = exceeds hf.block block_number
is_later block_number (some timestamp) hf =
    exceeds hf.block block_number || exceeds hf.timestamp timestamp

-- `hfs.slice(mergeIndex + 1)`, where a `mergeIndex` of -1 leaves the whole list.
abbrev pub after_merge : Option ℕ → List Hardfork → List Hardfork
after_merge none hfs = hfs
after_merge (some merge_index) hfs = drop (suc merge_index) hfs

-- The index behind the candidate: the first later hardfork, or the end.
abbrev pub first_later : Option ℕ → List Hardfork → Result CommonError ℕ
first_later none hfs = ok (length hfs)
first_later (some zero) hfs = err no_hardfork_at_start
first_later (some (suc i)) hfs = ok (suc i)

abbrev pub reverse_onto {ℓ} : {A : Type ℓ} → List A → List A → List A
reverse_onto [] acc = acc
reverse_onto (x ∷ xs) acc = reverse_onto xs (x ∷ acc)

-- The candidate: `hfIndex -= stepBack; hfIndex -= 1`, where a `stepBack` of -1 adds 1. No hardfork
-- at all gives 0 here and -1 or 0 in the code: there is none at either.
unfoldable pub candidate_index : List Hardfork → Option ℕ → ℕ → ℕ
candidate_index hfs (some timestamp) hf_index = hf_index - 1
candidate_index hfs none hf_index =
    elim (find_index (λ hf. is_some hf.block || is_some hf.ttd)
      (reverse_onto (take hf_index hfs) [])) [
        | none ↦ hf_index
        | some step_back ↦ hf_index - step_back - 1
      ]

-- `td` is missing, or `ttd` is more than it.
abbrev is_below_ttd : Option ℕ → ℕ → Bool
is_below_ttd none ttd = true
is_below_ttd (some td) ttd = ltb td ttd

-- `hfs[-1]` is undefined, so that the code throws there.
abbrev one_back : ℕ → Result CommonError ℕ
one_back zero = err type_error
one_back (suc i) = ok i

abbrev merge_ttd : List Hardfork → ℕ → Result CommonError ℕ
merge_ttd hfs merge_index = do
  merge ← or_throw (get_elem? hfs merge_index) type_error
  or_throw merge.ttd type_error

-- The checks of a total difficulty against the merge.
abbrev pub check_ttd : List Hardfork → Option ℕ → Option ℕ → ℕ → Result CommonError ℕ
check_ttd hfs (some merge_index) (some td) hf_index = do
  ttd ← merge_ttd hfs merge_index
  throw_if (leb merge_index hf_index && ltb td ttd) below_total_difficulty
  throw_if (not (leb merge_index hf_index) && leb ttd td) above_total_difficulty
  ok hf_index
check_ttd hfs none td hf_index = ok hf_index
check_ttd hfs (some merge_index) none hf_index = ok hf_index

-- The candidate is the merge: one back where its difficulty is not reached.
abbrev apply_merge : Hardfork → Option ℕ → ℕ → Result CommonError ℕ
apply_merge candidate td hf_index = do
  ttd ← or_throw candidate.ttd type_error
  (if is_below_ttd td ttd then one_back hf_index else ok hf_index)

unfoldable pub apply_ttd : List Hardfork → Option ℕ → Option ℕ → ℕ → Result CommonError ℕ
apply_ttd hfs merge_index td hf_index = do
  candidate ← or_throw (get_elem? hfs hf_index) type_error
  (if not (is_some candidate.block) && not (is_some candidate.timestamp)
      then apply_merge candidate td hf_index
      else check_ttd hfs merge_index td hf_index)

-- `===` on a block or a timestamp.
abbrev pub same_time : Option ℕ → Option ℕ → Bool
same_time none none = true
same_time none (some n) = false
same_time (some m) none = false
same_time (some m) (some n) = m == n

-- How many hardforks behind one are scheduled on the same block and timestamp, each with the last.
unfoldable pub run_length : Hardfork → List Hardfork → ℕ
run_length hf [] = 0
run_length hf (next ∷ hfs) =
    let rest = run_length next hfs in
    if same_time hf.block next.block && same_time hf.timestamp next.timestamp then suc rest else 0

unfoldable pub last_on_same_block : List Hardfork → ℕ → ℕ
last_on_same_block hfs i = elim (drop i hfs) [ [] ↦ i | hf ∷ rest ↦ i + run_length hf rest ]

abbrev number_or : Option ℕ → ℕ → ℕ
number_or none n = n
number_or (some m) n = m

-- The two `reduce`s over timestamps.
abbrev max_timestamp : List Hardfork → ℕ → ℕ
max_timestamp [] acc = acc
max_timestamp (hf ∷ hfs) acc = max_timestamp hfs (max (number_or hf.timestamp 0) acc)

abbrev min_timestamp : List Hardfork → ℕ → ℕ → ℕ
min_timestamp [] timestamp acc = acc
min_timestamp (hf ∷ hfs) timestamp acc =
    min_timestamp hfs timestamp (min (number_or hf.timestamp timestamp) acc)

-- `if (timestamp)`: neither undefined nor 0.
unfoldable pub check_timestamp : List Hardfork → Option ℕ → ℕ → ℕ → Result CommonError (Unit {0})
check_timestamp hfs none start index = ok tt
check_timestamp hfs (some zero) start index = ok tt
check_timestamp hfs (some (suc t)) start index = do
  throw_if (ltb (suc t) (max_timestamp (take start hfs) 0)) below_timestamp
  throw_if (ltb (min_timestamp (drop (suc index) hfs) (suc t) (suc t)) (suc t)) above_timestamp

unfoldable pub hardfork_at : List Hardfork → ℕ → Option ℕ → Option ℕ → Result CommonError Text
hardfork_at hfs block_number td timestamp =
    let merge_index = find_index has_ttd hfs in
    (do
      throw_if (is_some (find_index has_ttd (after_merge merge_index hfs))) several_merges
      hf_index ← first_later (find_index (is_later block_number timestamp) hfs) hfs
      start ← apply_ttd hfs merge_index td (candidate_index hfs timestamp hf_index)
      check_timestamp hfs timestamp start (last_on_same_block hfs start)
      hf ← or_throw (get_elem? hfs (last_on_same_block hfs start)) type_error
      ok hf.name)

unfoldable pub get_hardfork_by_block_number :
    Common → ℕ → Option ℕ → Option ℕ → Result CommonError Text
get_hardfork_by_block_number c block_number td timestamp =
    hardfork_at (filter is_applied c.chain.hardforks) block_number td timestamp

unfoldable pub set_hardfork_by_block_number :
    Common → ℕ → Option ℕ → Option ℕ → Result CommonError Common
set_hardfork_by_block_number c block_number td timestamp = do
  hardfork ← get_hardfork_by_block_number c block_number td timestamp
  set_hardfork c hardfork

unfoldable pub param_by_block :
    Common → Text → Text → ℕ → Option ℕ → Option ℕ → Result CommonError ℕ
param_by_block c topic name block_number td timestamp = do
  hardfork ← get_hardfork_by_block_number c block_number td timestamp
  param_by_hardfork c topic name hardfork

-- `hardforkIsActiveOnBlock`: block 0 does not count.
unfoldable pub hardfork_is_active_on_block : Common → Option Text → ℕ → Bool
hardfork_is_active_on_block c hardfork block_number = elim (hardfork_block c hardfork) [
  | none ↦ false
  | some block ↦ not (block == 0) && leb block block_number
]

unfoldable pub is_hardfork_block : Common → ℕ → Option Text → Bool
is_hardfork_block c block_number hardfork = elim (hardfork_block c hardfork) [
  | none ↦ false
  | some block ↦ not (block == 0) && block == block_number
]
