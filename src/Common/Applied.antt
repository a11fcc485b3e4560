-- ===== src/Common/Applied.antt =====
-- The hardfork of a block number, where neither a total difficulty nor a timestamp is given and
-- every applied hardfork has a block.
use electroneum_web3_js.Base.{
  ℕ, zero, suc, ◌≤◌, ◌<◌, ◌≡◌, refl, ap, List, [], ◌∷◌, true, false, ◌||◌, Option, none, some,
  Option-cases, Bool-cases, inl, inr, ok, if◌then◌else◌, ltb, length, get_elem?, take, drop, All,
  All-take, arith,
}
use electroneum_web3_js.Common.{Hardfork, Common}
use electroneum_web3_js.Common.Blocks.{
  is_some, filter, find_index, is_applied, has_ttd, is_later, after_merge, first_later,
  candidate_index, reverse_onto, apply_ttd, run_length, last_on_same_block, check_timestamp,
  hardfork_at, get_hardfork_by_block_number,
}

-- Every hardfork has a block, not below those in front of it.
abbrev pub IsAscending : ℕ → List Hardfork → Type 0
IsAscending low [] = Unit {0}
IsAscending low (hf ∷ hfs) = (b : ℕ) × (hf.block ≡ some b) × (low ≤ b) × IsAscending b hfs

-- The last hardfork whose block is not behind the number.
abbrev pub latest : ℕ → Hardfork → List Hardfork → Hardfork
latest n hf [] = hf
latest n hf (next ∷ hfs) = latest n (if is_later n none next then hf else next) hfs

-- How many hardforks come in front of the first later one.
reached : ℕ → List Hardfork → ℕ
reached n [] = 0
reached n (hf ∷ hfs) = let rest = reached n hfs in if is_later n none hf then 0 else suc rest

latest-later :
    (n low : ℕ) (hf : Hardfork) (hfs : List Hardfork)
    → n < low
    → IsAscending low hfs
    → latest n hf hfs ≡ hf
latest-later n low hf [] h asc = refl
latest-later n low hf (next ∷ hfs) h (b, is_b, le, asc) =
    let later : is_later n none next ≡ true = rw is_b (ground (arith, le, h)) in
    rw later (latest-later n b hf hfs (omega (arith, le, h)) asc)

abbrev index_or : Option ℕ → ℕ → ℕ
index_or none n = n
index_or (some i) n = i

find_index-reached :
    (n : ℕ) (hfs : List Hardfork)
    → index_or (find_index (is_later n none) hfs) (length hfs) ≡ reached n hfs
unfolding reached
find_index-reached n [] = refl
find_index-reached n (hf ∷ hfs) =
    let rest = find_index-reached n hfs in
    elim (Bool-cases (is_later n none hf)) [
      | inl later ↦ rw (find_index, reached, later) refl
      | inr now ↦ elim (Option-cases (find_index (is_later n none) hfs)) [
        | inl none_ ↦ rw (find_index, reached, now, none_) (ap suc (rw none_ at rest))
        | inr (i, is_i) ↦ rw (find_index, reached, now, is_i) (ap suc (rw is_i at rest))
      ]
    ]

first_later-reached :
    (n : ℕ) (hf : Hardfork) (hfs : List Hardfork)
    → is_later n none hf ≡ false
    → first_later (find_index (is_later n none) (hf ∷ hfs)) (hf ∷ hfs) ≡ ok (suc (reached n hfs))
first_later-reached n hf hfs now =
    let rest = find_index-reached n hfs in
    elim (Option-cases (find_index (is_later n none) hfs)) [
      | inl none_ ↦ rw (find_index, now, none_) (ap (λ k. ok (suc k)) (rw none_ at rest))
      | inr (i, is_i) ↦ rw (find_index, now, is_i) (ap (λ k. ok (suc k)) (rw is_i at rest))
    ]

-- Looking back from the candidate, the first hardfork has a block.
abbrev Scheduled : List Hardfork → Type 0
Scheduled hfs = All (λ hf. is_some hf.block ≡ true) hfs

IsAscending-Scheduled : (low : ℕ) (hfs : List Hardfork) → IsAscending low hfs → Scheduled hfs
IsAscending-Scheduled low [] asc = tt
IsAscending-Scheduled low (hf ∷ hfs) (b, is_b, le, asc) =
    (rw is_b refl, IsAscending-Scheduled b hfs asc)

reverse_onto-head :
    (xs : List Hardfork) (y : Hardfork) (ys : List Hardfork)
    → Scheduled xs
    → is_some y.block ≡ true
    → find_index (λ hf. is_some hf.block || is_some hf.ttd) (reverse_onto xs (y ∷ ys)) ≡ some 0
reverse_onto-head [] y ys all_ h = rw (find_index, h) refl
reverse_onto-head (x ∷ xs) y ys (g, all_) h = reverse_onto-head xs x (y ∷ ys) all_ g

candidate_index-Scheduled :
    (hf : Hardfork) (hfs : List Hardfork) (k : ℕ)
    → is_some hf.block ≡ true
    → Scheduled hfs
    → candidate_index (hf ∷ hfs) none (suc k) ≡ k
unfolding candidate_index
candidate_index-Scheduled hf hfs k h all_ =
    rw (candidate_index, reverse_onto-head (take k hfs) hf [] (All-take _ k hfs all_) h)
      (omega arith)

get_elem?-drop {ℓ} :
    {A : Type ℓ} (xs : List A) (i : ℕ) (y : A) (ys : List A)
    → drop i xs ≡ y ∷ ys
    → get_elem? xs i ≡ some y
get_elem?-drop [] zero y ys e = cc
get_elem?-drop [] (suc i) y ys e = cc
get_elem?-drop (x ∷ xs) zero y ys e = cc
get_elem?-drop (x ∷ xs) (suc i) y ys e = get_elem?-drop xs i y ys e

apply_ttd-Scheduled :
    (hfs : List Hardfork) (merge : Option ℕ) (i : ℕ) (hf : Hardfork)
    → get_elem? hfs i ≡ some hf
    → is_some hf.block ≡ true
    → apply_ttd hfs merge none i ≡ ok i
unfolding apply_ttd
apply_ttd-Scheduled hfs none i hf e h = rw (apply_ttd, e, h) refl
apply_ttd-Scheduled hfs (some merge) i hf e h = rw (apply_ttd, e, h) refl

-- The list from the last hardfork reached on.
record IsCut (n : ℕ) (hf : Hardfork) (hfs : List Hardfork) : Type 0 where
  rest : List Hardfork
  cut : drop (reached n hfs) (hf ∷ hfs) ≡ latest n hf hfs ∷ rest
  alone : run_length (latest n hf hfs) rest ≡ 0
  scheduled : is_some (latest n hf hfs).block ≡ true

later-true : (n d : ℕ) (hf : Hardfork) → hf.block ≡ some d → n < d → is_later n none hf ≡ true
later-true n d hf is_d lt = rw is_d (ground (arith, lt))

later-false : (n d : ℕ) (hf : Hardfork) → hf.block ≡ some d → d ≤ n → is_later n none hf ≡ false
later-false n d hf is_d le = rw is_d (ground (arith, le))

run_length-later :
    (n b d : ℕ) (hf next : Hardfork) (hfs : List Hardfork)
    → hf.block ≡ some b
    → next.block ≡ some d
    → b ≤ n
    → n < d
    → run_length hf (next ∷ hfs) ≡ 0
unfolding run_length
run_length-later n b d hf next hfs is_b is_d le lt =
    rw (run_length, is_b, is_d) (ground (arith, le, lt))

cut_at :
    (n b : ℕ) (hf : Hardfork) (hfs : List Hardfork)
    → hf.block ≡ some b
    → b ≤ n
    → IsAscending b hfs
    → IsCut n hf hfs
unfolding reached run_length
cut_at n b hf [] is_b le asc = record {
  rest = [];
  cut = refl;
  alone = refl;
  scheduled = rw is_b refl;
}
cut_at n b hf (next ∷ hfs) is_b le (d, is_d, le₂, asc) = elim (Bool-cases (ltb n d)) [
  | inl lt ↦
      let later = later-true n d next is_d (ground (arith, lt)) in
      let same = latest-later n d hf hfs (ground (arith, lt)) asc in
      record {
        rest = next ∷ hfs;
        cut = rw (reached, latest, later, same) refl;
        alone =
            rw (latest, later, same)
              (run_length-later n b d hf next hfs is_b is_d le (ground (arith, lt)));
        scheduled = rw (latest, later, same, is_b) refl;
      }
  | inr ge ↦
      let now = later-false n d next is_d (ground (arith, ge)) in
      let c = cut_at n d next hfs is_d (ground (arith, ge)) asc in
      record {
        rest = c.rest;
        cut = rw (reached, latest, now) c.cut;
        alone = rw (latest, now) c.alone;
        scheduled = rw (latest, now) c.scheduled;
      }
]

-- Where the applied hardforks have ascending blocks from 0 on and at most one of them a total
-- difficulty, `getHardforkByBlockNumber` of a block number alone returns the last hardfork whose
-- block is not behind the number.
pub get_hardfork_by_block_number-latest :
    (c : Common) (n : ℕ) (hf : Hardfork) (hfs : List Hardfork)
    → filter is_applied c.chain.hardforks ≡ hf ∷ hfs
    → hf.block ≡ some 0
    → IsAscending 0 hfs
    → is_some (find_index has_ttd (after_merge (find_index has_ttd (hf ∷ hfs)) (hf ∷ hfs))) ≡ false
    → get_hardfork_by_block_number c n none none ≡ ok (latest n hf hfs).name
unfolding get_hardfork_by_block_number hardfork_at last_on_same_block check_timestamp
get_hardfork_by_block_number-latest c n hf hfs applied at_0 asc one_merge =
    let cut = cut_at n 0 hf hfs at_0 (omega arith) asc in
    let start : is_some hf.block ≡ true = rw at_0 refl in
    let here = get_elem?-drop (hf ∷ hfs) (reached n hfs) (latest n hf hfs) cut.rest cut.cut in
    let stays : last_on_same_block (hf ∷ hfs) (reached n hfs) ≡ reached n hfs =
      rw (last_on_same_block, cut.cut, cut.alone) (omega arith) in
    rw
      (
        get_hardfork_by_block_number,
        applied,
        hardfork_at,
        one_merge,
        first_later-reached n hf hfs (later-false n 0 hf at_0 (omega arith)),
        candidate_index-Scheduled hf hfs (reached n hfs) start (IsAscending-Scheduled 0 hfs asc),
        apply_ttd-Scheduled (hf ∷ hfs) (find_index has_ttd (hf ∷ hfs)) (reached n hfs)
            (latest n hf hfs) here cut.scheduled,
        stays,
        here,
      )
      refl
