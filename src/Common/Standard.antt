-- ===== src/Common/Standard.antt =====
-- `paramByHardfork` on mainnet, goerli and sepolia.
use electroneum_web3_js.Base.{
  ℕ, zero, suc, ◌≡◌, refl, sym, ◌∙◌, List, [], ◌∷◌, ◌++◌, Bool, true, false, Option, some,
  Bool-cases, and-true, inl, inr, All, subst, some-injective, ok, err, all, length, ◌-◌, take, drop,
  take-drop, get_elem?,
}
use electroneum_web3_js.Text.{Text, lit, text_eq}
use electroneum_web3_js.Dict.{text_key, number_key, text_eq_iff, lookup}
use electroneum_web3_js.Common.{ChainConfig, Spec, CommonError, Common}
use electroneum_web3_js.Common.Tables.Eips.{eip_of}
use electroneum_web3_js.Common.Tables.Specs.{spec_of, shanghai}
use electroneum_web3_js.Common.Tables.Mainnet.{mainnet}
use electroneum_web3_js.Common.Tables.Goerli.{goerli}
use electroneum_web3_js.Common.Tables.Sepolia.{sepolia}
use electroneum_web3_js.Common.Params.{eips_or_none, has_member, is_inherited, param_by_hardfork}
use electroneum_web3_js.Common.Chains.{has_changes, changes_of}
use electroneum_web3_js.Common.Reading.{
  is_supported, changes_read, values_pass, eip_reads, spec_reads, param_by_hardfork-ok,
  param_by_hardfork-err,
}

-- The topics that every table has.
abbrev pub topics : List Text
topics = lit "gasConfig" ∷ lit "gasPrices" ∷ lit "vm" ∷ lit "pow" ∷ []

abbrev pub standard : List ChainConfig
standard = mainnet ∷ goerli ∷ sepolia ∷ []

-- The changes before shanghai, which is the last hardfork of each.
abbrev pub front : ChainConfig → List (Text × Option Spec)
front chain = take (length chain.hardforks - 1) (changes_of chain.hardforks)

abbrev reads_all : ChainConfig → Bool
reads_all chain = all (λ topic. changes_read topic (lit "tierStep") (front chain)) topics

standard_reads : all reads_all standard ≡ true
unfolding changes_read values_pass eip_reads spec_reads changes_of spec_of eip_of lookup
standard_reads = refl

-- Shanghai has an EIP without a table.
abbrev EndsInShanghai : ChainConfig → Type 0
EndsInShanghai chain =
    (changes_of chain.hardforks ≡ front chain ++ ((lit "shanghai", some shanghai) ∷ []))
    × (all is_supported (eips_or_none shanghai.eips) ≡ false)

standard_ends : All EndsInShanghai standard
unfolding changes_of spec_of is_supported eip_of lookup
standard_ends = ((refl, refl), ((refl, refl), ((refl, refl), tt)))

all-get_elem? {ℓ} :
    {A : Type ℓ} (p : A → Bool) (xs : List A) (i : ℕ) (x : A)
    → all p xs ≡ true
    → get_elem? xs i ≡ some x
    → p x ≡ true
all-get_elem? p [] i x h e = cc
all-get_elem? p (y ∷ ys) zero x h e = let (head, tail) = and-true (p y) (all p ys) h in cc
all-get_elem? p (y ∷ ys) (suc i) x h e =
    let (head, tail) = and-true (p y) (all p ys) h in all-get_elem? p ys i x tail e

All-get_elem? {ℓ κ} :
    {A : Type ℓ} (P : A → Type κ) (xs : List A) (i : ℕ) (x : A)
    → All P xs
    → get_elem? xs i ≡ some x
    → P x
All-get_elem? P [] i x h e = cc
All-get_elem? P (y ∷ ys) zero x (p, h) e = subst P (some-injective e) p
All-get_elem? P (y ∷ ys) (suc i) x (p, h) e = All-get_elem? P ys i x h e

all-has_member :
    (p : Text → Bool) (t : Text) (ts : List Text)
    → all p ts ≡ true
    → has_member t ts ≡ true
    → p t ≡ true
all-has_member p t [] h m = cc
all-has_member p t (u ∷ us) h m =
    let (head, tail) = and-true (p u) (all p us) h in
    elim (Bool-cases (text_eq u t)) [
      | inl here ↦ subst (λ v. p v ≡ true) ((text_eq_iff u t).0 here) head
      | inr there ↦ all-has_member p t us tail (rw there at m)
    ]

-- On the standard chains, for the topics gasConfig, gasPrices, vm and pow, and for every hardfork
-- before shanghai, `paramByHardfork` returns a value for every name but tierStep and those that every
-- object inherits, such as constructor.
pub param_by_hardfork-standard :
    (i : ℕ) (chain : ChainConfig) (c : Common) (topic name hardfork : Text)
    → get_elem? standard i ≡ some chain
    → c.changes ≡ changes_of chain.hardforks
    → has_member topic topics ≡ true
    → text_eq name (lit "tierStep") ≡ false
    → is_inherited name ≡ false
    → has_changes hardfork (front chain) ≡ true
    → (n : ℕ) × (param_by_hardfork c topic name hardfork ≡ ok n)
param_by_hardfork-standard i chain c topic name hardfork is_chain is_changes is_topic differs own
      before =
    let reads =
      all-has_member (λ t. changes_read t (lit "tierStep") (front chain)) topic topics
        (all-get_elem? reads_all standard i chain standard_reads is_chain) is_topic in
    let split = take-drop (length chain.hardforks - 1) (changes_of chain.hardforks) in
    param_by_hardfork-ok topic (lit "tierStep") name differs own c hardfork (front chain)
      (drop (length chain.hardforks - 1) (changes_of chain.hardforks)) (is_changes ∙ sym split)
      reads before

-- On the standard chains, `paramByHardfork` throws for every other hardfork, shanghai included,
-- whatever the topic and the name.
pub param_by_hardfork-shanghai :
    (i : ℕ) (chain : ChainConfig) (c : Common) (topic name hardfork : Text)
    → get_elem? standard i ≡ some chain
    → c.changes ≡ changes_of chain.hardforks
    → has_changes hardfork (front chain) ≡ false
    → (e : CommonError) × (param_by_hardfork c topic name hardfork ≡ err e)
param_by_hardfork-shanghai i chain c topic name hardfork is_chain is_changes after =
    let (ends, unsupported) =
      All-get_elem? EndsInShanghai standard i chain standard_ends is_chain in
    param_by_hardfork-err topic name c hardfork (lit "shanghai") (front chain) [] shanghai
      (eips_or_none shanghai.eips) (is_changes ∙ ends) after refl unsupported
