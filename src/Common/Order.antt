-- ===== src/Common/Order.antt =====
-- The order of the hardforks of a chain, as `hardforkGteHardfork` decides it, and what `setEIPs`
-- accepts.
use electroneum_web3_js.Base.{
  ℕ, ◌+◌, ◌≤◌, ◌<◌, ◌≡◌, refl, sym, ap, ◌∙◌, List, [], ◌∷◌, ◌++◌, Bool, true, false, not, ◌||◌,
  Option, none, some, Option-cases, Bool-cases, some-injective, ◌⊎◌, inl, inr, ok, >>=-eq-ok,
  ok-injective, throw_if-eq-ok, >>-eq-ok, or_throw, or_throw-eq-ok, if◌then◌else◌, length, All,
  arith,
}
use electroneum_web3_js.Text.{Text, text_eq}
use electroneum_web3_js.Dict.{text_eq_iff}
use electroneum_web3_js.Common.{
  Hardfork, Eip, required_eip, below_minimum_hardfork, eip_not_supported, Common,
}
use electroneum_web3_js.Common.Tables.Eips.{eip_of}
use electroneum_web3_js.Common.Params.{
  place_of, not_before, hardfork_gte_hardfork, gte_hardfork, includes, is_activated_eip,
  check_required, check_eips, set_eips, eips_or_none,
}

abbrev pub has_name : Text → List Hardfork → Bool
has_name name [] = false
has_name name (hf ∷ hfs) = text_eq hf.name name || has_name name hfs

place_of-append :
    (name : Text) (xs ys : List Hardfork) (index : ℕ) (place : Option ℕ)
    → place_of name (xs ++ ys) index place
      ≡ place_of name ys (index + length xs) (place_of name xs index place)
unfolding place_of
place_of-append name [] ys index place = ap (λ i. place_of name ys i place) (omega arith)
place_of-append name (x ∷ xs) ys index place =
    place_of-append name xs ys (index + 1) (if text_eq x.name name then some index else place)
    ∙ ap
        (λ i.
          place_of name ys i
            (place_of name xs (index + 1) (if text_eq x.name name then some index else place)))
        (omega arith)

place_of-missing :
    (name : Text) (xs : List Hardfork) (index : ℕ) (place : Option ℕ)
    → has_name name xs ≡ false
    → place_of name xs index place ≡ place
unfolding place_of
place_of-missing name [] index place h = refl
place_of-missing name (x ∷ xs) index place h = elim (Bool-cases (text_eq x.name name)) [
  | inl here ↦ cc (rw here at h)
  | inr there ↦ rw (place_of, there) (place_of-missing name xs (index + 1) place (rw there at h))
]

-- A place at or behind the start is kept or moves up.
place_of-some :
    (name : Text) (xs : List Hardfork) (index start i : ℕ)
    → start ≤ i
    → start ≤ index
    → (j : ℕ) × (place_of name xs index (some i) ≡ some j) × (start ≤ j)
unfolding place_of
place_of-some name [] index start i h k = (i, refl, h)
place_of-some name (x ∷ xs) index start i h k = elim (Bool-cases (text_eq x.name name)) [
  | inl here ↦ rw (place_of, here) (place_of-some name xs (index + 1) start index k (omega arith))
  | inr there ↦ rw (place_of, there) (place_of-some name xs (index + 1) start i h (omega arith))
]

place_of-present :
    (name : Text) (xs : List Hardfork) (index : ℕ) (place : Option ℕ)
    → has_name name xs ≡ true
    → (j : ℕ) × (place_of name xs index place ≡ some j) × (index ≤ j)
unfolding place_of
place_of-present name [] index place h = cc
place_of-present name (x ∷ xs) index place h = elim (Bool-cases (text_eq x.name name)) [
  | inl here ↦
      rw (place_of, here)
        (place_of-some name xs (index + 1) index index (omega arith) (omega arith))
  | inr there ↦
      let (j, is_j, le) = place_of-present name xs (index + 1) place (rw there at h) in
      (j, rw (place_of, there) is_j, omega arith)
]

-- A place is inside the list.
place_of-bound :
    (name : Text) (xs : List Hardfork) (index j : ℕ) (place : Option ℕ)
    → ((i : ℕ) → place ≡ some i → i < index)
    → place_of name xs index place ≡ some j
    → j < index + length xs
unfolding place_of
place_of-bound name [] index j place h e = omega (arith, h j e)
place_of-bound name (x ∷ xs) index j place h e = elim (Bool-cases (text_eq x.name name)) [
  | inl here ↦ omega (
    arith,
    place_of-bound name xs (index + 1) j (some index) (λ i same. omega (arith, some-injective same))
        (rw (place_of, here) at e),
  )
  | inr there ↦ omega (
    arith,
    place_of-bound name xs (index + 1) j place (λ i same. omega (arith, h i same))
        (rw (place_of, there) at e),
  )
]

place_of-last :
    (hf : Hardfork) (ys : List Hardfork) (index : ℕ) (place : Option ℕ)
    → has_name hf.name ys ≡ false
    → place_of hf.name (hf ∷ ys) index place ≡ some index
unfolding place_of
place_of-last hf ys index place last =
    rw (place_of, (text_eq_iff hf.name hf.name).1 refl)
      (place_of-missing hf.name ys (index + 1) (some index) last)

-- The place of a name that is not behind the first part is inside that part.
not_before-absent :
    (name : Text) (xs : List Hardfork)
    → not_before (place_of name xs 0 none) (some (length xs)) ≡ false
not_before-absent name xs = elim (Option-cases (place_of name xs 0 none)) [
  | inl none_ ↦ rw none_ refl
  | inr (i, is_i) ↦
      let bound = place_of-bound name xs 0 i none (λ j same. absurd (cc same)) is_i in
      rw is_i (ground (arith, bound))
]

-- For a hardfork of the chain whose name does not come again: a name is greater or equal when it
-- is the name of the hardfork or of one behind it.
pub hardfork_gte_hardfork-append :
    (c : Common) (name : Text) (hf : Hardfork) (xs ys : List Hardfork)
    → c.chain.hardforks ≡ xs ++ (hf ∷ ys)
    → has_name hf.name ys ≡ false
    → hardfork_gte_hardfork c (some name) hf.name ≡ has_name name (hf ∷ ys)
unfolding hardfork_gte_hardfork
hardfork_gte_hardfork-append c name hf xs ys whole last =
    let start : 0 + length xs ≡ length xs = omega arith in
    let place₂ = place_of-last hf ys (length xs) (place_of hf.name xs 0 none) last in
    elim (Bool-cases (has_name name (hf ∷ ys))) [
      | inl present ↦
          let (j, is_j, le) =
            place_of-present name (hf ∷ ys) (length xs) (place_of name xs 0 none) present in
          rw
            (
              whole,
              place_of-append name xs (hf ∷ ys) 0 none,
              place_of-append hf.name xs (hf ∷ ys) 0 none,
              start,
              place₂,
              is_j,
              present,
            )
            (ground (arith, le))
      | inr absent ↦
          rw
            (
              whole,
              place_of-append name xs (hf ∷ ys) 0 none,
              place_of-append hf.name xs (hf ∷ ys) 0 none,
              start,
              place₂,
              absent,
              place_of-missing name (hf ∷ ys) (length xs) (place_of name xs 0 none) absent,
            )
            (not_before-absent name xs)
    ]

-- What `setEIPs` asks of an EIP.
pub record IsActivatable (c : Common) (eips : List ℕ) (eip : ℕ) : Type 0 where
  pub params : Eip
  pub supported : eip_of eip ≡ some params
  pub minimum : gte_hardfork c params.minimum_hardfork ≡ true
  pub required :
      All
        (λ elem. (includes elem eips ≡ true) ⊎ (is_activated_eip c elem ≡ ok true))
        (eips_or_none params.required_eips)

check_required-eq-ok :
    (c : Common) (eips : List ℕ) (eip : ℕ) (elems : List ℕ)
    → check_required c eips eip elems ≡ ok tt
    → All (λ elem. (includes elem eips ≡ true) ⊎ (is_activated_eip c elem ≡ ok true)) elems
unfolding check_required
check_required-eq-ok c eips eip [] e = tt
check_required-eq-ok c eips eip (elem ∷ elems) e =
    let (included, is_included, e₁) =
      >>=-eq-ok (if includes elem eips then ok true else is_activated_eip c elem) _ e in
    let (holds, e₂) = throw_if-eq-ok (not included) (required_eip eip elem) _ e₁ in
    let yes_ : included ≡ true = ground (arith, holds) in
    (
      elim (Bool-cases (includes elem eips)) [
        | inl inside ↦ inl inside
        | inr outside ↦ inr (rw (outside, yes_) at is_included)
      ],
      check_required-eq-ok c eips eip elems e₂,
    )

check_eips-eq-ok :
    (c : Common) (all_eips eips : List ℕ)
    → check_eips c all_eips eips ≡ ok tt
    → All (IsActivatable c all_eips) eips
unfolding check_eips
check_eips-eq-ok c all_eips [] e = tt
check_eips-eq-ok c all_eips (eip ∷ eips) e =
    let (params, is_params, e₁) = >>=-eq-ok (or_throw (eip_of eip) (eip_not_supported eip)) _ e in
    let (reached, e₂) =
      throw_if-eq-ok (not (gte_hardfork c params.minimum_hardfork)) (below_minimum_hardfork eip) _
        e₁ in
    let (required_ok, e₃) =
      >>-eq-ok (check_required c all_eips eip (eips_or_none params.required_eips)) _ e₂ in
    (
      record {
        params = params;
        supported = or_throw-eq-ok (eip_of eip) (eip_not_supported eip) is_params;
        minimum = ground (arith, reached);
        required =
            check_required-eq-ok c all_eips eip (eips_or_none params.required_eips) required_ok;
      },
      check_eips-eq-ok c all_eips eips e₃,
    )

-- What `setEIPs` sets: every EIP has a table, its minimum hardfork is reached, and every EIP that it
-- requires is among them or active; nothing else changes.
pub set_eips-eq-ok :
    (c d : Common) (eips : List ℕ)
    → set_eips c eips ≡ ok d
    → (d ≡ record c { eips = eips }) × All (IsActivatable c eips) eips
unfolding set_eips
set_eips-eq-ok c d eips e =
    let (checked, set) = >>-eq-ok (check_eips c eips eips) _ e in
    (sym (ok-injective set), check_eips-eq-ok c eips eips checked)
