-- ===== src/Common/Reading.antt =====
-- When `paramByHardfork` of web3-eth-accounts/src/common/common.ts returns, on any tables and on those
-- of the standard chains.
use electroneum_web3_js.Base.{
  ℕ, ◌≡◌, refl, sym, List, [], ◌∷◌, ◌++◌, Bool, true, false, ◌&&◌, ◌||◌, Option, none, some,
  Option-cases, Bool-cases, and-true, Result-cases, ok, err, inl, inr, all,
}
use electroneum_web3_js.Text.{Text, text_eq}
use electroneum_web3_js.Dict.{text_key, number_key, text_eq_iff, lookup}
use electroneum_web3_js.Common.{Amount, amount, null, amounts, discounts, Spec, CommonError, Common}
use electroneum_web3_js.Common.Tables.Eips.{eip_of}
use electroneum_web3_js.Common.Params.{
  is_inherited, value_of, big_int_of, param_by_eip, param_by_eips, change_value, param_loop,
  big_int_or_zero, param_by_hardfork,
}
use electroneum_web3_js.Common.Chains.{has_changes}
use electroneum_web3_js.Common.Blocks.{is_some}

-- A number; a number or null.
abbrev is_number : Amount → Bool
is_number (amount n) = true
is_number null = false
is_number (amounts ns) = false
is_number (discounts ds) = false

abbrev is_plain : Amount → Bool
is_plain (amount n) = true
is_plain null = true
is_plain (amounts ns) = false
is_plain (discounts ds) = false

-- All values but that of one name pass a test.
unfoldable pub values_pass : (Amount → Bool) → Text → List (Text × Amount) → Bool
values_pass p other [] = true
values_pass p other ((name, v) ∷ params) = (text_eq name other || p v) && values_pass p other params

unfoldable pub eip_reads : Text → Text → ℕ → Bool
eip_reads topic other eip = elim (eip_of eip) [
  | none ↦ false
  | some e ↦ elim (lookup topic e.topics) [
    | none ↦ false
    | some params ↦ values_pass is_number other params
  ]
]

unfoldable pub spec_reads : Text → Text → Option Spec → Bool
spec_reads topic other none = false
spec_reads topic other (some spec) = elim spec.eips [
  | some eips ↦ all (eip_reads topic other) eips
  | none ↦ elim (lookup topic spec.topics) [
    | none ↦ false
    | some params ↦ values_pass is_plain other params
  ]
]

unfoldable pub changes_read : Text → Text → List (Text × Option Spec) → Bool
changes_read topic other [] = true
changes_read topic other ((hf, spec) ∷ changes) =
    spec_reads topic other spec && changes_read topic other changes

number-cases : (v : Amount) → is_number v ≡ true → (n : ℕ) × (v ≡ amount n)
number-cases (amount n) e = (n, refl)
number-cases null e = cc
number-cases (amounts ns) e = cc
number-cases (discounts ds) e = cc

big_int_or_zero-plain : (v : Amount) → is_plain v ≡ true → (n : ℕ) × (big_int_or_zero v ≡ ok n)
unfolding big_int_or_zero big_int_of
big_int_or_zero-plain (amount n) e = (n, refl)
big_int_or_zero-plain null e = (0, refl)
big_int_or_zero-plain (amounts ns) e = cc
big_int_or_zero-plain (discounts ds) e = cc

value_of-lookup :
    (name : Text) (params : List (Text × Amount))
    → is_inherited name ≡ false
    → value_of name params ≡ lookup name params
unfolding value_of
value_of-lookup name params own = elim (Option-cases (lookup name params)) [
  | inl none_ ↦ rw (value_of, none_, own) refl
  | inr (v, is_v) ↦ rw (value_of, is_v) refl
]

module _ (topic other name : Text) (differs : text_eq name other ≡ false)
    (own : is_inherited name ≡ false) where
  lookup-passes :
      (p : Amount → Bool) (params : List (Text × Amount)) (v : Amount)
      → values_pass p other params ≡ true
      → lookup name params ≡ some v
      → p v ≡ true
  unfolding values_pass lookup
  lookup-passes p [] v passes found = cc
  lookup-passes p ((key, w) ∷ params) v passes found =
      let (head, tail) = and-true (text_eq key other || p w) (values_pass p other params) passes in
      elim (Bool-cases (text_eq key name)) [
        | inl here ↦
            let same : ◌≡◌ {A = Option Amount} (some w) (some v) = rw here at found in
            let key_differs : text_eq key other ≡ false =
              rw (← sym ((text_eq_iff key name).0 here)) differs in
            let passed : p w ≡ true = rw key_differs at head in cc
        | inr there ↦ lookup-passes p params v tail (rw there at found)
      ]

  param_by_eip-ok :
      (eip : ℕ)
      → eip_reads topic other eip ≡ true
      → (o : Option ℕ) × (param_by_eip topic name eip ≡ ok o)
  unfolding param_by_eip eip_reads big_int_of
  param_by_eip-ok eip reads = elim (Option-cases (eip_of eip)) [
    | inl none_ ↦ absurd (cc (rw (eip_reads, none_) at reads))
    | inr (e, is_e) ↦ elim (Option-cases (lookup topic e.topics)) [
      | inl none_ ↦ absurd (cc (rw (eip_reads, is_e, none_) at reads))
      | inr (params, is_params) ↦ elim (Option-cases (lookup name params)) [
        | inl none_ ↦
            (none, rw (param_by_eip, is_e, is_params, value_of-lookup name params own, none_) refl)
        | inr (v, is_v) ↦
            let (n, is_n) =
              number-cases v (
                lookup-passes is_number params v (rw (eip_reads, is_e, is_params) at reads) is_v) in
            (
              some n,
              rw
                  (
                    param_by_eip,
                    is_e,
                    is_params,
                    value_of-lookup name params own,
                    is_v,
                    is_n,
                    big_int_of,
                  )
                  refl,
            )
      ]
    ]
  ]

  -- A chain of EIPs gives a number or leaves the value.
  param_by_eips-ok :
      (eips : List ℕ) (value : Amount)
      → all (eip_reads topic other) eips ≡ true
      → is_plain value ≡ true
      → (w : Amount) × (param_by_eips topic name eips value ≡ ok w) × (is_plain w ≡ true)
  unfolding param_by_eips
  param_by_eips-ok [] value reads plain = (value, refl, plain)
  param_by_eips-ok (eip ∷ eips) value reads plain =
      let (head, tail) = and-true _ _ reads in
      let (o, is_o) = param_by_eip-ok eip head in
      elim (Option-cases o) [
        | inl none_ ↦ rw (param_by_eips, is_o, none_) (param_by_eips-ok eips value tail plain)
        | inr (n, some_) ↦
            rw (param_by_eips, is_o, some_) (param_by_eips-ok eips (amount n) tail refl)
      ]

  change_value-ok :
      (spec : Option Spec) (value : Amount)
      → spec_reads topic other spec ≡ true
      → is_plain value ≡ true
      → (w : Amount) × (change_value topic name spec value ≡ ok w) × (is_plain w ≡ true)
  unfolding change_value spec_reads
  change_value-ok none value reads plain = cc
  change_value-ok (some spec) value reads plain = elim (Option-cases spec.eips) [
    | inr (eips, is_eips) ↦
        rw (change_value, is_eips)
          (param_by_eips-ok eips value (rw (spec_reads, is_eips) at reads) plain)
    | inl no_eips ↦ elim (Option-cases (lookup topic spec.topics)) [
      | inl none_ ↦ absurd (cc (rw (spec_reads, no_eips, none_) at reads))
      | inr (params, is_params) ↦ elim (Option-cases (lookup name params)) [
        | inl none_ ↦ (
          value,
          rw (change_value, no_eips, is_params, value_of-lookup name params own, none_) refl,
          plain,
        )
        | inr (v, is_v) ↦ (
          v,
          rw (change_value, no_eips, is_params, value_of-lookup name params own, is_v) refl,
          lookup-passes is_plain params v (rw (spec_reads, no_eips, is_params) at reads) is_v,
        )
      ]
    ]
  ]

  -- The loop stops inside the changes that it can read.
  param_loop-ok :
      (hardfork : Text) (front back : List (Text × Option Spec)) (value : Amount)
      → changes_read topic other front ≡ true
      → has_changes hardfork front ≡ true
      → is_plain value ≡ true
      → (w : Amount) × (param_loop topic name hardfork (front ++ back) value ≡ ok w)
        × (is_plain w ≡ true)
  unfolding param_loop changes_read has_changes
  param_loop-ok hardfork [] back value reads has plain = cc
  param_loop-ok hardfork ((hf, spec) ∷ front) back value reads has plain =
      let (head, tail) = and-true _ _ reads in
      let (w, is_w, plain_w) = change_value-ok spec value head plain in
      elim (Bool-cases (text_eq hf hardfork)) [
        | inl here ↦ (w, rw (param_loop, is_w, here) refl, plain_w)
        | inr there ↦
            rw (param_loop, is_w, there)
              (param_loop-ok hardfork front back w tail (rw (has_changes, there) at has) plain_w)
      ]

  -- All the tables up to the hardfork can be read.
  pub param_by_hardfork-ok :
      (c : Common) (hardfork : Text) (front back : List (Text × Option Spec))
      → c.changes ≡ front ++ back
      → changes_read topic other front ≡ true
      → has_changes hardfork front ≡ true
      → (n : ℕ) × (param_by_hardfork c topic name hardfork ≡ ok n)
  unfolding param_by_hardfork
  param_by_hardfork-ok c hardfork front back whole reads has =
      let (w, is_w, plain) = param_loop-ok hardfork front back null reads has refl in
      let (n, is_n) = big_int_or_zero-plain w plain in (n, rw (whole, is_w) is_n)

unfoldable pub is_supported : ℕ → Bool
is_supported eip = is_some (eip_of eip)

module _ (topic name : Text) where
  -- An EIP without a table throws, whatever the topic.
  param_by_eips-err :
      (eips : List ℕ) (value : Amount)
      → all is_supported eips ≡ false
      → (e : CommonError) × (param_by_eips topic name eips value ≡ err e)
  unfolding param_by_eips param_by_eip is_supported
  param_by_eips-err [] value unsupported = cc
  param_by_eips-err (eip ∷ eips) value unsupported =
      elim (Result-cases (param_by_eip topic name eip)) [
        | inr (e, is_e) ↦ (e, rw (param_by_eips, is_e) refl)
        | inl (o, is_o) ↦ elim (Option-cases (eip_of eip)) [
          | inl none_ ↦ cc (rw (param_by_eip, none_) at is_o)
          | inr (_, is_some_) ↦ elim (Option-cases o) [
            | inl none_ ↦
                rw (param_by_eips, is_o, none_)
                  (param_by_eips-err eips value (rw is_some_ at unsupported))
            | inr (n, some_) ↦
                rw (param_by_eips, is_o, some_)
                  (param_by_eips-err eips (amount n) (rw is_some_ at unsupported))
          ]
        ]
      ]

  -- A loop that does not stop before a hardfork with such an EIP throws.
  param_loop-err :
      (hardfork hf : Text) (front back : List (Text × Option Spec)) (spec : Spec) (eips : List ℕ)
      (value : Amount)
      → has_changes hardfork front ≡ false
      → spec.eips ≡ some eips
      → all is_supported eips ≡ false
      → (e : CommonError) × (param_loop topic name hardfork
            (front ++ ((hf, some spec) ∷ back))
            value
          ≡ err e)
  unfolding param_loop has_changes change_value
  param_loop-err hardfork hf [] back spec eips value has is_eips unsupported =
      let (e, is_e) = param_by_eips-err eips value unsupported in
      (e, rw (param_loop, change_value, is_eips, is_e) refl)
  param_loop-err hardfork hf ((other_hf, other_spec) ∷ front) back spec eips value has is_eips
        unsupported =
      elim (Result-cases (change_value topic name other_spec value)) [
        | inr (e, is_e) ↦ (e, rw (param_loop, is_e) refl)
        | inl (w, is_w) ↦ elim (Bool-cases (text_eq other_hf hardfork)) [
          | inl here ↦ cc (rw (has_changes, here) at has)
          | inr there ↦
              rw (param_loop, is_w, there)
                (param_loop-err hardfork hf front back spec eips w (rw (has_changes, there) at has)
                  is_eips unsupported)
        ]
      ]

  -- A hardfork in front of which no loop stops lists an EIP without a table.
  pub param_by_hardfork-err :
      (c : Common) (hardfork hf : Text) (front back : List (Text × Option Spec)) (spec : Spec)
      (eips : List ℕ)
      → c.changes ≡ front ++ ((hf, some spec) ∷ back)
      → has_changes hardfork front ≡ false
      → spec.eips ≡ some eips
      → all is_supported eips ≡ false
      → (e : CommonError) × (param_by_hardfork c topic name hardfork ≡ err e)
  unfolding param_by_hardfork
  param_by_hardfork-err c hardfork hf front back spec eips whole has is_eips unsupported =
      let (e, is_e) =
        param_loop-err hardfork hf front back spec eips null has is_eips unsupported in
      (e, rw (whole, is_e) refl)
