-- ===== src/Transaction/Detect.antt =====
-- The type that web3-eth/src/utils/detect_transaction_type.ts infers, and what `validateGas` says of it.
use electroneum_web3_js.Base.{
  ◌≡◌, ◌≢◌, refl, ◌∙◌, Bool, true, false, not, ◌&&◌, ◌||◌, Option, none, some, Option-cases,
  Bool-cases, some-injective, inl, inr, ok, ok-injective, throw_if-eq-ok, if◌then◌else◌, leb, ◌==◌,
  arith,
}
use electroneum_web3_js.Text.{Text, text_eq}
use electroneum_web3_js.Transaction.{Transaction, is_nullish, no_uint, gas_present, validate_gas}
use electroneum_web3_js.Transaction.Gas.{validate_gas_iff, given}
use electroneum_web3_js.Transaction.Kind.{
  schema_holds_0, schema_holds_1, schema_holds_2, type_0, type_1, type_2, validated, index_of,
  hardforks_ordered, hardfork_type, given_hardfork, inferred_type, default_transaction_type_parser,
}

-- The members that the type leaves out have no value; there is no other type than the three.
abbrev pub fits : Transaction → Text → Bool
fits tx t =
    if text_eq t type_0
    then schema_holds_0 tx
    else if text_eq t type_1
    then schema_holds_1 tx
    else text_eq t type_2 && schema_holds_2 tx

validated-fits :
    (tx : Transaction) (holds : Bool) (u t : Text)
    → (holds ≡ true → fits tx u ≡ true)
    → validated holds u ≡ ok (some t)
    → fits tx t ≡ true
validated-fits tx holds u t sound e =
    let (h, k) = throw_if-eq-ok (not holds) _ _ e in
    rw (← some-injective (ok-injective k)) (sound (ground (arith, h)))

hardfork_type-fits :
    (tx : Transaction) (name : Option Text) (t : Text)
    → schema_holds_0 tx ≡ true
    → hardfork_type tx name ≡ some t
    → fits tx t ≡ true
hardfork_type-fits tx none t zero_fits e = cc
hardfork_type-fits tx (some name) t zero_fits e =
    elim (Option-cases (index_of name hardforks_ordered)) [
      | inl none_ ↦ cc (rw none_ at e)
      | inr (i, is_i) ↦ elim (Bool-cases (leb 12 i)) [
        | inl london ↦ elim (Bool-cases (is_nullish tx.gas_price)) [
          | inl no_price ↦
              let same : type_2 ≡ t = some-injective (rw (is_i, london, no_price) at e) in
              rw (← same) no_price
          | inr price ↦
              let same : type_0 ≡ t = some-injective (rw (is_i, london, price) at e) in
              rw (← same) zero_fits
        ]
        | inr before ↦ elim (Bool-cases (i == 11)) [
          | inl berlin ↦
              let same : type_0 ≡ t = some-injective (rw (is_i, before, berlin) at e) in
              rw (← same) zero_fits
          | inr early ↦ cc (rw (is_i, before, early) at e)
        ]
      ]
    ]

-- The type that the parser infers for a transaction without one is 0x0, 0x1 or 0x2, and the members
-- that the schema of this type lists have no value.
pub default_transaction_type_parser-fits :
    (tx : Transaction) (t : Text)
    → tx.kind ≡ none
    → default_transaction_type_parser tx ≡ ok (some t)
    → fits tx t ≡ true
unfolding default_transaction_type_parser inferred_type
default_transaction_type_parser-fits tx t untyped e =
    let e₁ : inferred_type tx ≡ ok (some t) = rw (default_transaction_type_parser, untyped) at e in
    elim (Bool-cases
      (not (is_nullish tx.max_fee_per_gas) || not (is_nullish tx.max_priority_fee_per_gas))) [
        | inl fees ↦
            validated-fits tx (schema_holds_2 tx) type_2 t (λ h. h) (rw (inferred_type, fees) at e₁)
        | inr no_fees ↦ elim (Bool-cases tx.has_access_list) [
          | inl list ↦
              validated-fits tx (schema_holds_1 tx) type_1 t (λ h. h)
                (rw (inferred_type, no_fees, list) at e₁)
          | inr no_list ↦
              let zero_fits : schema_holds_0 tx ≡ true = ground (arith, no_fees, no_list) in
              elim (Option-cases (hardfork_type tx (given_hardfork tx))) [
                | inr (kind, is_kind) ↦
                    hardfork_type-fits tx (given_hardfork tx) t zero_fits
                      (is_kind ∙ ok-injective (rw (inferred_type, no_fees, no_list, is_kind) at e₁))
                | inl none_ ↦ elim (Bool-cases (is_nullish tx.gas_price)) [
                  | inl no_price ↦ cc (rw (inferred_type, no_fees, no_list, none_, no_price) at e₁)
                  | inr price ↦
                      validated-fits tx (schema_holds_0 tx) type_0 t (λ h. h)
                        (rw (inferred_type, no_fees, no_list, none_, price) at e₁)
                ]
              ]
        ]
      ]

-- A transaction with gas and fees, without a type and a gas price: the parser infers 0x2, and with
-- this type `validateGas` accepts the transaction, without it `validateGas` throws.
pub validate_gas-detected :
    (tx : Transaction)
    → tx.kind ≡ none
    → gas_present tx ≡ true
    → is_nullish tx.gas_price ≡ true
    → no_uint tx.max_fee_per_gas ≡ false
    → no_uint tx.max_priority_fee_per_gas ≡ false
    → (default_transaction_type_parser tx ≡ ok (some type_2))
      × (validate_gas (record tx { kind = some type_2 }) ≡ ok tt)
      × (validate_gas tx ≢ ok tt)
unfolding default_transaction_type_parser inferred_type
validate_gas-detected tx untyped gas no_price fee priority =
    let fee_given = given tx.max_fee_per_gas fee in
    (
      rw (default_transaction_type_parser, untyped, inferred_type, fee_given, no_price) refl,
      (validate_gas_iff (record tx { kind = some type_2 })).1
          (ground (arith, gas, no_price, fee, priority)),
      λ accepted. let h = (validate_gas_iff tx).0 accepted in ground (arith, h, untyped, no_price),
    )
