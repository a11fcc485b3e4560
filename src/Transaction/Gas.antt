-- ===== src/Transaction/Gas.antt =====
-- What `validateGas` and `validateTransactionForSigning` of web3-eth/src/validation.ts accept.
use electroneum_web3_js.Base.{
  ◌≡◌, refl, sym, ap, ◌∙◌, ◌↔◌, Bool, true, false, not, ◌&&◌, ◌||◌, Option, none, some, Bool-cases,
  inl, inr, Result, ok, err, ◌>>◌, >>=-eq-ok, >>-eq-ok, throw_if, throw_if-eq-ok, if◌then◌else◌,
  arith,
}
use electroneum_web3_js.Base.Int.{ℤ}
use electroneum_web3_js.Text.{Text, lit, text_eq}
use electroneum_web3_js.Dict.{text_eq_iff}
use electroneum_web3_js.Transaction.{
  Transaction, TransactionError, is_nullish, no_uint, type_is, text_gt, is_above_1, gas_present,
  legacy_gas_present, fee_market_gas_present, validate_legacy_gas, validate_fee_market_gas,
  validate_gas, no_natural, validate_transaction_for_signing, validate_custom_chain_info,
  validate_chain_info, validate_base_chain, validate_hardfork, invalid_nonce_or_chain_id,
  missing_chain_or_hardfork,
}

-- A transaction with a gas price.
abbrev pub is_legacy : Transaction → Bool
is_legacy tx =
    not (no_uint tx.gas)
    && not (no_uint tx.gas_price)
    && is_nullish tx.max_fee_per_gas
    && is_nullish tx.max_priority_fee_per_gas
    && not (is_above_1 tx.kind)

-- A transaction of a type above 0x1 with fees.
abbrev pub is_fee_market : Transaction → Bool
is_fee_market tx =
    gas_present tx
    && is_nullish tx.gas_price
    && not (no_uint tx.max_fee_per_gas)
    && not (no_uint tx.max_priority_fee_per_gas)
    && is_above_1 tx.kind

-- A type above 0x1 is another one.
above_1-text_eq :
    (t u : Text)
    → text_gt t (lit "0x1") ≡ true
    → text_gt u (lit "0x1") ≡ false
    → text_eq t u ≡ false
above_1-text_eq t u above below = elim (Bool-cases (text_eq t u)) [
  | inl same ↦
      let e : t ≡ u = (text_eq_iff t u).0 same in
      cc (ap (λ v. text_gt v (lit "0x1")) e, above, below)
  | inr other ↦ other
]

above_1-type_is :
    (kind : Option Text) (u : Text)
    → text_gt u (lit "0x1") ≡ false
    → is_above_1 kind ≡ true
    → type_is kind u ≡ false
above_1-type_is none u below above = cc
above_1-type_is (some t) u below above = above_1-text_eq t u above below

pub given : (o : Option ℤ) → no_uint o ≡ false → is_nullish o ≡ false
given none h = cc
given (some z) h = refl

abbrev is_ok : Result TransactionError (Unit {0}) → Bool
is_ok (ok done) = true
is_ok (err e) = false

is_ok_iff : (r : Result TransactionError (Unit {0})) → (r ≡ ok tt) ↔ (is_ok r ≡ true)
is_ok_iff (ok done) = (λ e. refl, λ e. refl)
is_ok_iff (err e) = (λ e. cc, λ e. cc)

is_ok-throw_if :
    (b : Bool) (e : TransactionError) (k : Result TransactionError (Unit {0}))
    → is_ok (throw_if b e >> k) ≡ not b && is_ok k
is_ok-throw_if true e k = refl
is_ok-throw_if false e k = refl

is_ok-seq : (r k : Result TransactionError (Unit {0})) → is_ok (r >> k) ≡ is_ok r && is_ok k
is_ok-seq (ok done) k = refl
is_ok-seq (err e) k = refl

is_ok-last : (b : Bool) (e : TransactionError) → is_ok (throw_if b e) ≡ not b
is_ok-last true e = refl
is_ok-last false e = refl

-- `validateLegacyGas` and `validateFeeMarketGas` as tests.
abbrev legacy_test : Transaction → Bool
legacy_test tx =
    not (no_uint tx.gas || no_uint tx.gas_price)
    && not (not (is_nullish tx.max_fee_per_gas) || not (is_nullish tx.max_priority_fee_per_gas))

abbrev fee_test : Transaction → Bool
fee_test tx =
    not (not (is_nullish tx.gas_price) && type_is tx.kind (lit "0x2"))
    && (not (type_is tx.kind (lit "0x0") || type_is tx.kind (lit "0x1"))
        && not (no_uint tx.max_fee_per_gas || no_uint tx.max_priority_fee_per_gas))

is_ok-legacy : (tx : Transaction) → is_ok (validate_legacy_gas tx) ≡ legacy_test tx
unfolding validate_legacy_gas
is_ok-legacy tx =
    is_ok-throw_if (no_uint tx.gas || no_uint tx.gas_price) _ _
    ∙ ap (λ b. not (no_uint tx.gas || no_uint tx.gas_price) && b) (is_ok-last _ _)

is_ok-fee : (tx : Transaction) → is_ok (validate_fee_market_gas tx) ≡ fee_test tx
unfolding validate_fee_market_gas
is_ok-fee tx =
    is_ok-throw_if (not (is_nullish tx.gas_price) && type_is tx.kind (lit "0x2")) _ _
    ∙ ap (λ b. not (not (is_nullish tx.gas_price) && type_is tx.kind (lit "0x2")) && b)
        (is_ok-throw_if (type_is tx.kind (lit "0x0") || type_is tx.kind (lit "0x1")) _ _
          ∙ ap (λ b. not (type_is tx.kind (lit "0x0") || type_is tx.kind (lit "0x1")) && b)
              (is_ok-last _ _))

is_ok-if :
    (b : Bool) (r k : Result TransactionError (Unit {0}))
    → is_ok (if b then r else k) ≡ (if b then is_ok r else is_ok k)
is_ok-if true r k = refl
is_ok-if false r k = refl

-- The two calls of `validateGas` together, by cases on every test.
abbrev gas_test : Transaction → Bool
gas_test tx =
    not (not (legacy_gas_present tx) && not (fee_market_gas_present tx))
    && (not (legacy_gas_present tx && fee_market_gas_present tx)
        && ((if legacy_gas_present tx then legacy_test tx else fee_test tx)
            && (if is_above_1 tx.kind then fee_test tx else legacy_test tx)))

is_ok-gas : (tx : Transaction) → is_ok (validate_gas tx) ≡ gas_test tx
unfolding validate_gas
is_ok-gas tx =
    rw (is_ok-throw_if, is_ok-throw_if, is_ok-seq, is_ok-if, is_ok-if, is_ok-legacy, is_ok-fee) refl

gas_test_eq : (tx : Transaction) → gas_test tx ≡ (is_legacy tx || is_fee_market tx)
gas_test_eq tx = ground (
  arith,
  given tx.gas,
  given tx.gas_price,
  given tx.max_fee_per_gas,
  given tx.max_priority_fee_per_gas,
  above_1-type_is tx.kind (lit "0x0") refl,
  above_1-type_is tx.kind (lit "0x1") refl,
)

-- `validateGas` accepts exactly those.
pub validate_gas_iff :
    (tx : Transaction) → (validate_gas tx ≡ ok tt) ↔ ((is_legacy tx || is_fee_market tx) ≡ true)
validate_gas_iff tx =
    let same = is_ok-gas tx ∙ gas_test_eq tx in
    (
      λ e. sym same ∙ (is_ok_iff (validate_gas tx)).0 e,
      λ e. (is_ok_iff (validate_gas tx)).1 (same ∙ e),
    )

-- What `validateTransactionForSigning` accepts passes the checks of its chain, and what
-- `formatTransaction` makes of it has the gas members that `validateGas` accepts, a nonce and a chain
-- id, both not negative.
pub validate_transaction_for_signing-eq-ok :
    (format_transaction : Transaction → Result TransactionError Transaction) (tx : Transaction)
    → validate_transaction_for_signing format_transaction tx ≡ ok tt
    → (formatted : Transaction) × (format_transaction tx ≡ ok formatted)
      × ((is_legacy formatted || is_fee_market formatted) ≡ true)
      × (no_natural formatted.nonce ≡ false)
      × (no_natural formatted.chain_id ≡ false)
      × (is_nullish tx.chain ≡ is_nullish tx.hardfork)
unfolding validate_transaction_for_signing validate_chain_info
validate_transaction_for_signing-eq-ok format_transaction tx e =
    let (custom, e₁) = >>-eq-ok (validate_custom_chain_info tx) _ e in
    let (info, e₂) = >>-eq-ok (validate_chain_info tx) _ e₁ in
    let (base, e₃) = >>-eq-ok (validate_base_chain tx) _ e₂ in
    let (fork, e₄) = >>-eq-ok (validate_hardfork tx) _ e₃ in
    let (formatted, is_formatted, e₅) = >>=-eq-ok (format_transaction tx) _ e₄ in
    let (gas, e₆) = >>-eq-ok (validate_gas formatted) _ e₅ in
    let last =
      is_ok-last (no_natural formatted.nonce || no_natural formatted.chain_id)
        invalid_nonce_or_chain_id in
    let natural = sym last ∙ (is_ok_iff _).0 e₆ in
    let (_, pair) =
      throw_if-eq-ok
        (not (is_nullish tx.common) && not (is_nullish tx.chain) && not (is_nullish tx.hardfork)) _
        _ info in
    let paired =
      sym (
        is_ok-last
          (not (is_nullish tx.chain) && is_nullish tx.hardfork
            || not (is_nullish tx.hardfork) && is_nullish tx.chain)
          missing_chain_or_hardfork)
      ∙ (is_ok_iff _).0 pair in
    (
      formatted,
      is_formatted,
      (validate_gas_iff formatted).0 gas,
      ground (arith, natural),
      ground (arith, natural),
      ground (arith, paired),
    )
