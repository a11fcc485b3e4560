-- ===== src/Tests/Transactions.antt =====
-- Runs of the checks of transactions.
use electroneum_web3_js.Base.{◌≡◌, ◌≢◌, refl, ◌↔◌, true, false, ◌||◌, none, some, ok, err}
use electroneum_web3_js.Base.Int.{pos, negsuc}
use electroneum_web3_js.Text.{lit}
use electroneum_web3_js.Transaction.{
  Transaction, validate_gas, validate_legacy_gas, validate_fee_market_gas, is_uint,
  invalid_gas_or_gas_price,
}
use electroneum_web3_js.Transaction.Gas.{is_legacy, is_fee_market, validate_gas_iff}
use electroneum_web3_js.Transaction.Kind.{
  default_transaction_type_parser, inferred_type, type_0, type_2,
}
use electroneum_web3_js.Transaction.Detect.{
  fits, default_transaction_type_parser-fits, validate_gas-detected,
}

-- A transaction with gas and fees.
abbrev with_fees : Transaction
with_fees = record {
  kind = none;
  nonce = some (pos 0);
  gas = some (pos 21_000);
  gas_limit = none;
  gas_price = none;
  max_fee_per_gas = some (pos 30);
  max_priority_fee_per_gas = some (pos 2);
  has_access_list = false;
  chain_id = some (pos 1);
  chain = none;
  hardfork = none;
  common = none;
}

abbrev with_price : Transaction
with_price = record with_fees {
  gas_price = some (pos 20);
  max_fee_per_gas = none;
  max_priority_fee_per_gas = none;
  hardfork = some (lit "london");
}

validate_gas_iff_example :
    (validate_gas with_price ≡ ok tt) ↔ ((is_legacy with_price || is_fee_market with_price) ≡ true)
validate_gas_iff_example = validate_gas_iff with_price

price_accepted : validate_gas with_price ≡ ok tt
unfolding validate_gas validate_legacy_gas validate_fee_market_gas is_uint
price_accepted = refl

-- A price with a limit alone, without the member gas.
limit_refused :
    validate_gas (record with_price { gas = none; gas_limit = some (pos 21_000) })
    ≡ err invalid_gas_or_gas_price
unfolding validate_gas validate_legacy_gas validate_fee_market_gas is_uint
limit_refused = refl

-- Fees with a gas that is below 0.
negative_gas_accepted :
    validate_gas (record with_fees { kind = some type_2; gas = some (negsuc 0) }) ≡ ok tt
unfolding validate_gas validate_legacy_gas validate_fee_market_gas is_uint
negative_gas_accepted = refl

parsed : default_transaction_type_parser with_price ≡ ok (some type_0)
unfolding default_transaction_type_parser inferred_type
parsed = refl

default_transaction_type_parser-fits_example : fits with_price type_0 ≡ true
default_transaction_type_parser-fits_example =
    default_transaction_type_parser-fits with_price type_0 refl parsed

validate_gas-detected_example :
    (default_transaction_type_parser with_fees ≡ ok (some type_2))
    × (validate_gas (record with_fees { kind = some type_2 }) ≡ ok tt)
    × (validate_gas with_fees ≢ ok tt)
unfolding is_uint
validate_gas-detected_example = validate_gas-detected with_fees refl refl refl refl refl
