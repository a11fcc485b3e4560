-- ===== src/Transaction/Shape.antt =====
-- web3-eth/src/validation.ts: the tests on the members of transactions that are sent to a node, all
-- of them strings where they are given.
use electroneum_web3_js.Base.{
  List, Bool, true, false, not, ◌&&◌, ◌||◌, Option, none, some, all, length, ◌==◌,
}
use electroneum_web3_js.Text.{Text, is_hex_strict, is_nil}
use electroneum_web3_js.Address.{Host, is_address}
use electroneum_web3_js.Transaction.{is_nullish}

pub record AccessListEntry : Type 0 where
  pub address : Option Text
  pub storage_keys : Option (List Text)

pub record TransactionApi : Type 0 where
  pub from : Option Text
  pub to : Option Text
  pub kind : Option Text
  pub nonce : Option Text
  pub gas : Option Text
  pub value : Option Text
  pub input : Option Text
  pub data_ : Option Text
  pub chain_id : Option Text
  pub gas_price : Option Text
  pub max_fee_per_gas : Option Text
  pub max_priority_fee_per_gas : Option Text
  pub access_list : Option (List AccessListEntry)

-- `isHexStrict` of a member, false for undefined.
abbrev pub is_hex_member : Option Text → Bool
is_hex_member none = false
is_hex_member (some t) = is_hex_strict t

-- `isNullish(t) || isHexStrict(t)`
abbrev pub is_hex_or_none : Option Text → Bool
is_hex_or_none none = true
is_hex_or_none (some t) = is_hex_strict t

-- A type that is no hexadecimal string passes where it is missing or has two characters.
abbrev is_type : Option Text → Bool
is_type none = true
is_type (some t) = is_hex_strict t || length t == 2

-- `!value.chainId || isHexStrict(value.chainId)`
abbrev is_chain_id : Option Text → Bool
is_chain_id none = true
is_chain_id (some t) = is_nil t || is_hex_strict t

abbrev is_hex_string_32_bytes : Text → Bool
is_hex_string_32_bytes t = is_hex_strict t && length t == 66

module _ (host : Host) where
  abbrev is_address_or_none : Option Text → Bool
  is_address_or_none none = true
  is_address_or_none (some t) = is_address host t true

  abbrev is_address_member : Option Text → Bool
  is_address_member none = false
  is_address_member (some t) = is_address host t true

  unfoldable pub is_base_transaction : TransactionApi → Bool
  is_base_transaction tx =
      is_address_or_none tx.to
      && is_type tx.kind
      && is_hex_member tx.nonce
      && is_hex_member tx.gas
      && is_hex_member tx.value
      && is_hex_member tx.input
      && is_chain_id tx.chain_id

  abbrev are_storage_keys : Option (List Text) → Bool
  are_storage_keys none = true
  are_storage_keys (some keys) = all is_hex_string_32_bytes keys

  abbrev is_access_list_entry : AccessListEntry → Bool
  is_access_list_entry entry =
      is_address_or_none entry.address && are_storage_keys entry.storage_keys

  abbrev is_access_list : Option (List AccessListEntry) → Bool
  is_access_list none = false
  is_access_list (some entries) = all is_access_list_entry entries

  unfoldable pub is_transaction_1559_unsigned : TransactionApi → Bool
  is_transaction_1559_unsigned tx =
      is_base_transaction tx
      && is_hex_member tx.max_fee_per_gas
      && is_hex_member tx.max_priority_fee_per_gas
      && is_access_list tx.access_list

  unfoldable pub is_transaction_2930_unsigned : TransactionApi → Bool
  is_transaction_2930_unsigned tx =
      is_base_transaction tx && is_hex_member tx.gas_price && is_access_list tx.access_list

  unfoldable pub is_transaction_legacy_unsigned : TransactionApi → Bool
  is_transaction_legacy_unsigned tx = is_base_transaction tx && is_hex_member tx.gas_price

  unfoldable pub is_transaction_with_sender : TransactionApi → Bool
  is_transaction_with_sender tx =
      is_address_member tx.from
      && is_base_transaction tx
      && (is_transaction_1559_unsigned tx
          || is_transaction_2930_unsigned tx
          || is_transaction_legacy_unsigned tx)

  unfoldable pub is_transaction_call : TransactionApi → Bool
  is_transaction_call tx =
      is_address_or_none tx.from
      && is_address_member tx.to
      && is_hex_or_none tx.gas
      && is_hex_or_none tx.gas_price
      && is_hex_or_none tx.value
      && is_hex_or_none tx.data_
      && is_hex_or_none tx.input
      && is_nullish tx.kind
      && not (is_transaction_1559_unsigned tx)
      && not (is_transaction_2930_unsigned tx)
