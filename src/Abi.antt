-- ===== src/Abi.antt =====
-- The ABI coders of packages/web3-eth-abi/src/coders: the parts that they share.
pub mod Number
pub mod Types
pub mod Bytes
pub mod Coders
use electroneum_web3_js.Base.{ℕ, List, Bool}

abbrev pub word_size : ℕ
word_size = 32

-- The errors that the coders throw, one for each message. `odd_hex` is the InvalidBytesError of
-- `hexToUint8Array`, `type_error` what reading a property of `null` throws.
pub data Error : Type 0 where
  not_a_number bad_number_type below_minimum above_maximum : Error
  not_enough_bytes decoded_below_minimum decoded_above_maximum : Error
  not_a_boolean bad_boolean : Error
  not_bytes bad_bytes_type bytes_too_long not_enough_data : Error
  not_a_string not_an_address_string not_an_address short_address invalid_address : Error
  not_an_array count_mismatch not_array_or_object input_too_short missing_input : Error
  unsupported wrong_value_count odd_hex type_error : Error

pub record EncoderResult : Type 0 where
  pub dynamic : Bool
  pub encoded : List ℕ

pub record DecoderResult {ℓ} (A : Type ℓ) : Type ℓ where
  pub result : A
  pub encoded : List ℕ
  pub consumed : ℕ
