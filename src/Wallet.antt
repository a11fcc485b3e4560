-- ===== src/Wallet.antt =====
-- web3-eth-accounts/src/wallet.ts: the class `Wallet`, an array of accounts with a map from
-- addresses in lower case to places in it.
pub mod Invariant
pub mod Stale
pub mod Storage
use electroneum_web3_js.Base.{
  ℕ, zero, suc, List, [], ◌∷◌, ◌++◌, map, Bool, true, false, Option, none, some, Result, ok, err,
  ◌>>=◌, or_throw, map_result, length, get_elem?,
}
use electroneum_web3_js.Text.{Text, lit, lower}
use electroneum_web3_js.Dict.{text_key, lookup, insert, delete}

pub record Account : Type 0 where
  pub address : Text
  pub private_key : Text

pub record Wallet : Type 0 where
  pub accounts : List Account
  pub address_map : List (Text × ℕ)

abbrev pub empty : Wallet
empty = record { accounts = []; address_map = [] }

-- `address.toLowerCase()`
abbrev pub key_of : Text → Text
key_of address = map lower address

-- `this[index] = account` for an index up to the length.
unfoldable pub set_at : List Account → ℕ → Account → List Account
set_at [] i a = a ∷ []
set_at (x ∷ xs) zero a = a ∷ xs
set_at (x ∷ xs) (suc i) a = x ∷ set_at xs i a

-- `this.splice(index, 1)`
unfoldable pub splice : List Account → ℕ → List Account
splice [] i = []
splice (x ∷ xs) zero = xs
splice (x ∷ xs) (suc i) = x ∷ splice xs i

-- `get`, by address and by index.
unfoldable pub get : Wallet → Text → Option Account
get w address = elim (lookup (key_of address) w.address_map) [
  | none ↦ none
  | some index ↦ get_elem? w.accounts index
]

abbrev pub get_index : Wallet → ℕ → Option Account
get_index w index = get_elem? w.accounts index

-- The index at which `add` stores the account.
unfoldable pub index_for : Wallet → Account → ℕ
index_for w account = elim (get w account.address) [
  | none ↦ length w.accounts
  | some exists ↦ elim (lookup (key_of account.address) w.address_map) [
    | none ↦ length w.accounts
    | some index ↦ index
  ]
]

-- `add` of an account.
unfoldable pub add : Wallet → Account → Wallet
add w account =
    let index = index_for w account in
    record {
      accounts = set_at w.accounts index account;
      address_map = insert (key_of account.address) index w.address_map;
    }

-- `remove`, by address and by index.
unfoldable pub remove : Wallet → Text → Wallet × Bool
remove w address = elim (lookup (key_of address) w.address_map) [
  | none ↦ (w, false)
  | some index ↦ (
    record {
      accounts = splice w.accounts index;
      address_map = delete (key_of address) w.address_map;
    },
    true,
  )
]

unfoldable pub remove_index : Wallet → ℕ → Wallet × Bool
remove_index w index = elim (get_elem? w.accounts index) [
  | none ↦ (w, false)
  | some account ↦ (record w { accounts = splice w.accounts index }, true)
]

unfoldable pub clear : Wallet → Wallet
clear w = empty

-- The loops of `create` and `decrypt` over the accounts that the provider returned.
unfoldable pub add_all : Wallet → List Account → Wallet
add_all w [] = w
add_all w (a ∷ accounts) = add_all (add w a) accounts
