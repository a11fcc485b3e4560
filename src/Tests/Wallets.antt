-- ===== src/Tests/Wallets.antt =====
-- Runs of the wallet on three accounts, with key stores that hold the account itself.
use electroneum_web3_js.Base.{
  ℕ, zero, suc, ◌≡◌, refl, List, [], ◌∷◌, ◌++◌, none, some, Result, ok, err, ◌>>=◌, ok-injective,
  if◌then◌else◌, length, take, drop, take-append, drop-append,
}
use electroneum_web3_js.Text.{Text, lit, text_eq, lower}
use electroneum_web3_js.Dict.{text_key, lookup, insert}
use electroneum_web3_js.Wallet.{
  Account, Wallet, empty, key_of, set_at, get, index_for, add, remove, add_all,
}
use electroneum_web3_js.Wallet.Invariant.{
  IsConsistent, empty-IsConsistent, add-IsConsistent, get-add, add_all-IsConsistent,
}
use electroneum_web3_js.Wallet.Stale.{remove-last}
use electroneum_web3_js.Wallet.Storage.{Provider, save, load, encrypt}
use electroneum_web3_js.Wallet.Storage.Reload.{load-save}

abbrev alice : Account
alice = record { address = lit "0xAa01"; private_key = lit "0x11" }

abbrev bob : Account
bob = record { address = lit "0xBb02"; private_key = lit "0x22" }

abbrev carol : Account
carol = record { address = lit "0xCc03"; private_key = lit "0x33" }

abbrev three : Wallet
three = add_all empty (alice ∷ bob ∷ carol ∷ [])

three-IsConsistent : IsConsistent three
three-IsConsistent = add_all-IsConsistent empty (alice ∷ bob ∷ carol ∷ []) empty-IsConsistent

three_accounts : three.accounts ≡ alice ∷ bob ∷ carol ∷ []
unfolding add_all add index_for get set_at insert lookup lower
three_accounts = refl

add-IsConsistent_example :
    IsConsistent (add three (record { address = lit "0xaA01"; private_key = lit "0x44" }))
add-IsConsistent_example =
    add-IsConsistent three (record { address = lit "0xaA01"; private_key = lit "0x44" })
      three-IsConsistent

get-add_example :
    get (add three (record { address = lit "0xaA01"; private_key = lit "0x44" })) (lit "0xAA01") ≡ (
      if text_eq (key_of (lit "0xaA01")) (key_of (lit "0xAA01"))
      then some (record { address = lit "0xaA01"; private_key = lit "0x44" })
      else get three (lit "0xAA01"))
get-add_example =
    get-add three (record { address = lit "0xaA01"; private_key = lit "0x44" }) (lit "0xAA01")
      three-IsConsistent

remove-last_example :
    IsConsistent (remove three carol.address).0
    × ((address : Text)
        → get (remove three carol.address).0 address
          ≡ (if text_eq (key_of carol.address) (key_of address) then none else get three address))
remove-last_example = remove-last three three-IsConsistent (alice ∷ bob ∷ []) carol three_accounts

-- A key store is the address, after its length, and the private key.
abbrev store_of : Account → Text
store_of a = length a.address ∷ (a.address ++ a.private_key)

abbrev account_of : Text → Result ℕ Account
account_of [] = err 1
account_of (n ∷ t) = ok (record { address = take n t; private_key = drop n t })

-- A text of key stores: their number, and each after its length.
abbrev write_all : List Text → Text
write_all [] = []
write_all (s ∷ stores) = length s ∷ (s ++ write_all stores)

abbrev read_all : ℕ → Text → Result ℕ (List Text)
read_all zero t = ok []
read_all (suc n) [] = err 2
read_all (suc n) (k ∷ t) = do rest ← read_all n (drop k t); ok (take k t ∷ rest)

abbrev parse_all : Text → Result ℕ (List Text)
parse_all [] = err 2
parse_all (n ∷ t) = read_all n t

account_of-store_of : (a : Account) → account_of (store_of a) ≡ ok a
account_of-store_of a =
    rw (take-append a.address a.private_key, drop-append a.address a.private_key) refl

read_all-write_all : (stores : List Text) → read_all (length stores) (write_all stores) ≡ ok stores
read_all-write_all [] = refl
read_all-write_all (s ∷ stores) =
    rw
      (
        drop-append s (write_all stores),
        take-append s (write_all stores),
        read_all-write_all stores,
      )
      refl

abbrev plain : Provider
plain = record {
  KeyStore = Text;
  Failure = ℕ;
  create = λ i. record { address = i ∷ []; private_key = i ∷ [] };
  private_key_to_account = λ key. ok (record { address = key; private_key = key });
  encrypt = λ password account. ok (store_of account);
  decrypt = λ password store. account_of store;
  stringify = λ stores. length stores ∷ write_all stores;
  parse = parse_all;
  unavailable = 0;
  decrypt-encrypt = λ password account store e. rw (← ok-injective e) (account_of-store_of account);
  parse-stringify = read_all-write_all;
  stringify_full = λ stores. refl;
}

load-save_example :
    (v : Wallet) × (load plain empty (lit "pw") none (
        some (
          (lit "web3js_wallet", 3 ∷ write_all (store_of alice ∷ store_of bob ∷ store_of carol ∷ []))
          ∷ []))
      ≡ ok v)
    × (v.accounts ≡ three.accounts)
    × ((address : Text) → get v address ≡ get three address)
unfolding encrypt save add_all add index_for get set_at insert lookup lower
load-save_example = load-save plain three (lit "pw") none (some []) _ three-IsConsistent refl
