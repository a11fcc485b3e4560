-- ===== src/Wallet/Storage.antt =====
-- `create`, `encrypt`, `decrypt`, `save` and `load` of web3-eth-accounts/src/wallet.ts.
pub mod Reload
use electroneum_web3_js.Base.{
  ℕ, zero, suc, ◌+◌, ◌≡◌, List, [], ◌∷◌, Bool, true, false, Option, none, some, Result, ok, err,
  ◌>>=◌, or_throw, map_result, if◌then◌else◌,
}
use electroneum_web3_js.Text.{Text, lit, is_nil}
use electroneum_web3_js.Dict.{text_key, lookup, insert}
use electroneum_web3_js.Wallet.{Account, Wallet, add, add_all}

-- What a wallet is given: the account provider of its constructor and the methods of its accounts,
-- the randomness behind `create`, and `JSON`. A text is read back as the key stores that it was
-- written from, and an account is decrypted with the password that it was encrypted with.
pub record Provider : Type 1 where
  pub KeyStore : Type 0
  pub Failure : Type 0
  pub create : ℕ → Account
  pub private_key_to_account : Text → Result Failure Account
  pub encrypt : Text → Account → Result Failure KeyStore
  pub decrypt : Text → KeyStore → Result Failure Account
  pub stringify : List KeyStore → Text
  pub parse : Text → Result Failure (List KeyStore)
  pub unavailable : Failure
  pub decrypt-encrypt :
      (password : Text) (account : Account) (store : KeyStore)
      → encrypt password account ≡ ok store
      → decrypt password store ≡ ok account
  pub parse-stringify : (stores : List KeyStore) → parse (stringify stores) ≡ ok stores
  pub stringify_full : (stores : List KeyStore) → is_nil (stringify stores) ≡ false

-- `window.localStorage`, and `none` where `getStorage` finds none.
abbrev pub Storage : Type 0
Storage = Option (List (Text × Text))

abbrev pub default_key_name : Text
default_key_name = lit "web3js_wallet"

abbrev pub key_name_or_default : Option Text → Text
key_name_or_default none = default_key_name
key_name_or_default (some name) = name

module _ (p : Provider) where
  open p use {KeyStore, Failure}

  -- The loop of `create`, with the accounts numbered from `i` on.
  unfoldable pub create_accounts : ℕ → ℕ → Wallet → Wallet
  create_accounts zero i w = w
  create_accounts (suc n) i w = create_accounts n (i + 1) (add w (p.create i))

  -- `add` of a private key.
  unfoldable pub add_private_key : Wallet → Text → Result Failure Wallet
  add_private_key w key = do account ← p.private_key_to_account key; ok (add w account)

  unfoldable pub encrypt : Wallet → Text → Result Failure (List KeyStore)
  encrypt w password = map_result (p.encrypt password) w.accounts

  unfoldable pub decrypt : Wallet → List KeyStore → Text → Result Failure Wallet
  decrypt w stores password = do
    results ← map_result (p.decrypt password) stores
    ok (add_all w results)

  unfoldable pub save : Wallet → Text → Option Text → Storage → Result Failure Storage
  save w password key_name storage = do
    items ← or_throw storage p.unavailable
    stores ← encrypt w password
    ok (some (insert (key_name_or_default key_name) (p.stringify stores) items))

  -- `getItem` returns null for a missing key; `if (keystore)` is false for the empty text, too.
  unfoldable pub load_item : Wallet → Text → Option Text → Result Failure Wallet
  load_item w password none = ok w
  load_item w password (some item) =
      if is_nil item then ok w else (do stores ← p.parse item; decrypt w stores password)

  unfoldable pub load : Wallet → Text → Option Text → Storage → Result Failure Wallet
  load w password key_name storage = do
    items ← or_throw storage p.unavailable
    load_item w password (lookup (key_name_or_default key_name) items)
