-- ===== src/Wallet/Storage/Reload.antt =====
-- A wallet that was saved comes back.
use electroneum_web3_js.Base.{
  ℕ, zero, suc, ◌≡◌, refl, sym, ap, ◌∙◌, List, [], ◌∷◌, ◌++◌, append-nil, append_assoc, Option,
  none, some, Option-cases, some-injective, ok, >>=-eq-ok, ok-injective, or_throw, map_result, inl,
  inr, length, get_elem?, arith,
}
use electroneum_web3_js.Text.{Text}
use electroneum_web3_js.Dict.{text_key, text_eq_iff, lookup, lookup-insert}
use electroneum_web3_js.Wallet.{
  Account, Wallet, empty, key_of, set_at, get, index_for, add, add_all,
}
use electroneum_web3_js.Wallet.Invariant.{
  IsConsistent, empty-IsConsistent, add-IsConsistent, add_all-IsConsistent, get-accounts, lt-length,
}
use electroneum_web3_js.Wallet.Storage.{
  Provider, Storage, key_name_or_default, encrypt, decrypt, save, load_item, load,
}

set_at-length : (xs : List Account) (a : Account) → set_at xs (length xs) a ≡ xs ++ (a ∷ [])
unfolding set_at
set_at-length [] a = refl
set_at-length (x ∷ xs) a = ap (λ t. x ∷ t) (set_at-length xs a)

-- A new address goes to the end.
accounts-add :
    (w : Wallet) (a : Account)
    → lookup (key_of a.address) w.address_map ≡ none
    → (add w a).accounts ≡ w.accounts ++ (a ∷ [])
unfolding add index_for get
accounts-add w a new = rw (add, index_for, get, new) (set_at-length w.accounts a)

-- Addresses that are not among those of the wallet, and all different.
abbrev AreFresh : Wallet → List Account → Type 0
AreFresh w [] = Unit {0}
AreFresh w (a ∷ accounts) =
    (lookup (key_of a.address) w.address_map ≡ none) × AreFresh (add w a) accounts

accounts-add_all :
    (w : Wallet) (accounts : List Account)
    → AreFresh w accounts
    → (add_all w accounts).accounts ≡ w.accounts ++ accounts
unfolding add_all
accounts-add_all w [] f = sym (append-nil w.accounts)
accounts-add_all w (a ∷ accounts) (new, f) =
    accounts-add_all (add w a) accounts f
    ∙ ap (λ t. t ++ accounts) (accounts-add w a new)
    ∙ append_assoc w.accounts (a ∷ []) accounts

get_elem?-head :
    (xs : List Account) (a : Account) (ys : List Account)
    → get_elem? (xs ++ (a ∷ ys)) (length xs) ≡ some a
get_elem?-head [] a ys = refl
get_elem?-head (x ∷ xs) a ys = get_elem?-head xs a ys

get_elem?-init :
    (xs ys : List Account) (i : ℕ) (b : Account)
    → get_elem? xs i ≡ some b
    → get_elem? (xs ++ ys) i ≡ some b
get_elem?-init [] ys i b e = cc
get_elem?-init (x ∷ xs) ys zero b e = e
get_elem?-init (x ∷ xs) ys (suc i) b e = get_elem?-init xs ys i b e

-- The accounts of a consistent wallet have different addresses: those behind a first part, which a
-- second wallet holds, are fresh to it.
rest-AreFresh :
    (v : Wallet) (w : Wallet) (rest : List Account)
    → IsConsistent v
    → IsConsistent w
    → v.accounts ≡ w.accounts ++ rest
    → AreFresh w rest
rest-AreFresh v w [] cv cw e = tt
rest-AreFresh v w (a ∷ rest) cv cw e =
    let new : lookup (key_of a.address) w.address_map ≡ none =
      elim (Option-cases (lookup (key_of a.address) w.address_map)) [
        | inl none_ ↦ none_
        | inr (i, old) ↦
            let (b, at_, name) = cw.found (key_of a.address) i old in
            let front = cv.indexed i b (rw e (get_elem?-init w.accounts (a ∷ rest) i b at_)) in
            let back = cv.indexed (length w.accounts) a (rw e (get_elem?-head w.accounts a rest)) in
            let same : i ≡ length w.accounts =
              some-injective (sym front ∙ ap (λ k. lookup k v.address_map) name ∙ back) in
            absurd (omega (arith, lt-length w.accounts i b at_))
      ] in
    (
      new,
      rest-AreFresh v (add w a) rest cv (add-IsConsistent w a cw) (
          e
          ∙ sym (append_assoc w.accounts (a ∷ []) rest)
          ∙ ap (λ t. t ++ rest) (sym (accounts-add w a new))),
    )

module _ (p : Provider) where
  decrypt-encrypt_all :
      (password : Text) (accounts : List Account) (stores : List p.KeyStore)
      → map_result (p.encrypt password) accounts ≡ ok stores
      → map_result (p.decrypt password) stores ≡ ok accounts
  decrypt-encrypt_all password [] stores e = rw (← ok-injective e) refl
  decrypt-encrypt_all password (a ∷ accounts) stores e =
      let (store, is_store, e₁) = >>=-eq-ok (p.encrypt password a) _ e in
      let (rest, is_rest, e₂) = >>=-eq-ok (map_result (p.encrypt password) accounts) _ e₁ in
      rw (← ok-injective e₂) (
        rw
          (
            p.decrypt-encrypt password a store is_store,
            decrypt-encrypt_all password accounts rest is_rest,
          )
          refl)

  -- A consistent wallet that was saved is loaded into an empty wallet, with the same password and
  -- key name, as a wallet with the same accounts in the same order, in which `get` finds the same.
  pub load-save :
      (w : Wallet) (password : Text) (key_name : Option Text) (before after : Storage)
      → IsConsistent w
      → save p w password key_name before ≡ ok after
      → (v : Wallet) × (load p empty password key_name after ≡ ok v)
        × (v.accounts ≡ w.accounts)
        × ((address : Text) → get v address ≡ get w address)
  unfolding save load load_item encrypt decrypt
  load-save w password key_name before after c e =
      let (items, is_items, e₁) = >>=-eq-ok (or_throw before p.unavailable) _ e in
      let (stores, are, e₂) = >>=-eq-ok (encrypt p w password) _ e₁ in
      let name = key_name_or_default key_name in
      let v = add_all empty w.accounts in
      let same =
        accounts-add_all empty w.accounts
          (rest-AreFresh w empty w.accounts c empty-IsConsistent refl) in
      (
        v,
        rw (← ok-injective e₂, lookup-insert, (text_eq_iff name name).1 refl)
            (rw (load_item, p.stringify_full stores, p.parse-stringify stores)
              (rw (decrypt, decrypt-encrypt_all password w.accounts stores are) refl)),
        same,
        λ address.
            get-accounts v w address (add_all-IsConsistent empty w.accounts empty-IsConsistent) c
              same,
      )
