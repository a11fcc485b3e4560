-- ===== src/Wallet/Stale.antt =====
-- `remove` leaves the places of the accounts behind the removed one as they were.
use electroneum_web3_js.Base.{
  ℕ, zero, suc, ◌+◌, ◌<◌, ◌≡◌, refl, sym, ap, ◌∙◌, List, [], ◌∷◌, ◌++◌, append-nil, false, none,
  some, Option-cases, some-injective, Bool-cases, inl, inr, length, length-append, get_elem?,
  if◌then◌else◌, ◌==◌, ==_iff, arith,
}
use electroneum_web3_js.Text.{Text, text_eq}
use electroneum_web3_js.Dict.{text_key, text_eq_iff, lookup, delete, lookup-delete}
use electroneum_web3_js.Wallet.{Account, Wallet, key_of, splice, get, remove, remove_index}
use electroneum_web3_js.Wallet.Invariant.{IsConsistent, lt-length}

get_elem?-head :
    (xs : List Account) (a : Account) (ys : List Account)
    → get_elem? (xs ++ (a ∷ ys)) (length xs) ≡ some a
get_elem?-head [] a ys = refl
get_elem?-head (x ∷ xs) a ys = get_elem?-head xs a ys

get_elem?-start : (xs ys : List Account) → get_elem? (xs ++ ys) (length xs) ≡ get_elem? ys 0
get_elem?-start [] ys = refl
get_elem?-start (x ∷ xs) ys = get_elem?-start xs ys

get_elem?-init :
    (xs ys : List Account) (i : ℕ) → i < length xs → get_elem? (xs ++ ys) i ≡ get_elem? xs i
get_elem?-init [] ys i h = absurd (omega arith)
get_elem?-init (x ∷ xs) ys zero h = refl
get_elem?-init (x ∷ xs) ys (suc i) h = get_elem?-init xs ys i (omega arith)

splice-append :
    (xs : List Account) (a : Account) (ys : List Account)
    → splice (xs ++ (a ∷ ys)) (length xs) ≡ xs ++ ys
unfolding splice
splice-append [] a ys = refl
splice-append (x ∷ xs) a ys = ap (λ t. x ∷ t) (splice-append xs a ys)

module _ (w : Wallet) (v : IsConsistent w) (xs : List Account) (a : Account) where
  abbrev Holds : List Account → Type 0
  Holds ys = w.accounts ≡ xs ++ (a ∷ ys)

  place :
      (ys : List Account) → Holds ys → lookup (key_of a.address) w.address_map ≡ some (length xs)
  place ys e = v.indexed (length xs) a (rw e (get_elem?-head xs a ys))

  -- After `remove` by index, `get` returns the account behind the removed one for the address of
  -- the removed one.
  pub get-remove_index :
      (ys : List Account)
      → w.accounts ≡ xs ++ (a ∷ ys)
      → get (remove_index w (length xs)).0 a.address ≡ get_elem? ys 0
  unfolding get remove_index
  get-remove_index ys e =
      let here : get_elem? w.accounts (length xs) ≡ some a = rw e (get_elem?-head xs a ys) in
      rw (remove_index, here)
        (rw (get, place ys e)
          (ap (λ t. get_elem? (splice t (length xs)) (length xs)) e
            ∙ ap (λ t. get_elem? t (length xs)) (splice-append xs a ys)
            ∙ get_elem?-start xs ys))

  -- The wallet without its last account.
  abbrev shorter : Wallet
  shorter = record { accounts = xs; address_map = delete (key_of a.address) w.address_map }

  -- Every place but the last is in front of it.
  before :
      (i : ℕ) (b : Account)
      → Holds []
      → get_elem? w.accounts i ≡ some b
      → text_eq (key_of a.address) (key_of b.address) ≡ false
      → get_elem? xs i ≡ some b
  before i b e at_ other =
      let within : i < length w.accounts = lt-length w.accounts i b at_ in
      let size : length w.accounts ≡ length xs + 1 = ap length e ∙ length-append xs (a ∷ []) in
      elim (Bool-cases (i == length xs)) [
        | inl last ↦
            let here : get_elem? w.accounts i ≡ some a =
              rw ((==_iff i (length xs)).0 last, e) (get_elem?-head xs a []) in
            let same : a ≡ b = some-injective (sym here ∙ at_) in
            absurd (
              cc (
                (text_eq_iff (key_of a.address) (key_of b.address)).1
                    (ap (λ c. key_of c.address) same),
                other,
              ))
        | inr inside ↦
            sym (get_elem?-init xs (a ∷ []) i (ground arith))
            ∙ ap (λ t. get_elem? t i) (sym e)
            ∙ at_
      ]

  shorter-IsConsistent : Holds [] → IsConsistent shorter
  shorter-IsConsistent e = record {
    indexed = λ i b at_.
        let inside = lt-length xs i b at_ in
        let old =
          v.indexed i b (ap (λ t. get_elem? t i) e ∙ get_elem?-init xs (a ∷ []) i inside ∙ at_) in
        elim (Bool-cases (text_eq (key_of a.address) (key_of b.address))) [
          | inr other ↦ rw (lookup-delete, other) old
          | inl same ↦
              let clash : length xs ≡ i = some-injective (
                sym (place [] e)
                ∙ ap (λ k. lookup k w.address_map) ((text_eq_iff _ _).0 same)
                ∙ old) in
              absurd (omega arith)
        ];
    found = λ k i at_. elim (Bool-cases (text_eq (key_of a.address) k)) [
      | inl same ↦ cc (rw (lookup-delete, same) at at_)
      | inr other ↦
          let (b, there, name) = v.found k i (rw (lookup-delete, other) at at_) in
          (b, before i b e there (rw name other), name)
    ];
  }

  get-shorter :
      Holds []
      → (address : Text)
      → get shorter address
        ≡ (if text_eq (key_of a.address) (key_of address) then none else get w address)
  unfolding get
  get-shorter e address = elim (Bool-cases (text_eq (key_of a.address) (key_of address))) [
    | inl same ↦ rw (get, lookup-delete, same) refl
    | inr other ↦ elim (Option-cases (lookup (key_of address) w.address_map)) [
      | inl none_ ↦ rw (get, lookup-delete, other, none_) refl
      | inr (i, old) ↦
          let (b, there, name) = v.found (key_of address) i old in
          rw (get, lookup-delete, other, old, there) (before i b e there (rw name other))
    ]
  ]

  -- Removing the last account by its address keeps the map and the array in agreement, and what
  -- `get` finds for every other address.
  pub remove-last :
      w.accounts ≡ xs ++ (a ∷ [])
      → IsConsistent (remove w a.address).0
        × ((address : Text)
            → get (remove w a.address).0 address
              ≡ (if text_eq (key_of a.address) (key_of address) then none else get w address))
  unfolding remove
  remove-last e =
      let gone : splice w.accounts (length xs) ≡ xs =
        ap (λ t. splice t (length xs)) e ∙ splice-append xs a [] ∙ append-nil xs in
      rw (remove, place [] e, gone) (shorter-IsConsistent e, get-shorter e)
