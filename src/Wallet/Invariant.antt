-- ===== src/Wallet/Invariant.antt =====
-- The map of a wallet and its array agree, as long as accounts are added and the last one removed.
use electroneum_web3_js.Base.{
  ℕ, zero, suc, ◌≤◌, ◌<◌, ◌≡◌, refl, sym, ap, ◌∙◌, List, [], ◌∷◌, some, Option-cases,
  some-injective, Bool-cases, inl, inr, length, get_elem?, if◌then◌else◌, ◌==◌, ==_iff, arith,
}
use electroneum_web3_js.Text.{Text, text_eq}
use electroneum_web3_js.Dict.{text_key, text_eq_iff, lookup, insert, lookup-insert}
use electroneum_web3_js.Wallet.{
  Account, Wallet, empty, key_of, set_at, get, index_for, add, add_all,
}

pub record IsConsistent (w : Wallet) : Type 0 where
  pub indexed :
      (i : ℕ) (a : Account)
      → get_elem? w.accounts i ≡ some a
      → lookup (key_of a.address) w.address_map ≡ some i
  pub found :
      (k : Text) (i : ℕ)
      → lookup k w.address_map ≡ some i
      → (a : Account) × (get_elem? w.accounts i ≡ some a) × (key_of a.address ≡ k)

pub lt-length : (xs : List Account) (i : ℕ) (a : Account) → get_elem? xs i ≡ some a → i < length xs
lt-length [] i a e = cc
lt-length (x ∷ xs) zero a e = omega arith
lt-length (x ∷ xs) (suc i) a e = omega (arith, lt-length xs i a e)

pub get_elem?-set_at :
    (xs : List Account) (i : ℕ) (a : Account) (j : ℕ)
    → i ≤ length xs
    → get_elem? (set_at xs i a) j ≡ (if i == j then some a else get_elem? xs j)
unfolding set_at
get_elem?-set_at [] i a zero h = ground arith
get_elem?-set_at [] i a (suc j) h = ground arith
get_elem?-set_at (x ∷ xs) zero a zero h = refl
get_elem?-set_at (x ∷ xs) zero a (suc j) h = ground arith
get_elem?-set_at (x ∷ xs) (suc i) a zero h = ground arith
get_elem?-set_at (x ∷ xs) (suc i) a (suc j) h = ground (arith, get_elem?-set_at xs i a j)

-- A place at which the account can be stored: its address is the only one that stands for it.
record IsPlace (w : Wallet) (a : Account) (n : ℕ) : Type 0 where
  fits : n ≤ length w.accounts
  alone :
      (j : ℕ) (b : Account)
      → get_elem? w.accounts j ≡ some b
      → key_of a.address ≡ key_of b.address
      → n ≡ j
  names : (k : Text) → lookup k w.address_map ≡ some n → key_of a.address ≡ k

-- An account stored at `n`, where its address is the only one that stands for `n`.
module _ (w : Wallet) (v : IsConsistent w) (a : Account) (n : ℕ) where
  abbrev stored : Wallet
  stored = record {
    accounts = set_at w.accounts n a;
    address_map = insert (key_of a.address) n w.address_map;
  }

  stored-IsConsistent : IsPlace w a n → IsConsistent stored
  stored-IsConsistent p = record {
    indexed = λ j b e. elim (Bool-cases (n == j)) [
      | inl here ↦
          let same : a ≡ b =
            some-injective (rw (get_elem?-set_at w.accounts n a j p.fits, here) at e) in
          rw (lookup-insert, ← same, (text_eq_iff (key_of a.address) (key_of a.address)).1 refl)
            (ap some ((==_iff n j).0 here))
      | inr there ↦
          let old : get_elem? w.accounts j ≡ some b =
            rw (get_elem?-set_at w.accounts n a j p.fits, there) at e in
          elim (Bool-cases (text_eq (key_of a.address) (key_of b.address))) [
            | inl same ↦
                absurd (cc ((==_iff n j).1 (p.alone j b old ((text_eq_iff _ _).0 same)), there))
            | inr other ↦ rw (lookup-insert, other) (v.indexed j b old)
          ]
    ];
    found = λ k i e. elim (Bool-cases (text_eq (key_of a.address) k)) [
      | inl same ↦
          let here : n ≡ i = some-injective (rw (lookup-insert, same) at e) in
          (
            a,
            rw (get_elem?-set_at w.accounts n a i p.fits, (==_iff n i).1 here) refl,
            (text_eq_iff _ _).0 same,
          )
      | inr other ↦
          let old : lookup k w.address_map ≡ some i = rw (lookup-insert, other) at e in
          elim (Bool-cases (n == i)) [
            | inl here ↦
                absurd
                  (cc ((text_eq_iff _ _).1 (p.names k (rw (← (==_iff n i).0 here) at old)), other))
            | inr there ↦
                let (b, at_, name) = v.found k i old in
                (b, rw (get_elem?-set_at w.accounts n a i p.fits, there) at_, name)
          ]
    ];
  }

-- `add` looks for such a place.
index_for-IsPlace : (w : Wallet) (a : Account) → IsConsistent w → IsPlace w a (index_for w a)
unfolding index_for get
index_for-IsPlace w a v = elim (Option-cases (lookup (key_of a.address) w.address_map)) [
  | inl new ↦
      rw (index_for, get, new)
        (record {
          fits = omega arith;
          alone = λ j b e same. cc (v.indexed j b e, same, new);
          names = λ k e.
              let (b, at_, _) = v.found k (length w.accounts) e in
              absurd (omega (arith, lt-length w.accounts (length w.accounts) b at_));
        })
  | inr (n, old) ↦
      let (b, at_, name) = v.found (key_of a.address) n old in
      rw (index_for, get, old, at_, old)
        (record {
          fits = omega (arith, lt-length w.accounts n b at_);
          alone = λ j c e same. some-injective (cc (v.indexed j c e, same, old));
          names = λ k e.
              let (c, at_c, name_c) = v.found k n e in
              let same : b ≡ c = some-injective (sym at_ ∙ at_c) in cc;
        })
]

pub empty-IsConsistent : IsConsistent empty
unfolding lookup
empty-IsConsistent = record { indexed = λ i a e. cc; found = λ k i e. cc }

pub add-IsConsistent : (w : Wallet) (a : Account) → IsConsistent w → IsConsistent (add w a)
unfolding add
add-IsConsistent w a v = stored-IsConsistent w v a (index_for w a) (index_for-IsPlace w a v)

-- What `get` finds after `add`: the new account under its address, in any case, and otherwise what
-- it found before.
pub get-add :
    (w : Wallet) (a : Account) (address : Text)
    → IsConsistent w
    → get (add w a) address
      ≡ (if text_eq (key_of a.address) (key_of address) then some a else get w address)
unfolding get add
get-add w a address v =
    let n = index_for w a in
    let p = index_for-IsPlace w a v in
    elim (Bool-cases (text_eq (key_of a.address) (key_of address))) [
      | inl same ↦
          rw
            (
              get,
              lookup-insert,
              same,
              get_elem?-set_at w.accounts n a n p.fits,
              (==_iff n n).1 refl,
            )
            refl
      | inr other ↦ elim (Option-cases (lookup (key_of address) w.address_map)) [
        | inl none_ ↦ rw (get, lookup-insert, other, none_) refl
        | inr (i, old) ↦ elim (Bool-cases (n == i)) [
          | inl here ↦ absurd (
              cc (
                (text_eq_iff _ _).1 (p.names (key_of address) (rw (← (==_iff n i).0 here) at old)),
                other,
              ))
          | inr there ↦
              rw (get, lookup-insert, other, old, get_elem?-set_at w.accounts n a i p.fits, there)
                refl
        ]
      ]
    ]

-- `create` and `decrypt` add one account after the other.
pub add_all-IsConsistent :
    (w : Wallet) (accounts : List Account) → IsConsistent w → IsConsistent (add_all w accounts)
unfolding add_all
add_all-IsConsistent w [] v = v
add_all-IsConsistent w (a ∷ accounts) v =
    add_all-IsConsistent (add w a) accounts (add-IsConsistent w a v)

-- Two consistent wallets with the same accounts find the same.
pub get-accounts :
    (v w : Wallet) (address : Text)
    → IsConsistent v
    → IsConsistent w
    → v.accounts ≡ w.accounts
    → get v address ≡ get w address
unfolding get
get-accounts v w address cv cw same = elim (Option-cases (lookup (key_of address) v.address_map)) [
  | inr (i, old) ↦
      let (a, at_, name) = cv.found (key_of address) i old in
      let at_w : get_elem? w.accounts i ≡ some a = rw (← same) at_ in
      rw (get, old, ← name, cw.indexed i a at_w) (ap (λ xs. get_elem? xs i) same)
  | inl none_ ↦ elim (Option-cases (lookup (key_of address) w.address_map)) [
    | inl none_w ↦ rw (get, none_, none_w) refl
    | inr (i, old) ↦
        let (a, at_, name) = cw.found (key_of address) i old in
        let at_v : get_elem? v.accounts i ≡ some a = rw same at_ in
        absurd (cc (cv.indexed i a at_v, name, none_))
  ]
]
