-- ===== src/Common/ForkHash/Same.antt =====
-- Fork hashes of hardforks on the same block or time.
use electroneum_web3_js.Base.{
  ℕ, ◌≡◌, refl, sym, ap, ◌∙◌, List, [], ◌∷◌, ◌++◌, Bool, true, false, not, ◌&&◌, ◌||◌, none, some,
  Option-cases, Bool-cases, inl, inr, if◌then◌else◌, ◌==◌, ==_iff, arith,
}
use electroneum_web3_js.Text.{Text, text_eq, to_string, parse_pairs, uint8_array_to_hex_string}
use electroneum_web3_js.Dict.{text_eq_iff}
use electroneum_web3_js.Common.{Hardfork, Common}
use electroneum_web3_js.Common.Order.{has_name}
use electroneum_web3_js.Common.ForkHash.{
  time_or_block, is_merge, time_bytes, adds, added, fork_bytes, pad_to_even, calc_fork_hash,
}

added-at :
    (hf : Hardfork) (prev t : ℕ)
    → time_or_block hf ≡ some t
    → added hf prev ≡ (if adds hf prev t then some t else none)
added-at hf prev t e = rw (added, e) refl

-- What is added once is not added again.
adds-again : (hf : Hardfork) (t : ℕ) → adds hf t t ≡ false
adds-again hf t = rw ((==_iff t t).1 refl) (ground arith)

adds-neither :
    (hf next : Hardfork) (prev t : ℕ)
    → is_merge hf.name ≡ false
    → adds hf prev t ≡ false
    → adds next prev t ≡ false
adds-neither hf next prev t other e = elim (Bool-cases (not (t == 0) && not (t == prev))) [
  | inl both ↦ cc (rw (both, other) at e)
  | inr neither ↦ rw neither refl
]

or-false : (a b : Bool) → (a || b) ≡ false → (a ≡ false) × (b ≡ false)
or-false true b e = (cc, cc)
or-false false b e = (refl, e)

self_eq : (t : Text) → text_eq t t ≡ true
self_eq t = (text_eq_iff t t).1 refl

fork_bytes-stop :
    (hf : Hardfork) (hfs : List Hardfork) (prev : ℕ) (bytes : List ℕ)
    → added hf prev ≡ none
    → fork_bytes hf.name (hf ∷ hfs) prev bytes ≡ bytes
unfolding fork_bytes
fork_bytes-stop hf hfs prev bytes e = rw (fork_bytes, e, self_eq hf.name) refl

fork_bytes-next :
    (hf next : Hardfork) (ys : List Hardfork) (prev t : ℕ) (bytes : List ℕ)
    → time_or_block hf ≡ some t
    → time_or_block next ≡ some t
    → is_merge hf.name ≡ false
    → text_eq hf.name next.name ≡ false
    → fork_bytes next.name (hf ∷ next ∷ ys) prev bytes
      ≡ fork_bytes hf.name (hf ∷ next ∷ ys) prev bytes
unfolding fork_bytes
fork_bytes-next hf next ys prev t bytes is_t is_t₂ other differ =
    elim (Bool-cases (adds hf prev t)) [
      | inl once ↦
          let first : added hf prev ≡ some t = added-at hf prev t is_t ∙ rw once refl in
          let second : added next t ≡ none =
            added-at next t t is_t₂ ∙ rw (adds-again next t) refl in
          rw (fork_bytes, first, differ, self_eq hf.name)
            (fork_bytes-stop next ys t (bytes ++ time_bytes t) second)
      | inr never ↦
          let first : added hf prev ≡ none = added-at hf prev t is_t ∙ rw never refl in
          let second : added next prev ≡ none =
            added-at next prev t is_t₂ ∙ rw (adds-neither hf next prev t other never) refl in
          rw (fork_bytes, first, differ, self_eq hf.name)
            (fork_bytes-stop next ys prev bytes second)
    ]

-- Hardforks in front add the same for both.
fork_bytes-append :
    (name₁ name₂ : Text) (xs ys : List Hardfork) (prev : ℕ) (bytes : List ℕ)
    → has_name name₁ xs ≡ false
    → has_name name₂ xs ≡ false
    → ((p : ℕ) (b : List ℕ) → fork_bytes name₁ ys p b ≡ fork_bytes name₂ ys p b)
    → fork_bytes name₁ (xs ++ ys) prev bytes ≡ fork_bytes name₂ (xs ++ ys) prev bytes
unfolding fork_bytes
fork_bytes-append name₁ name₂ [] ys prev bytes new₁ new₂ same = same prev bytes
fork_bytes-append name₁ name₂ (x ∷ xs) ys prev bytes new₁ new₂ same =
    let (x₁, rest₁) = or-false (text_eq x.name name₁) (has_name name₁ xs) new₁ in
    let (x₂, rest₂) = or-false (text_eq x.name name₂) (has_name name₂ xs) new₂ in
    elim (Option-cases (added x prev)) [
      | inl none_ ↦
          rw (fork_bytes, none_, x₁, x₂)
            (fork_bytes-append name₁ name₂ xs ys prev bytes rest₁ rest₂ same)
      | inr (t, is_t) ↦
          rw (fork_bytes, is_t, x₁, x₂)
            (fork_bytes-append name₁ name₂ xs ys t (bytes ++ time_bytes t) rest₁ rest₂ same)
    ]

has_name-append :
    (name : Text) (xs : List Hardfork) (hf : Hardfork)
    → has_name name (xs ++ (hf ∷ [])) ≡ false
    → (has_name name xs ≡ false) × (text_eq hf.name name ≡ false)
has_name-append name [] hf e = (refl, (or-false _ false e).0)
has_name-append name (x ∷ xs) hf e =
    let (head, tail) = or-false (text_eq x.name name) (has_name name (xs ++ (hf ∷ []))) e in
    let (front, last) = has_name-append name xs hf tail in (rw head front, last)

-- The calculated hash of a hardfork that is not the merge is that of the next hardfork, where the
-- two have the same timestamp, or block where they have none, and no hardfork in front their names.
pub calc_fork_hash-same :
    (crc32 : List ℕ → ℕ) (c : Common) (hf next : Hardfork) (xs ys : List Hardfork) (t : ℕ)
    (genesis_hash : List ℕ)
    → c.chain.hardforks ≡ xs ++ (hf ∷ next ∷ ys)
    → has_name hf.name xs ≡ false
    → has_name next.name (xs ++ (hf ∷ [])) ≡ false
    → time_or_block hf ≡ some t
    → time_or_block next ≡ some t
    → is_merge hf.name ≡ false
    → calc_fork_hash crc32 c next.name genesis_hash ≡ calc_fork_hash crc32 c hf.name genesis_hash
unfolding calc_fork_hash
calc_fork_hash-same crc32 c hf next xs ys t genesis_hash whole new new₂ is_t is_t₂ other =
    let (front, differ) = has_name-append next.name xs hf new₂ in
    let same =
      fork_bytes-append next.name hf.name xs (hf ∷ next ∷ ys) 0 [] front new
        (λ p b. fork_bytes-next hf next ys p t b is_t is_t₂ other differ) in
    ap
      (λ bytes.
        uint8_array_to_hex_string
          (parse_pairs (pad_to_even (to_string 16 (crc32 (genesis_hash ++ bytes))))))
      (ap (λ hfs. fork_bytes next.name hfs 0 []) whole
        ∙ same
        ∙ ap (λ hfs. fork_bytes hf.name hfs 0 []) (sym whole))
