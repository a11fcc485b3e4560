-- ===== src/Batch/Once.antt =====
-- What settling one request, or all of them, does to the promise of each.
use electroneum_web3_js.Base.{
  ℕ, ◌≡◌, refl, sym, ◌∙◌, List, [], ◌∷◌, Option, none, some, Option-cases, Bool-cases, inl, inr,
  if◌then◌else◌, ◌==◌, ==_iff, arith,
}
use electroneum_web3_js.Dict.{number_key, lookup}
use electroneum_web3_js.Batch.{
  aborted, Outcome, failure, Deferred, Response, settle, outcome_of, settle_at, settle_all,
  settle_by, abort_all,
}

module _ {V E : Type 0} where
  abbrev pub settle_option : Outcome V E → Option (Deferred V E) → Option (Deferred V E)
  settle_option o none = none
  settle_option o (some d) = some (settle o d)

  pub lookup-settle_at :
      (id k : ℕ) (o : Outcome V E) (requests : List (ℕ × Deferred V E))
      → lookup id (settle_at k o requests)
        ≡ (if k == id then settle_option o (lookup id requests) else lookup id requests)
  unfolding settle_at lookup
  lookup-settle_at id k o [] = ground arith
  lookup-settle_at id k o ((j, d) ∷ requests) = elim (Bool-cases (j == k)) [
    | inl here ↦ elim (Bool-cases (j == id)) [
      | inl at_ ↦
          rw
            (
              settle_at,
              here,
              lookup,
              at_,
              (==_iff k id).1 (sym ((==_iff j k).0 here) ∙ (==_iff j id).0 at_),
            )
            refl
      | inr off ↦ rw (settle_at, here, lookup, off) (ground (arith, here, off))
    ]
    | inr there ↦ elim (Bool-cases (j == id)) [
      | inl at_ ↦ rw (settle_at, there, lookup, at_) (ground (arith, there, at_))
      | inr off ↦ rw (settle_at, there, lookup, off) (lookup-settle_at id k o requests)
    ]
  ]

  pub lookup-abort_all :
      (id : ℕ) (requests : List (ℕ × Deferred V E))
      → lookup id (abort_all requests) ≡ settle_option (failure aborted) (lookup id requests)
  unfolding abort_all lookup
  lookup-abort_all id [] = refl
  lookup-abort_all id ((j, d) ∷ requests) = elim (Bool-cases (j == id)) [
    | inl at_ ↦ rw (abort_all, lookup, at_) refl
    | inr off ↦ rw (abort_all, lookup, off) (lookup-abort_all id requests)
  ]

  -- The promise of a request is settled, in one way.
  pub record IsSettled (id : ℕ) (o : Outcome V E) (requests : List (ℕ × Deferred V E))
      : Type 0 where
    pub promise : Deferred V E
    pub there : lookup id requests ≡ some promise
    pub settled : promise.outcome ≡ some o

  settle_at-IsSettled :
      (id k : ℕ) (o new : Outcome V E) (requests : List (ℕ × Deferred V E))
      → IsSettled id o requests
      → IsSettled id o (settle_at k new requests)
  settle_at-IsSettled id k o new requests s = elim (Bool-cases (k == id)) [
    | inl here ↦ record {
      promise = settle new s.promise;
      there = lookup-settle_at id k new requests ∙ rw (here, s.there) refl;
      settled = rw s.settled refl;
    }
    | inr off ↦ record {
      promise = s.promise;
      there = lookup-settle_at id k new requests ∙ rw (off, s.there) refl;
      settled = s.settled;
    }
  ]

  pub settle_by-IsSettled :
      (id : ℕ) (o : Outcome V E) (r : Response V E) (requests : List (ℕ × Deferred V E))
      → IsSettled id o requests
      → IsSettled id o (settle_by r requests)
  settle_by-IsSettled id o r requests s = elim (Option-cases (outcome_of r)) [
    | inl none_ ↦ rw (settle_by, none_) s
    | inr (new, is_new) ↦ rw (settle_by, is_new) (settle_at-IsSettled id r.id o new requests s)
  ]

  pub settle_all-IsSettled :
      (id : ℕ) (o : Outcome V E) (responses : List (Response V E))
      (requests : List (ℕ × Deferred V E))
      → IsSettled id o requests
      → IsSettled id o (settle_all responses requests)
  unfolding settle_all
  settle_all-IsSettled id o [] requests s = s
  settle_all-IsSettled id o (r ∷ responses) requests s =
      settle_all-IsSettled id o responses (settle_by r requests)
        (settle_by-IsSettled id o r requests s)

  pub abort_all-IsSettled :
      (id : ℕ) (o : Outcome V E) (requests : List (ℕ × Deferred V E))
      → IsSettled id o requests
      → IsSettled id o (abort_all requests)
  abort_all-IsSettled id o requests s = record {
    promise = settle (failure aborted) s.promise;
    there = lookup-abort_all id requests ∙ rw s.there refl;
    settled = rw s.settled refl;
  }
