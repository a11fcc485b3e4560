-- ===== src/Batch/Matched.antt =====
-- Every request of a batch gets the response with its id.
use electroneum_web3_js.Base.{
  ℕ, ◌≡◌, refl, sym, ap, ◌∙◌, subst, List, [], ◌∷◌, Bool, true, false, ◌||◌, Option, none, some,
  Option-cases, Bool-cases, and-true, some-injective, inl, inr, if◌then◌else◌, ◌==◌, ==_iff, leb,
  All, length,
}
use electroneum_web3_js.Dict.{number_key, lookup}
use electroneum_web3_js.Batch.{
  Outcome, Deferred, Response, Batch, is_in, settle, outcome_of, settle_by, settle_all,
  insert_sorted, sort, same_numbers, request_ids, response_ids, fits, process_batch_request,
}
use electroneum_web3_js.Batch.Once.{lookup-settle_at, IsSettled, settle_all-IsSettled}

abbrev holds : ℕ → List ℕ → Bool
holds n [] = false
holds n (m ∷ ms) = m == n || holds n ms

or-swap : (a b c : Bool) → (a || (b || c)) ≡ (b || (a || c))
or-swap true true c = refl
or-swap true false c = refl
or-swap false b c = refl

holds-insert_sorted :
    (n m : ℕ) (ms : List ℕ) → holds n (insert_sorted m ms) ≡ (m == n || holds n ms)
unfolding insert_sorted
holds-insert_sorted n m [] = refl
holds-insert_sorted n m (k ∷ ms) = elim (Bool-cases (leb m k)) [
  | inl le ↦ rw (insert_sorted, le) refl
  | inr gt ↦
      rw (insert_sorted, gt, holds-insert_sorted n m ms) (or-swap (k == n) (m == n) (holds n ms))
]

holds-sort : (n : ℕ) (ms : List ℕ) → holds n (sort ms) ≡ holds n ms
unfolding sort
holds-sort n [] = refl
holds-sort n (m ∷ ms) = holds-insert_sorted n m (sort ms) ∙ ap (λ b. m == n || b) (holds-sort n ms)

pub same_numbers-eq : (ms ns : List ℕ) → same_numbers ms ns ≡ true → ms ≡ ns
same_numbers-eq [] [] e = refl
same_numbers-eq [] (n ∷ ns) e = cc
same_numbers-eq (m ∷ ms) [] e = cc
same_numbers-eq (m ∷ ms) (n ∷ ns) e = elim (Bool-cases (m == n)) [
  | inl same ↦ rw ((==_iff m n).0 same, same_numbers-eq ms ns (rw same at e)) refl
  | inr other ↦ cc (rw other at e)
]

module _ {V E : Type 0} where
  -- The first response with an id.
  abbrev pub response_for : ℕ → List (Response V E) → Option (Response V E)
  response_for id [] = none
  response_for id (r ∷ responses) = if r.id == id then some r else response_for id responses

  response_for-holds :
      (id : ℕ) (responses : List (Response V E))
      → holds id (response_ids responses) ≡ true
      → (r : Response V E) × (response_for id responses ≡ some r)
  response_for-holds id [] h = cc
  response_for-holds id (r ∷ responses) h = elim (Bool-cases (r.id == id)) [
    | inl here ↦ (r, rw here refl)
    | inr there ↦ rw there (response_for-holds id responses (rw there at h))
  ]

  holds-lookup :
      (id : ℕ) (requests : List (ℕ × Deferred V E)) (d : Deferred V E)
      → lookup id requests ≡ some d
      → holds id (request_ids requests) ≡ true
  unfolding lookup
  holds-lookup id [] d e = cc
  holds-lookup id ((k, c) ∷ requests) d e = elim (Bool-cases (k == id)) [
    | inl here ↦ rw here refl
    | inr there ↦ rw there (holds-lookup id requests d (rw there at e))
  ]

  lookup-settle_by :
      (id : ℕ) (r : Response V E) (requests : List (ℕ × Deferred V E))
      → (r.id == id) ≡ false
      → lookup id (settle_by r requests) ≡ lookup id requests
  lookup-settle_by id r requests other = elim (Option-cases (outcome_of r)) [
    | inl none_ ↦ rw (settle_by, none_) refl
    | inr (o, is_o) ↦ rw (settle_by, is_o) (lookup-settle_at id r.id o requests ∙ rw other refl)
  ]

  -- A request that is pending is settled by the first response with its id.
  settle_all-response :
      (id : ℕ) (responses : List (Response V E)) (requests : List (ℕ × Deferred V E))
      (d : Deferred V E) (r : Response V E) (o : Outcome V E)
      → lookup id requests ≡ some d
      → d.outcome ≡ none
      → response_for id responses ≡ some r
      → outcome_of r ≡ some o
      → IsSettled id o (settle_all responses requests)
  unfolding settle_all
  settle_all-response id [] requests d r o there waits for is_o = cc
  settle_all-response id (s ∷ responses) requests d r o there waits for is_o =
      elim (Bool-cases (s.id == id)) [
        | inl here ↦
            let same : s ≡ r = some-injective (rw here at for) in
            let is_o_s : outcome_of s ≡ some o = rw same is_o in
            settle_all-IsSettled id o responses (settle_by s requests) (record {
              promise = settle o d;
              there =
                  rw (settle_by, is_o_s)
                    (lookup-settle_at id s.id o requests ∙ rw (here, there) refl);
              settled = rw waits refl;
            })
        | inr off ↦
            settle_all-response id responses (settle_by s requests) d r o
              (lookup-settle_by id s requests off ∙ there) waits (rw off at for) is_o
      ]

  response_for-All :
      (P : Response V E → Type 0) (id : ℕ) (responses : List (Response V E)) (r : Response V E)
      → All P responses
      → response_for id responses ≡ some r
      → P r
  response_for-All P id [] r all_ e = cc
  response_for-All P id (s ∷ responses) r (p, all_) e = elim (Bool-cases (s.id == id)) [
    | inl here ↦ subst P (some-injective (rw here at e)) p
    | inr there ↦ response_for-All P id responses r all_ (rw there at e)
  ]

  -- Where as many responses came back as there are requests, with the ids of the requests, each with a
  -- result or an error: every request that was pending is settled, with the outcome of a response with
  -- its id.
  pub process_batch_request-IsSettled :
      (responses : List (Response V E)) (b : Batch V E) (id : ℕ) (d : Deferred V E)
      → fits responses b ≡ true
      → All (λ r. is_in (outcome_of r) ≡ true) responses
      → lookup id b.requests ≡ some d
      → d.outcome ≡ none
      → (r : Response V E) × (o : Outcome V E) × (response_for id responses ≡ some r)
        × (outcome_of r ≡ some o)
        × IsSettled id o (process_batch_request responses b).requests
  unfolding process_batch_request
  process_batch_request-IsSettled responses b id d fit valid there waits =
      let (_, same) = and-true (length responses == length b.requests) _ fit in
      let ids =
        same_numbers-eq (sort (request_ids b.requests)) (sort (response_ids responses)) same in
      let asked : holds id (response_ids responses) ≡ true =
        sym (holds-sort id (response_ids responses))
        ∙ ap (holds id) (sym ids)
        ∙ holds-sort id (request_ids b.requests)
        ∙ holds-lookup id b.requests d there in
      let (r, for) = response_for-holds id responses asked in
      elim (Option-cases (outcome_of r)) [
        | inl none_ ↦ cc (
            rw none_ at
              (response_for-All (λ s. is_in (outcome_of s) ≡ true) id responses r valid for))
        | inr (o, is_o) ↦ (
          r,
          o,
          for,
          is_o,
          rw (process_batch_request, fit)
              (settle_all-response id responses b.requests d r o there waits for is_o),
        )
      ]
