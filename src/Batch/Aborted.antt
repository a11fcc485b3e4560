-- ===== src/Batch/Aborted.antt =====
-- The ways in which the requests of a batch are aborted: answers that do not match, and the timer.
use electroneum_web3_js.Base.{
  ℕ, suc, ◌≡◌, ◌≢◌, refl, sym, ap, ◌∙◌, List, [], ◌∷◌, true, none, some, Bool-cases, and-true, inl,
  inr, if◌then◌else◌, ◌==◌, length, arith,
}
use electroneum_web3_js.Dict.{number_key, lookup}
use electroneum_web3_js.Batch.{
  pending, rejected, aborted, timed_out, bad_response, failure, Deferred, Response, Batch, settle,
  abort_all, insert_sorted, sort, request_ids, response_ids, fits, process_batch_request,
  check_timeout,
}
use electroneum_web3_js.Batch.Once.{
  lookup-abort_all, IsSettled, settle_all-IsSettled, abort_all-IsSettled,
}
use electroneum_web3_js.Batch.Matched.{same_numbers-eq}

-- How often a number occurs.
abbrev pub count : ℕ → List ℕ → ℕ
count n [] = 0
count n (m ∷ ms) = if m == n then suc (count n ms) else count n ms

count-insert_sorted : (n m : ℕ) (ms : List ℕ) → count n (insert_sorted m ms) ≡ count n (m ∷ ms)
unfolding insert_sorted
count-insert_sorted n m [] = refl
count-insert_sorted n m (k ∷ ms) = ground (arith, count-insert_sorted n m ms)

count-sort : (n : ℕ) (ms : List ℕ) → count n (sort ms) ≡ count n ms
unfolding sort
count-sort n [] = refl
count-sort n (m ∷ ms) = ground (arith, count-insert_sorted n m (sort ms), count-sort n ms)

module _ {V E : Type 0} where
  fits-count :
      (responses : List (Response V E)) (b : Batch V E) (k : ℕ)
      → fits responses b ≡ true
      → count k (response_ids responses) ≡ count k (request_ids b.requests)
  fits-count responses b k fit =
      let (_, same) = and-true (length responses == length b.requests) _ fit in
      let ids =
        same_numbers-eq (sort (request_ids b.requests)) (sort (response_ids responses)) same in
      sym (count-sort k (response_ids responses))
      ∙ ap (count k) (sym ids)
      ∙ count-sort k (request_ids b.requests)

  abort_all-aborted :
      (id : ℕ) (d : Deferred V E) (requests : List (ℕ × Deferred V E))
      → lookup id requests ≡ some d
      → d.outcome ≡ none
      → IsSettled id (failure aborted) (abort_all requests)
  abort_all-aborted id d requests there waits = record {
    promise = settle (failure aborted) d;
    there = lookup-abort_all id requests ∙ rw there refl;
    settled = rw waits refl;
  }

  -- Where some id occurs more or fewer times among the responses than among the requests, every
  -- request that was pending is rejected as aborted, and so is the promise of the batch, which was
  -- pending, for the bad response.
  pub process_batch_request-aborted :
      (responses : List (Response V E)) (b : Batch V E) (k id : ℕ) (d : Deferred V E)
      → count k (response_ids responses) ≢ count k (request_ids b.requests)
      → b.whole.outcome ≡ none
      → lookup id b.requests ≡ some d
      → d.outcome ≡ none
      → IsSettled id (failure aborted) (process_batch_request responses b).requests
        × ((process_batch_request responses b).whole.outcome ≡ some (failure bad_response))
        × ((process_batch_request responses b).whole.state ≡ rejected)
  unfolding process_batch_request
  process_batch_request-aborted responses b k id d differs open_ there waits =
      elim (Bool-cases (fits responses b)) [
        | inl good ↦ absurd (differs (fits-count responses b k good))
        | inr bad ↦
            rw (process_batch_request, bad)
              (abort_all-aborted id d b.requests there waits, rw open_ refl, refl)
      ]

  process_batch_request-keeps :
      (responses : List (Response V E)) (b : Batch V E) (id : ℕ)
      → IsSettled id (failure aborted) b.requests
      → IsSettled id (failure aborted) (process_batch_request responses b).requests
  unfolding process_batch_request
  process_batch_request-keeps responses b id s = elim (Bool-cases (fits responses b)) [
    | inl good ↦
        rw (process_batch_request, good)
          (settle_all-IsSettled id (failure aborted) responses b.requests s)
    | inr bad ↦
        rw (process_batch_request, bad) (abort_all-IsSettled id (failure aborted) b.requests s)
  ]

  -- The answer and the timer of a pending batch, in either order: the timer changes nothing once an
  -- answer is processed, whether it matches or not; and if the timer comes first, every request that
  -- was pending is rejected as aborted, the promise of the batch is rejected for the timeout, and an
  -- answer that comes then leaves both so.
  pub check_timeout-process_batch_request :
      (responses : List (Response V E)) (b : Batch V E) (id : ℕ) (d : Deferred V E)
      → b.whole.state ≡ pending
      → b.whole.outcome ≡ none
      → lookup id b.requests ≡ some d
      → d.outcome ≡ none
      → (check_timeout (process_batch_request responses b) ≡ process_batch_request responses b)
        × IsSettled id (failure aborted) (check_timeout b).requests
        × ((check_timeout b).whole.outcome ≡ some (failure timed_out))
        × IsSettled id
            (failure aborted)
            (process_batch_request responses (check_timeout b)).requests
        × ((process_batch_request responses (check_timeout b)).whole.outcome
            ≡ some (failure timed_out))
  unfolding process_batch_request check_timeout
  check_timeout-process_batch_request responses b id d waits open_ there pending_ =
      let abortion : IsSettled id (failure aborted) (check_timeout b).requests =
        rw (check_timeout, waits) (abort_all-aborted id d b.requests there pending_) in
      let timeout : (check_timeout b).whole.outcome ≡ some (failure timed_out) =
        rw (check_timeout, waits, open_) refl in
      (
        elim (Bool-cases (fits responses b)) [
          | inl good ↦ rw (process_batch_request, good) refl
          | inr bad ↦ rw (process_batch_request, bad) refl
        ],
        abortion,
        timeout,
        process_batch_request-keeps responses (check_timeout b) id abortion,
        elim (Bool-cases (fits responses (check_timeout b))) [
          | inl good ↦ rw (process_batch_request, good, timeout) refl
          | inr bad ↦ rw (process_batch_request, bad, timeout) refl
        ],
      )
