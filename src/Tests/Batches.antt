-- ===== src/Tests/Batches.antt =====
-- Runs of a batch of two requests.
use electroneum_web3_js.Base.{ℕ, ◌≡◌, refl, List, [], ◌∷◌, true, none, some, arith}
use electroneum_web3_js.Dict.{number_key, lookup, insert}
use electroneum_web3_js.Batch.{
  rejected, Outcome, failure, aborted, timed_out, bad_response, Response, Batch, new_deferred, add,
  is_response_with_result, is_response_with_error, outcome_of, insert_sorted, sort,
  process_batch_request, check_timeout,
}
use electroneum_web3_js.Batch.Once.{IsSettled}
use electroneum_web3_js.Batch.Matched.{response_for, process_batch_request-IsSettled}
use electroneum_web3_js.Batch.Aborted.{
  process_batch_request-aborted, check_timeout-process_batch_request,
}

abbrev empty_batch : Batch ℕ ℕ
empty_batch = record { requests = []; whole = new_deferred }

abbrev two_requests : Batch ℕ ℕ
two_requests = (add 11 none (add 10 none empty_batch).1).1

-- The answers come in another order, the second with an error.
abbrev answers : List (Response ℕ ℕ)
answers =
    record { is_version_2 = true; id = 12; result = none; error_ = some (some 404) }
    ∷ record { is_version_2 = true; id = 11; result = some (some 7); error_ = none }
    ∷ []

process_batch_request-IsSettled_example :
    (r : Response ℕ ℕ) × (o : Outcome ℕ ℕ) × (response_for 11 answers ≡ some r)
    × (outcome_of r ≡ some o)
    × IsSettled 11 o (process_batch_request answers two_requests).requests
unfolding outcome_of is_response_with_result is_response_with_error add insert lookup sort
    insert_sorted
process_batch_request-IsSettled_example =
    process_batch_request-IsSettled answers two_requests 11 new_deferred refl (refl, (refl, tt))
      refl refl

-- One request is answered twice and the other not at all.
abbrev answered_twice : List (Response ℕ ℕ)
answered_twice =
    record { is_version_2 = true; id = 11; result = some (some 7); error_ = none }
    ∷ record { is_version_2 = true; id = 11; result = some (some 8); error_ = none }
    ∷ []

process_batch_request-aborted_example :
    IsSettled 11 (failure aborted) (process_batch_request answered_twice two_requests).requests
    × ((process_batch_request answered_twice two_requests).whole.outcome
        ≡ some (failure bad_response))
    × ((process_batch_request answered_twice two_requests).whole.state ≡ rejected)
unfolding add insert lookup
process_batch_request-aborted_example =
    process_batch_request-aborted answered_twice two_requests 12 11 new_deferred
      (λ e. absurd (omega (arith, e))) refl refl refl

check_timeout-process_batch_request_example :
    (check_timeout (process_batch_request answers two_requests)
      ≡ process_batch_request answers two_requests)
    × IsSettled 12 (failure aborted) (check_timeout two_requests).requests
    × ((check_timeout two_requests).whole.outcome ≡ some (failure timed_out))
    × IsSettled 12
        (failure aborted)
        (process_batch_request answers (check_timeout two_requests)).requests
    × ((process_batch_request answers (check_timeout two_requests)).whole.outcome
        ≡ some (failure timed_out))
unfolding add insert lookup
check_timeout-process_batch_request_example =
    check_timeout-process_batch_request answers two_requests 12 new_deferred refl refl refl refl
