-- ===== src/Batch.antt =====
-- web3-core/src/web3_batch_request.ts with web3-utils/src/json_rpc.ts and web3_deferred_promise.ts: a
-- batch of requests, whose ids are numbers (`setRequestIdStart` was called).
pub mod Once
pub mod Matched
pub mod Aborted
use electroneum_web3_js.Base.{
  ℕ, zero, suc, ◌+◌, List, [], ◌∷◌, map, Bool, true, false, not, ◌&&◌, ◌||◌, Option, none, some,
  if◌then◌else◌, leb, ltb, ◌==◌, length,
}
use electroneum_web3_js.Dict.{number_key, insert}

-- `state` of a deferred promise.
pub data State : Type 0 where
  pending : State
  fulfilled : State
  rejected : State

pub data Reason (E : Type 0) : Type 0 where
  rpc : Option E → Reason E
  aborted : Reason E
  timed_out : Reason E
  bad_response : Reason E
  send_error : Reason E

pub data Outcome (V E : Type 0) : Type 0 where
  value : Option V → Outcome V E
  failure : Reason E → Outcome V E

-- How the promise within is settled, if it is, and `_state`, which every call sets.
pub record Deferred (V E : Type 0) : Type 0 where
  pub outcome : Option (Outcome V E)
  pub state : State

-- A response. Of `result` and `error`, `none` is a missing member and `some none` is null.
pub record Response (V E : Type 0) : Type 0 where
  pub is_version_2 : Bool
  pub id : ℕ
  pub result : Option (Option V)
  pub error_ : Option (Option E)

-- The requests by their ids, and the promise that `execute` returns, without the responses that it
-- is resolved with.
pub record Batch (V E : Type 0) : Type 0 where
  pub requests : List (ℕ × Deferred V E)
  pub whole : Deferred V E

abbrev pub is_in {ℓ} : {A : Type ℓ} → Option A → Bool
is_in none = false
is_in (some a) = true

abbrev pub no_value {ℓ} : {A : Type ℓ} → Option (Option A) → Bool
no_value none = true
no_value (some none) = true
no_value (some (some a)) = false

abbrev or_null {ℓ} : {A : Type ℓ} → Option (Option A) → Option A
or_null none = none
or_null (some a) = a

-- `toPayload` with a seed: the id of the request, or the next number.
abbrev pub to_payload : ℕ → Option ℕ → ℕ × ℕ
to_payload seed none = (seed + 1, seed + 1)
to_payload seed (some id) = (seed + 1, id)

-- `sort((a, b) => a - b)`
unfoldable pub insert_sorted : ℕ → List ℕ → List ℕ
insert_sorted n [] = n ∷ []
insert_sorted n (m ∷ ms) = if leb n m then n ∷ m ∷ ms else m ∷ insert_sorted n ms

unfoldable pub sort : List ℕ → List ℕ
sort [] = []
sort (n ∷ ns) = insert_sorted n (sort ns)

-- `JSON.stringify(a) === JSON.stringify(b)` of numbers.
abbrev pub same_numbers : List ℕ → List ℕ → Bool
same_numbers [] [] = true
same_numbers [] (n ∷ ns) = false
same_numbers (m ∷ ms) [] = false
same_numbers (m ∷ ms) (n ∷ ns) = m == n && same_numbers ms ns

module _ {V E : Type 0} where
  abbrev pub new_deferred : Deferred V E
  new_deferred = record { outcome = none; state = pending }

  -- A promise is settled once.
  abbrev pub first_outcome : Option (Outcome V E) → Outcome V E → Option (Outcome V E)
  first_outcome none o = some o
  first_outcome (some before) o = some before

  abbrev state_of : Outcome V E → State
  state_of (value v) = fulfilled
  state_of (failure e) = rejected

  -- `resolve` and `reject`.
  abbrev pub settle : Outcome V E → Deferred V E → Deferred V E
  settle o d = record { outcome = first_outcome d.outcome o; state = state_of o }

  unfoldable pub is_response_with_result : Response V E → Bool
  is_response_with_result r = r.is_version_2 && is_in r.result && no_value r.error_

  unfoldable pub is_response_with_error : Response V E → Bool
  is_response_with_error r = r.is_version_2 && no_value r.result && is_in r.error_

  -- What a response settles its request with.
  unfoldable pub outcome_of : Response V E → Option (Outcome V E)
  outcome_of r =
      if is_response_with_result r
      then some (value (or_null r.result))
      else if is_response_with_error r
      then some (failure (rpc (or_null r.error_)))
      else none

  unfoldable pub add : ℕ → Option ℕ → Batch V E → ℕ × Batch V E
  add seed id b =
      let (next, payload_id) = to_payload seed id in
      (next, record b { requests = insert payload_id new_deferred b.requests })

  -- `this._requests.get(id)?.promise`, settled.
  unfoldable pub settle_at : ℕ → Outcome V E → List (ℕ × Deferred V E) → List (ℕ × Deferred V E)
  settle_at id o [] = []
  settle_at id o ((k, d) ∷ requests) =
      if k == id then (k, settle o d) ∷ requests else (k, d) ∷ settle_at id o requests

  abbrev settle_by : Response V E → List (ℕ × Deferred V E) → List (ℕ × Deferred V E)
  settle_by r requests = elim (outcome_of r) [
    | none ↦ requests
    | some o ↦ settle_at r.id o requests
  ]

  unfoldable pub settle_all :
      List (Response V E) → List (ℕ × Deferred V E) → List (ℕ × Deferred V E)
  settle_all [] requests = requests
  settle_all (r ∷ responses) requests = settle_all responses (settle_by r requests)

  unfoldable pub abort_all : List (ℕ × Deferred V E) → List (ℕ × Deferred V E)
  abort_all [] = []
  abort_all ((k, d) ∷ requests) = (k, settle (failure aborted) d) ∷ abort_all requests

  abbrev pub request_ids : List (ℕ × Deferred V E) → List ℕ
  request_ids requests = map (λ r. r.0) requests

  abbrev pub response_ids : List (Response V E) → List ℕ
  response_ids responses = map (λ r. r.id) responses

  abbrev pub fits : List (Response V E) → Batch V E → Bool
  fits responses b =
      length responses == length b.requests
      && same_numbers (sort (request_ids b.requests)) (sort (response_ids responses))

  -- `_processBatchRequest` once the answer is there; what it throws rejects the promise of the batch.
  unfoldable pub process_batch_request : List (Response V E) → Batch V E → Batch V E
  process_batch_request responses b =
      if fits responses b
      then record {
        requests = settle_all responses b.requests;
        whole = settle (value none) b.whole;
      }
      else record { requests = abort_all b.requests; whole = settle (failure bad_response) b.whole }

  -- `sendBatch` rejects: the requests are left alone.
  unfoldable pub send_failed : Batch V E → Batch V E
  send_failed b = record b { whole = settle (failure send_error) b.whole }

  -- The timer of the batch: `_checkTimeout`, and the `catch` of `execute` behind it.
  unfoldable pub check_timeout : Batch V E → Batch V E
  check_timeout b = elim b.whole.state [
    | pending ↦ record {
      requests = abort_all b.requests;
      whole = settle (failure timed_out) b.whole;
    }
    | fulfilled ↦ b
    | rejected ↦ b
  ]
