-- ===== src/Subscriptions.antt =====
-- web3-core/src/web3_subscription_manager.ts and web3_subscriptions.ts: the subscriptions of a manager.
-- A subscription object is a number; a call runs to its end before the next one starts, with the
-- answer of the node as an argument.
pub mod Linked
use electroneum_web3_js.Base.{
  ℕ, List, [], ◌∷◌, Bool, true, false, not, ◌&&◌, Option, none, some, Result, ok, err, ◌>>=◌,
  if◌then◌else◌,
}
use electroneum_web3_js.Text.{Text, is_nil, to_string}
use electroneum_web3_js.Dict.{text_key, number_key, lookup, insert, delete}

pub data SubscriptionError : Type 0 where
  provider_not_available : SubscriptionError
  not_supported : SubscriptionError
  already_exists : Text → SubscriptionError
  not_subscribed : SubscriptionError
  does_not_exist : Text → SubscriptionError
  request_failed : SubscriptionError

-- Whether there is a provider, and whether it supports subscriptions; the map of the manager; and
-- the member `_id` of the objects, missing where it is undefined.
pub record Manager : Type 0 where
  pub provider : Option Bool
  pub tolerate_unlinked : Bool
  pub subscriptions : List (Text × ℕ)
  pub ids : List (ℕ × Text)

abbrev pub supports_subscriptions : Manager → Bool
supports_subscriptions m = elim m.provider [ none ↦ false | some supports ↦ supports ]

abbrev pub has : Text → List (Text × ℕ) → Bool
has id subscriptions = elim (lookup id subscriptions) [ none ↦ false | some sub ↦ true ]

-- `sub.id && this._subscriptions.has(sub.id)`
abbrev pub is_known : Manager → Option Text → Bool
is_known m none = false
is_known m (some id) = not (is_nil id) && has id m.subscriptions

-- `sendSubscriptionRequest` and what follows it, for the answer of the node: `none` is null.
unfoldable pub finish_add :
    Manager → ℕ → Result SubscriptionError (Option Text) → Manager × Result SubscriptionError Text
finish_add m sub (err e) = (m, err e)
finish_add m sub (ok none) = (record m { ids = delete sub m.ids }, err not_subscribed)
finish_add m sub (ok (some id)) =
    (record m { ids = insert sub id m.ids; subscriptions = insert id sub m.subscriptions }, ok id)

abbrev exists_error : Option Text → SubscriptionError
exists_error none = not_subscribed
exists_error (some id) = already_exists id

unfoldable pub add_subscription :
    Manager → ℕ → Result SubscriptionError (Option Text) → Manager × Result SubscriptionError Text
add_subscription m sub answer = elim m.provider [
  | none ↦ (m, err provider_not_available)
  | some supports ↦
      if not supports
      then (m, err not_supported)
      else if is_known m (lookup sub m.ids)
      then (m, err (exists_error (lookup sub m.ids)))
      else finish_add m sub answer
]

-- `sendUnsubscribeRequest` and what follows it.
unfoldable pub finish_remove :
    Manager
    → ℕ
    → Text
    → Result SubscriptionError (Unit {0})
    → Manager × Result SubscriptionError Text
finish_remove m sub id (err e) = (m, err e)
finish_remove m sub id (ok done) =
    (record m { ids = delete sub m.ids; subscriptions = delete id m.subscriptions }, ok id)

unfoldable pub remove_subscription :
    Manager → ℕ → Result SubscriptionError (Unit {0}) → Manager × Result SubscriptionError Text
remove_subscription m sub answer = elim (lookup sub m.ids) [
  | none ↦ (m, err not_subscribed)
  | some id ↦
      if not (has id m.subscriptions) && not m.tolerate_unlinked
      then (m, err (does_not_exist id))
      else finish_remove m sub id answer
]

-- `Promise.all` rejects where one of the promises does.
abbrev and_then :
    Result SubscriptionError Text
    → Result SubscriptionError (List Text)
    → Result SubscriptionError (List Text)
and_then result rest = do id ← result; ids ← rest; ok (id ∷ ids)

-- The loop of `unsubscribe` over the entries, with the answer of the node for each id.
unfoldable pub unsubscribe_entries :
    (Text → ℕ → Bool)
    → (Text → Result SubscriptionError (Unit {0}))
    → Manager
    → List (Text × ℕ)
    → Manager × Result SubscriptionError (List Text)
unsubscribe_entries condition answers m [] = (m, ok [])
unsubscribe_entries condition answers m ((id, sub) ∷ entries) =
    let (next, result) = remove_subscription m sub (answers id) in
    let (last, results) = unsubscribe_entries condition answers next entries in
    let (skipped, others) = unsubscribe_entries condition answers m entries in
    elim (condition id sub) [ true ↦ (last, and_then result results) | false ↦ (skipped, others) ]

unfoldable pub unsubscribe :
    (Text → ℕ → Bool)
    → (Text → Result SubscriptionError (Unit {0}))
    → Manager
    → Manager × Result SubscriptionError (List Text)
unsubscribe condition answers m = unsubscribe_entries condition answers m m.subscriptions

unfoldable pub clear : Manager → Manager
clear m = record m { subscriptions = [] }

-- What `messageListener` reads of a message.
pub record Message : Type 0 where
  pub params_subscription : Option Text
  pub data_subscription : Option Text
  pub id : Option ℕ

-- `a || b`: the empty text does not count.
abbrev or_text : Option Text → Option Text → Option Text
or_text none b = b
or_text (some a) b = if is_nil a then b else some a

abbrev id_text : Option ℕ → Option Text
id_text none = none
id_text (some n) = some (to_string 16 n)

abbrev pub subscription_id : Message → Option Text
subscription_id message =
    or_text message.params_subscription (or_text message.data_subscription (id_text message.id))

-- The subscription that processes the message.
unfoldable pub message_listener : Manager → Message → Option ℕ
message_listener m message = elim (subscription_id message) [
  | none ↦ none
  | some id ↦ if is_nil id then none else lookup id m.subscriptions
]
