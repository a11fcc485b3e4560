-- ===== src/Subscriptions/Linked.antt =====
-- The map of a subscription manager and the ids that the subscriptions hold.
use electroneum_web3_js.Base.{
  ℕ, ◌≡◌, ◌≢◌, refl, sym, ap, ◌∙◌, List, [], ◌∷◌, Bool, true, false, not, ◌&&◌, Option, none, some,
  Option-cases, Bool-cases, some-injective, inl, inr, Result, ok, err, ◌==◌, ==_iff,
}
use electroneum_web3_js.Text.{Text, is_nil, text_eq}
use electroneum_web3_js.Dict.{
  text_key, number_key, text_eq_iff, lookup, insert, delete, lookup-insert, lookup-delete,
}
use electroneum_web3_js.Subscriptions.{
  Manager, Message, SubscriptionError, has, is_known, finish_add, add_subscription, finish_remove,
  remove_subscription, unsubscribe_entries, unsubscribe, clear, subscription_id, message_listener,
}

-- A subscription that the map leads to holds the id that leads to it, which is not empty.
pub record IsLinked (m : Manager) : Type 0 where
  pub held :
      (id : Text) (sub : ℕ) → lookup id m.subscriptions ≡ some sub → lookup sub m.ids ≡ some id
  pub named : (id : Text) (sub : ℕ) → lookup id m.subscriptions ≡ some sub → is_nil id ≡ false

text_eq_self : (t : Text) → text_eq t t ≡ true
text_eq_self t = (text_eq_iff t t).1 refl

-- A subscription that is not known is not in the map.
unknown :
    (m : Manager) (sub : ℕ) (id : Text)
    → IsLinked m
    → is_known m (lookup sub m.ids) ≡ false
    → lookup id m.subscriptions ≢ some sub
unknown m sub id v new at_ = cc (rw (v.held id sub at_, v.named id sub at_, has, at_) at new)

-- A subscription object that is not in the map can lose its id.
unheld-IsLinked :
    (m : Manager) (sub : ℕ)
    → IsLinked m
    → ((id : Text) → lookup id m.subscriptions ≢ some sub)
    → IsLinked (record m { ids = delete sub m.ids })
unheld-IsLinked m sub v out = record {
  held = λ id s at_. elim (Bool-cases (sub == s)) [
    | inl same ↦ absurd (out id (rw ((==_iff sub s).0 same) at_))
    | inr other ↦ rw (lookup-delete, other) (v.held id s at_)
  ];
  named = v.named;
}

finish_add-IsLinked :
    (m : Manager) (sub : ℕ) (id : Text)
    → IsLinked m
    → is_nil id ≡ false
    → ((i : Text) → lookup i m.subscriptions ≢ some sub)
    → IsLinked
        (record m { ids = insert sub id m.ids; subscriptions = insert id sub m.subscriptions })
finish_add-IsLinked m sub id v full out = record {
  held = λ i s at_. elim (Bool-cases (text_eq id i)) [
    | inl same ↦
        let here : sub ≡ s = some-injective (rw (lookup-insert, same) at at_) in
        rw (lookup-insert, (==_iff sub s).1 here) (ap some ((text_eq_iff id i).0 same))
    | inr other ↦
        let old : lookup i m.subscriptions ≡ some s = rw (lookup-insert, other) at at_ in
        elim (Bool-cases (sub == s)) [
          | inl same ↦ absurd (out i (rw ((==_iff sub s).0 same) old))
          | inr else_ ↦ rw (lookup-insert, else_) (v.held i s old)
        ]
  ];
  named = λ i s at_. elim (Bool-cases (text_eq id i)) [
    | inl same ↦ rw (← (text_eq_iff id i).0 same) full
    | inr other ↦ v.named i s (rw (lookup-insert, other) at at_)
  ];
}

finish_remove-IsLinked :
    (m : Manager) (sub : ℕ) (id : Text)
    → IsLinked m
    → lookup sub m.ids ≡ some id
    → IsLinked (record m { ids = delete sub m.ids; subscriptions = delete id m.subscriptions })
finish_remove-IsLinked m sub id v holds = record {
  held = λ i s at_. elim (Bool-cases (text_eq id i)) [
    | inl same ↦ cc (rw (lookup-delete, same) at at_)
    | inr other ↦
        let old : lookup i m.subscriptions ≡ some s = rw (lookup-delete, other) at at_ in
        elim (Bool-cases (sub == s)) [
          | inl same ↦
              let again : some id ≡ some i =
                sym holds ∙ ap (λ k. lookup k m.ids) ((==_iff sub s).0 same) ∙ v.held i s old in
              absurd (cc ((text_eq_iff id i).1 (some-injective again), other))
          | inr else_ ↦ rw (lookup-delete, else_) (v.held i s old)
        ]
  ];
  named = λ i s at_. elim (Bool-cases (text_eq id i)) [
    | inl same ↦ cc (rw (lookup-delete, same) at at_)
    | inr other ↦ v.named i s (rw (lookup-delete, other) at at_)
  ];
}

-- The node answers with null or an id that is not empty.
abbrev pub IsAnswer : Result SubscriptionError (Option Text) → Type 0
IsAnswer (err e) = Unit {0}
IsAnswer (ok none) = Unit {0}
IsAnswer (ok (some id)) = is_nil id ≡ false

answered :
    (m : Manager) (sub : ℕ) (answer : Result SubscriptionError (Option Text))
    → IsLinked m
    → IsAnswer answer
    → ((i : Text) → lookup i m.subscriptions ≢ some sub)
    → IsLinked (finish_add m sub answer).0
unfolding finish_add
answered m sub (err e) v full out = v
answered m sub (ok none) v full out = unheld-IsLinked m sub v out
answered m sub (ok (some id)) v full out = finish_add-IsLinked m sub id v full out

removed :
    (m : Manager) (sub : ℕ) (id : Text) (answer : Result SubscriptionError (Unit {0}))
    → IsLinked m
    → lookup sub m.ids ≡ some id
    → IsLinked (finish_remove m sub id answer).0
unfolding finish_remove
removed m sub id (err e) v holds = v
removed m sub id (ok done) v holds = finish_remove-IsLinked m sub id v holds

add_subscription-IsLinked :
    (m : Manager) (sub : ℕ) (answer : Result SubscriptionError (Option Text))
    → IsLinked m
    → IsAnswer answer
    → IsLinked (add_subscription m sub answer).0
unfolding add_subscription finish_add
add_subscription-IsLinked m sub answer v full = elim (Option-cases m.provider) [
  | inl none_ ↦ rw (add_subscription, none_) v
  | inr (supports, is_) ↦ elim (Bool-cases supports) [
    | inr no_support ↦ rw (add_subscription, is_, no_support) v
    | inl support ↦ elim (Bool-cases (is_known m (lookup sub m.ids))) [
      | inl known ↦ rw (add_subscription, is_, support, known) v
      | inr new ↦
          rw (add_subscription, is_, support, new)
            (answered m sub answer v full (λ id. unknown m sub id v new))
    ]
  ]
]

remove_subscription-IsLinked :
    (m : Manager) (sub : ℕ) (answer : Result SubscriptionError (Unit {0}))
    → IsLinked m
    → IsLinked (remove_subscription m sub answer).0
unfolding remove_subscription finish_remove
remove_subscription-IsLinked m sub answer v = elim (Option-cases (lookup sub m.ids)) [
  | inl none_ ↦ rw (remove_subscription, none_) v
  | inr (id, holds) ↦ elim (Bool-cases (not (has id m.subscriptions) && not m.tolerate_unlinked)) [
    | inl missing ↦ rw (remove_subscription, holds, missing) v
    | inr there ↦ rw (remove_subscription, holds, there) (removed m sub id answer v holds)
  ]
]

unsubscribe_entries-IsLinked :
    (condition : Text → ℕ → Bool) (answers : Text → Result SubscriptionError (Unit {0}))
    (m : Manager) (entries : List (Text × ℕ))
    → IsLinked m
    → IsLinked (unsubscribe_entries condition answers m entries).0
unfolding unsubscribe_entries
unsubscribe_entries-IsLinked condition answers m [] v = v
unsubscribe_entries-IsLinked condition answers m ((id, sub) ∷ entries) v =
    elim (Bool-cases (condition id sub)) [
      | inl chosen ↦
          rw (unsubscribe_entries, chosen)
            (unsubscribe_entries-IsLinked condition answers
              (remove_subscription m sub (answers id)).0 entries
              (remove_subscription-IsLinked m sub (answers id) v))
      | inr left ↦
          rw (unsubscribe_entries, left)
            (unsubscribe_entries-IsLinked condition answers m entries v)
    ]

clear-IsLinked : (m : Manager) → IsLinked (clear m)
unfolding clear lookup
clear-IsLinked m = record { held = λ id sub at_. cc; named = λ id sub at_. cc }

-- What happens to a manager: the calls of its methods, and a change of the provider, before which
-- everything is unsubscribed and after which the map is cleared.
pub data Step : Manager → Manager → Type 0 where
  added :
      (m : Manager) (sub : ℕ) (answer : Result SubscriptionError (Option Text))
      → IsAnswer answer
      → Step m (add_subscription m sub answer).0
  removed_one :
      (m : Manager) (sub : ℕ) (answer : Result SubscriptionError (Unit {0}))
      → Step m (remove_subscription m sub answer).0
  unsubscribed :
      (m : Manager) (condition : Text → ℕ → Bool)
      (answers : Text → Result SubscriptionError (Unit {0}))
      → Step m (unsubscribe condition answers m).0
  provider_changed :
      (m : Manager) (answers : Text → Result SubscriptionError (Unit {0})) (provider : Option Bool)
      → Step m (clear (record (unsubscribe (λ id sub. true) answers m).0 { provider = provider }))

pub data Reach : Manager → Manager → Type 0 where
  start : (m : Manager) → Reach m m
  then_step : (l m n : Manager) → Reach l m → Step m n → Reach l n

step-IsLinked : (m n : Manager) → Step m n → IsLinked m → IsLinked n
unfolding unsubscribe
step-IsLinked m n (added _ sub answer full) v = add_subscription-IsLinked m sub answer v full
step-IsLinked m n (removed_one _ sub answer) v = remove_subscription-IsLinked m sub answer v
step-IsLinked m n (unsubscribed _ condition answers) v =
    unsubscribe_entries-IsLinked condition answers m m.subscriptions v
step-IsLinked m n (provider_changed _ answers provider) v = clear-IsLinked _

pub reach-IsLinked : (l m : Manager) → Reach l m → IsLinked l → IsLinked m
reach-IsLinked l m (start _) v = v
reach-IsLinked l n (then_step _ m _ reach step) v =
    step-IsLinked m n step (reach-IsLinked l m reach v)

-- A new manager.
abbrev pub new_manager : Option Bool → Bool → Manager
new_manager provider tolerate = record {
  provider = provider;
  tolerate_unlinked = tolerate;
  subscriptions = [];
  ids = [];
}

-- However a new manager was used, a message is processed only by a subscription that holds the id of
-- the message.
pub message_listener-held :
    (provider : Option Bool) (tolerate : Bool) (m : Manager) (message : Message) (sub : ℕ)
    → Reach (new_manager provider tolerate) m
    → message_listener m message ≡ some sub
    → lookup sub m.ids ≡ subscription_id message
unfolding message_listener clear
message_listener-held provider tolerate m message sub reach e =
    let v =
      reach-IsLinked (new_manager provider tolerate) m reach
        (clear-IsLinked (new_manager provider tolerate)) in
    elim (Option-cases (subscription_id message)) [
      | inl none_ ↦ cc (rw (message_listener, none_) at e)
      | inr (id, is_id) ↦ elim (Bool-cases (is_nil id)) [
        | inl empty ↦ cc (rw (message_listener, is_id, empty) at e)
        | inr full ↦ v.held id sub (rw (message_listener, is_id, full) at e) ∙ sym is_id
      ]
    ]
