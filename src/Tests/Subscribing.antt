-- ===== src/Tests/Subscribing.antt =====
-- A run of a subscription manager.
use electroneum_web3_js.Base.{◌≡◌, refl, true, false, none, some, ok}
use electroneum_web3_js.Text.{lit}
use electroneum_web3_js.Dict.{text_key, number_key, lookup, insert, delete}
use electroneum_web3_js.Subscriptions.{
  Manager, Message, subscription_id, add_subscription, finish_add, remove_subscription,
  finish_remove, message_listener,
}
use electroneum_web3_js.Subscriptions.Linked.{
  Reach, start, then_step, added, removed_one, new_manager, message_listener-held,
}

abbrev opened : Manager
opened = new_manager (some true) false

abbrev one : Manager
one = (add_subscription opened 7 (ok (some (lit "0xa1")))).0

abbrev two : Manager
two = (add_subscription one 8 (ok (some (lit "0xb2")))).0

abbrev rest : Manager
rest = (remove_subscription two 7 (ok tt)).0

abbrev news : Message
news = record { params_subscription = some (lit "0xb2"); data_subscription = none; id = none }

reached : Reach opened rest
reached =
    then_step opened two rest
      (then_step opened one two
        (then_step opened opened one (start opened) (added opened 7 (ok (some (lit "0xa1"))) refl))
        (added one 8 (ok (some (lit "0xb2"))) refl))
      (removed_one two 7 (ok tt))

heard : message_listener rest news ≡ some 8
unfolding message_listener add_subscription finish_add remove_subscription finish_remove lookup
    insert delete
heard = refl

message_listener-held_example : lookup 8 rest.ids ≡ subscription_id news
message_listener-held_example = message_listener-held (some true) false rest news 8 reached heard
