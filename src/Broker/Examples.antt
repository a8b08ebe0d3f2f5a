-- ===== src/Broker/Examples.antt =====
-- Two clients of the broker.
use mole_port.Base.{Distinct, In, List, String, [], itoa, refl, some, ◌∷◌, ◌≡◌}
use mole_port.Broker.State.{
  EventBroker, new_event_broker, remove_client, subs_of, subscribe, subscription_id, type_map,
}
use mole_port.Broker.Events.{distribute, is_sent, targets_in, visit, visit_found}
use mole_port.Broker.Listed.{Request, serve_all, subscribing, unsubscribing}
use mole_port.Broker.Targets.{
  IsSubscriber, distribute-IsSubscriber, recipients, remove_client-distribute,
}

abbrev requests : List Request
requests =
    subscribing "c1" ("ssh" ∷ "forward" ∷ [])
    ∷ subscribing "c2" ("ssh" ∷ [])
    ∷ unsubscribing "sub-c2-2"
    ∷ []

abbrev two_clients : EventBroker
two_clients =
    (subscribe "c2" ("ssh" ∷ []) (subscribe "c1" ("ssh" ∷ "forward" ∷ []) new_event_broker).1).1

abbrev both : List String
both = "sub-c1-1" ∷ "sub-c2-2" ∷ []

distribute-IsSubscriber_example :
    Distinct (recipients (distribute both "ssh" "event.ssh" (some "{}") two_clients))
    × ((c : String)
        → (In c (recipients (distribute both "ssh" "event.ssh" (some "{}") two_clients))
            → IsSubscriber two_clients.subscriptions "ssh" both c)
          × (IsSubscriber two_clients.subscriptions "ssh" both c
              → In c (recipients (distribute both "ssh" "event.ssh" (some "{}") two_clients))))
distribute-IsSubscriber_example = distribute-IsSubscriber both "ssh" "event.ssh" "{}" two_clients

two_clients-sent :
    recipients (distribute both "ssh" "event.ssh" (some "{}") two_clients) ≡ "c1" ∷ "c2" ∷ []
unfolding distribute targets_in visit visit_found is_sent subscribe subscription_id itoa subs_of
    type_map
two_clients-sent = refl

remove_client-distribute_example : ¬ In "c1" (
    recipients (
      distribute both "ssh" "event.ssh"
        (some "{}")
        (remove_client "c1" (serve_all new_event_broker requests))))
remove_client-distribute_example =
    remove_client-distribute requests "c1" both "ssh" "event.ssh" "{}"
