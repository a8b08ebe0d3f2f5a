-- ===== src/Broker/State.antt =====
-- internal/ipc/broker.go: the subscriptions and the operations on them, each under the lock. The counter
-- is natural: the 2^63 subscriptions that would wrap it are out of reach.
use mole_port.Base.{
  Bool, List, Map, Option, String, [], delete, false, if◌then◌else◌, itoa, no_entries, none, put,
  some, str_eq, true, ℕ, ◌++◌, ◌+◌, ◌<>◌, ◌||◌, ◌∷◌,
}

pub record Subscription : Type 0 where
  pub id : String
  pub client_id : String
  pub types : String → Bool

pub record EventBroker : Type 0 where
  pub subscriptions : Map Subscription
  pub client_subs : Map (List String)
  pub next_id : ℕ

-- NewEventBroker
abbrev pub new_event_broker : EventBroker
new_event_broker = record { subscriptions = no_entries; client_subs = no_entries; next_id = 0 }

-- The loop that fills `typeMap`, read as `typeMap[t]`.
unfoldable pub type_map : List String → String → Bool
type_map [] t = false
type_map (u ∷ us) t = str_eq u t || type_map us t

-- `b.clientSubs[clientID]`, nil where there is no entry
unfoldable pub subs_of : EventBroker → String → List String
subs_of b client = elim (b.client_subs client) [ none ↦ [] | some ids ↦ ids ]

-- fmt.Sprintf("sub-%s-%d", clientID, id)
unfoldable pub subscription_id : String → ℕ → String
unfolding itoa
subscription_id client n = "sub-" <> client <> "-" <> itoa n

-- Subscribe
unfoldable pub subscribe : String → List String → EventBroker → String × EventBroker
unfolding subscription_id subs_of type_map
subscribe client types b =
    let id = subscription_id client (b.next_id + 1) in
    (
      id,
      record {
        subscriptions =
            put b.subscriptions id (record { id = id; client_id = client; types = type_map types });
        client_subs = put b.client_subs client (subs_of b client ++ id ∷ []);
        next_id = b.next_id + 1;
      },
    )

-- The loop over `subs`, which removes the first entry alone.
unfoldable pub remove_first : String → List String → List String
remove_first id [] = []
remove_first id (x ∷ xs) = let rest = remove_first id xs in if str_eq x id then xs else x ∷ rest

-- `if len(...) == 0 { delete(...) }`, behind the assignment
unfoldable pub put_subs : Map (List String) → String → List String → Map (List String)
put_subs m client [] = delete m client
put_subs m client (x ∷ xs) = put m client (x ∷ xs)

-- Behind the lookup of the subscription
unfoldable pub unsubscribe_found : String → Option Subscription → EventBroker → Bool × EventBroker
unfolding subs_of remove_first put_subs
unsubscribe_found id none b = (false, b)
unsubscribe_found id (some s) b = (
  true,
  record b {
    subscriptions = delete b.subscriptions id;
    client_subs = put_subs b.client_subs s.client_id (remove_first id (subs_of b s.client_id));
  },
)

-- Unsubscribe
unfoldable pub unsubscribe : String → EventBroker → Bool × EventBroker
unfolding unsubscribe_found
unsubscribe id b = unsubscribe_found id (b.subscriptions id) b

-- for _, id := range subIDs { delete(b.subscriptions, id) }
unfoldable pub delete_all : List String → Map Subscription → Map Subscription
delete_all [] m = m
delete_all (id ∷ ids) m = delete_all ids (delete m id)

-- RemoveClient
unfoldable pub remove_client : String → EventBroker → EventBroker
unfolding delete_all subs_of
remove_client client b = record b {
  subscriptions = delete_all (subs_of b client) b.subscriptions;
  client_subs = delete b.client_subs client;
}
