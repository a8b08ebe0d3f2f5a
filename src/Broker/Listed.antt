-- ===== src/Broker/Listed.antt =====
-- internal/ipc/broker.go: the agreement of the broker's two maps, under any requests.
use mole_port.Base.{
  In, List, Map, Option, String, [], arith, delete, eq_iff, if◌then◌else◌, inl, inr, none, refl,
  some, str_eq, subst, ℕ, ◌++◌, ◌+◌, ◌∷◌, ◌≡◌, ◌≢◌,
}
use mole_port.Broker.State.{
  EventBroker, Subscription, delete_all, new_event_broker, put_subs, remove_client, remove_first,
  subs_of, subscribe, subscription_id, unsubscribe, unsubscribe_found,
}

-- A subscription stands under its id, and its client's list has that id.
abbrev pub IsListed : EventBroker → Type 0
IsListed b =
    (id : String) (s : Subscription)
    → b.subscriptions id ≡ some s
    → (s.id ≡ id) × In id (subs_of b s.client_id)

-- What clients ask for, with RemoveClient at the end of a connection.
pub data Request : Type 0 where
  subscribing : String → List String → Request
  unsubscribing client_gone : String → Request

unfoldable pub serve : EventBroker → Request → EventBroker
serve b (subscribing client types) = (subscribe client types b).1
serve b (unsubscribing id) = (unsubscribe id b).1
serve b (client_gone client) = remove_client client b

unfoldable pub serve_all : EventBroker → List Request → EventBroker
unfolding serve
serve_all b [] = b
serve_all b (r ∷ rs) = serve_all (serve b r) rs

pub In-append_left : (x : String) (xs ys : List String) → In x xs → In x (xs ++ ys)
In-append_left x [] ys i = elim i [ ]
In-append_left x (y ∷ xs) ys (inl e) = inl e
In-append_left x (y ∷ xs) ys (inr i) = inr (In-append_left x xs ys i)

pub In-append_last : (x : String) (xs : List String) → In x (xs ++ x ∷ [])
In-append_last x [] = inl refl
In-append_last x (y ∷ xs) = inr (In-append_last x xs)

In-remove_first : (x id : String) (xs : List String) → x ≢ id → In x xs → In x (remove_first id xs)
unfolding remove_first
In-remove_first x id [] ne i = elim i [ ]
In-remove_first x id (y ∷ xs) ne (inl e) = ground (arith, eq_iff y id)
In-remove_first x id (y ∷ xs) ne (inr i) = ground (arith, In-remove_first x id xs ne i)

subs_of-put_subs :
    (m : Map (List String)) (client : String) (ids : List String) (c : String) (n : ℕ)
    (subs : Map Subscription)
    → subs_of (record { subscriptions = subs; client_subs = put_subs m client ids; next_id = n }) c
      ≡ (if str_eq client c then ids else elim (m c) [ none ↦ [] | some js ↦ js ])
unfolding subs_of put_subs
subs_of-put_subs m client [] c n subs = ground arith
subs_of-put_subs m client (x ∷ xs) c n subs = ground arith

delete_all-some :
    (ids : List String) (m : Map Subscription) (id : String) (s : Subscription)
    → delete_all ids m id ≡ some s
    → m id ≡ some s
unfolding delete_all
delete_all-some [] m id s e = e
delete_all-some (x ∷ xs) m id s e = ground (arith, delete_all-some xs (delete m x) id s e)

delete_all-gone :
    (ids : List String) (m : Map Subscription) (id : String)
    → m id ≡ none
    → delete_all ids m id ≡ none
unfolding delete_all
delete_all-gone [] m id e = e
delete_all-gone (x ∷ xs) m id e = delete_all-gone xs (delete m x) id (ground arith)

delete_all-In :
    (ids : List String) (m : Map Subscription) (id : String)
    → In id ids
    → delete_all ids m id ≡ none
unfolding delete_all
delete_all-In [] m id i = elim i [ ]
delete_all-In (x ∷ xs) m id (inl e) =
    delete_all-gone xs (delete m x) id (ground (arith, eq_iff x id))
delete_all-In (x ∷ xs) m id (inr i) = delete_all-In xs (delete m x) id i

subscribe-IsListed :
    (client : String) (types : List String) (b : EventBroker)
    → IsListed b
    → IsListed (subscribe client types b).1
unfolding subscribe
subscribe-IsListed client types b h id s e =
    let k = subscription_id client (b.next_id + 1) in
    ground (
      arith,
      eq_iff k id,
      eq_iff client s.client_id,
      In-append_last k (subs_of b client),
      In-append_left id (subs_of b client) (k ∷ []),
      h id s,
      e,
    )

unsubscribe_found-IsListed :
    (sub : String) (o : Option Subscription) (b : EventBroker)
    → IsListed b
    → IsListed (unsubscribe_found sub o b).1
unfolding unsubscribe_found
unsubscribe_found-IsListed sub none b h id s e = h id s e
unsubscribe_found-IsListed sub (some t) b h id s e =
    let ids = remove_first sub (subs_of b t.client_id) in
    let subs = delete b.subscriptions sub in
    rw (subs_of-put_subs b.client_subs t.client_id ids s.client_id b.next_id subs) (
      ground (
        arith,
        eq_iff sub id,
        eq_iff t.client_id s.client_id,
        h id s,
        e,
        In-remove_first id sub (subs_of b t.client_id),
      ))

remove_client-IsListed :
    (client : String) (b : EventBroker) → IsListed b → IsListed (remove_client client b)
unfolding remove_client subs_of
remove_client-IsListed client b h id s e =
    let gone = delete_all-In (subs_of b client) b.subscriptions id in
    let kept = delete_all-some (subs_of b client) b.subscriptions id s e in
    let (same, listed) = h id s kept in ground (arith, eq_iff client s.client_id)

serve-IsListed : (r : Request) (b : EventBroker) → IsListed b → IsListed (serve b r)
unfolding serve unsubscribe
serve-IsListed (subscribing client types) b h = subscribe-IsListed client types b h
serve-IsListed (unsubscribing id) b h = unsubscribe_found-IsListed id (b.subscriptions id) b h
serve-IsListed (client_gone client) b h = remove_client-IsListed client b h

serve_all-IsListed : (rs : List Request) (b : EventBroker) → IsListed b → IsListed (serve_all b rs)
unfolding serve_all
serve_all-IsListed [] b h = h
serve_all-IsListed (r ∷ rs) b h = serve_all-IsListed rs (serve b r) (serve-IsListed r b h)

-- After any requests, each subscription stands under its own id and in the list of its client.
pub served-IsListed : (rs : List Request) → IsListed (serve_all new_event_broker rs)
served-IsListed rs = serve_all-IsListed rs new_event_broker (λ id s e. ground arith)

-- After any requests, the end of a client's connection leaves no subscription of that client.
pub remove_client-forgets :
    (rs : List Request) (client id : String) (s : Subscription)
    → (remove_client client (serve_all new_event_broker rs)).subscriptions id ≡ some s
    → s.client_id ≢ client
unfolding remove_client
remove_client-forgets rs client id s e same =
    let b = serve_all new_event_broker rs in
    let gone = delete_all-In (subs_of b client) b.subscriptions id in
    let kept = delete_all-some (subs_of b client) b.subscriptions id s e in
    let listed = subst (λ c. In id (subs_of b c)) same (served-IsListed rs id s kept).1 in
    ground (arith, gone listed)
