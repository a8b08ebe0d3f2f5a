-- ===== src/Broker/Targets.antt =====
-- internal/ipc/broker.go: the clients that distribute reaches.
use mole_port.Base.{
  Bool-cases, Distinct, In, List, Map, Option, String, [], ap, arith, eq_iff, if◌then◌else◌, inl,
  inr, map, none, not, put_self, refl, some, str_eq, subst, sym, true, ◌&&◌, ◌++◌, ◌∙◌, ◌∷◌, ◌≡◌,
  ◌⊎◌,
}
use mole_port.Broker.State.{
  EventBroker, Subscription, new_event_broker, remove_client, subscribe, type_map, unsubscribe,
  unsubscribe_found,
}
use mole_port.Broker.Events.{Notification, distribute, is_sent, targets_in, visit, visit_found}
use mole_port.Broker.Listed.{
  In-append_last, In-append_left, Request, remove_client-forgets, serve_all,
}

-- A client with a subscription to the type, among those that the loop visits.
abbrev pub IsSubscriber : Map Subscription → String → List String → String → Type 0
IsSubscriber subs type order client =
    (id : String) × (s : Subscription) × In id order
    × (subs id ≡ some s)
    × (s.types type ≡ true)
    × (s.client_id ≡ client)

is_sent-In : (c : String) (xs : List String) → is_sent c xs ≡ true → In c xs
unfolding is_sent
is_sent-In c [] e = ground arith
is_sent-In c (x ∷ xs) e = elim (Bool-cases (str_eq x c)) [
  | inl same ↦ inl (ground (arith, eq_iff x c))
  | inr differ ↦ inr (is_sent-In c xs (ground arith))
]

In-is_sent : (c : String) (xs : List String) → In c xs → is_sent c xs ≡ true
unfolding is_sent
In-is_sent c [] i = elim i [ ]
In-is_sent c (x ∷ xs) (inl e) = ground (arith, eq_iff x c)
In-is_sent c (x ∷ xs) (inr i) = ground (arith, In-is_sent c xs i)

In-append_split : (c x : String) (xs : List String) → In c (xs ++ x ∷ []) → In c xs ⊎ (c ≡ x)
In-append_split c x [] i = elim i [ inl e ↦ inr e | inr j ↦ elim j [ ] ]
In-append_split c x (y ∷ xs) (inl e) = inl (inl e)
In-append_split c x (y ∷ xs) (inr i) = elim (In-append_split c x xs i) [
  | inl j ↦ inl (inr j)
  | inr e ↦ inr e
]

append-Distinct :
    (x : String) (xs : List String) → Distinct xs → (In x xs → ⊥) → Distinct (xs ++ x ∷ [])
append-Distinct x [] o n = ((λ i. i), tt)
append-Distinct x (y ∷ xs) (fresh, o) n = (
  λ i. elim (In-append_split y x xs i) [ inl j ↦ fresh j | inr e ↦ n (inl (sym e)) ],
  append-Distinct x xs o (λ i. n (inr i)),
)

-- What one visit adds.
visit_found-Distinct :
    (type : String) (o : Option Subscription) (targets : List String)
    → Distinct targets
    → Distinct (visit_found type o targets)
unfolding visit_found
visit_found-Distinct type none targets h = h
visit_found-Distinct type (some s) targets h = elim (Bool-cases (is_sent s.client_id targets)) [
  | inl e ↦ ground (arith, h)
  | inr e ↦ ground (
    arith,
    h,
    append-Distinct s.client_id targets h (λ i. ground (arith, In-is_sent s.client_id targets i)),
  )
]

targets_in-Distinct :
    (subs : Map Subscription) (type : String) (order targets : List String)
    → Distinct targets
    → Distinct (targets_in subs type order targets)
unfolding targets_in visit
targets_in-Distinct subs type [] targets h = h
targets_in-Distinct subs type (id ∷ ids) targets h =
    targets_in-Distinct subs type ids _ (visit_found-Distinct type (subs id) targets h)

visit_found-keeps :
    (type : String) (o : Option Subscription) (targets : List String) (c : String)
    → In c targets
    → In c (visit_found type o targets)
unfolding visit_found
visit_found-keeps type none targets c i = i
visit_found-keeps type (some s) targets c i =
    ground (arith, In-append_left c targets (s.client_id ∷ []) i)

visit_found-adds :
    (type : String) (s : Subscription) (targets : List String)
    → s.types type ≡ true
    → In s.client_id (visit_found type (some s) targets)
unfolding visit_found
visit_found-adds type s targets e =
    ground (arith, is_sent-In s.client_id targets, In-append_last s.client_id targets)

visit_found_sound :
    (type : String) (s : Subscription) (targets : List String) (c : String)
    → In c (visit_found type (some s) targets)
    → In c targets ⊎ ((s.types type ≡ true) × (s.client_id ≡ c))
unfolding visit_found
visit_found_sound type s targets c i =
    elim (Bool-cases (s.types type && not (is_sent s.client_id targets))) [
      | inl e ↦
          elim (In-append_split c s.client_id targets
            (subst (λ b. In c (if b then targets ++ s.client_id ∷ [] else targets)) e i)) [
              | inl j ↦ inl j
              | inr same ↦ inr (ground arith, sym same)
            ]
      | inr e ↦ inl (subst (λ b. In c (if b then targets ++ s.client_id ∷ [] else targets)) e i)
    ]

targets_in-keeps :
    (subs : Map Subscription) (type : String) (order targets : List String) (c : String)
    → In c targets
    → In c (targets_in subs type order targets)
unfolding targets_in visit
targets_in-keeps subs type [] targets c i = i
targets_in-keeps subs type (id ∷ ids) targets c i =
    targets_in-keeps subs type ids _ c (visit_found-keeps type (subs id) targets c i)

targets_in-adds :
    (subs : Map Subscription) (type id : String) (s : Subscription) (order targets : List String)
    → In id order
    → subs id ≡ some s
    → s.types type ≡ true
    → In s.client_id (targets_in subs type order targets)
unfolding targets_in visit
targets_in-adds subs type id s [] targets i e t = elim i [ ]
targets_in-adds subs type id s (k ∷ ks) targets (inl same) e t =
    targets_in-keeps subs type ks _ s.client_id (
      subst (λ o. In s.client_id (visit_found type o targets)) (sym e ∙ ap subs same)
        (visit_found-adds type s targets t))
targets_in-adds subs type id s (k ∷ ks) targets (inr i) e t =
    targets_in-adds subs type id s ks _ i e t

visit_found-from :
    (type : String) (o : Option Subscription) (targets : List String) (c : String)
    → In c (visit_found type o targets)
    → In c targets ⊎ ((s : Subscription) × (o ≡ some s) × (s.types type ≡ true) × (s.client_id ≡ c))
unfolding visit_found
visit_found-from type none targets c i = inl i
visit_found-from type (some s) targets c i = elim (visit_found_sound type s targets c i) [
  | inl j ↦ inl j
  | inr (t, same) ↦ inr (s, refl, t, same)
]

targets_in-from :
    (subs : Map Subscription) (type : String) (order targets : List String) (c : String)
    → In c (targets_in subs type order targets)
    → In c targets ⊎ IsSubscriber subs type order c
unfolding targets_in visit
targets_in-from subs type [] targets c i = inl i
targets_in-from subs type (k ∷ ks) targets c i =
    elim (targets_in-from subs type ks (visit_found type (subs k) targets) c i) [
      | inl j ↦ elim (visit_found-from type (subs k) targets c j) [
        | inl h ↦ inl h
        | inr (s, e, t, same) ↦ inr (k, s, inl refl, e, t, same)
      ]
      | inr (id, s, h, e, t, same) ↦ inr (id, s, inr h, e, t, same)
    ]

-- The clients that distribute hands a notification to.
abbrev pub recipients : List (String × Notification) → List String
recipients sent = map (λ p. p.0) sent

recipients-addressed :
    (n : Notification) (xs : List String) → recipients (map (λ c. (c, n)) xs) ≡ xs
recipients-addressed n [] = refl
recipients-addressed n (x ∷ xs) = ap (λ ys. x ∷ ys) (recipients-addressed n xs)

-- An event whose notification can be marshalled goes to a client exactly when a subscription of the
-- client has its type, and goes to each client once, in whatever order the loop visits the subscriptions.
pub distribute-IsSubscriber :
    (order : List String) (type method text : String) (b : EventBroker)
    → Distinct (recipients (distribute order type method (some text) b))
      × ((c : String)
          → (In c (recipients (distribute order type method (some text) b))
              → IsSubscriber b.subscriptions type order c)
            × (IsSubscriber b.subscriptions type order c
                → In c (recipients (distribute order type method (some text) b))))
unfolding distribute
distribute-IsSubscriber order type method text b =
    rw
      (recipients-addressed (record { json_rpc = "2.0"; method = method; params = text })
        (targets_in b.subscriptions type order []))
      (
        targets_in-Distinct b.subscriptions type order [] tt,
        λ c. (
          λ i. elim (targets_in-from b.subscriptions type order [] c i) [
            | inl j ↦ elim j [ ]
            | inr h ↦ h
          ],
          λ (id, s, h, e, t, same).
              subst (λ d. In d (targets_in b.subscriptions type order [])) same
                (targets_in-adds b.subscriptions type id s order [] h e t),
        ),
      )

-- After any requests and the end of a client's connection, no event of any type goes to that client.
pub remove_client-distribute :
    (rs : List Request) (client : String) (order : List String) (type method text : String)
    → ¬ In client (
        recipients (
          distribute order type method
            (some text)
            (remove_client client (serve_all new_event_broker rs))))
remove_client-distribute rs client order type method text i =
    let b = remove_client client (serve_all new_event_broker rs) in
    let (id, s, h, e, t, same) =
      ((distribute-IsSubscriber order type method text b).1 client).0 i in
    remove_client-forgets rs client id s e same

-- A client that has subscribed to types gets every event of these types, until something else is asked of
-- the broker; unsubscribing with the id that it got succeeds.
pub subscribe-distribute :
    (client : String) (types : List String) (b : EventBroker) (order : List String)
    (type method text : String)
    → In (subscribe client types b).0 order
    → type_map types type ≡ true
    → In client (recipients (distribute order type method (some text) (subscribe client types b).1))
      × ((unsubscribe (subscribe client types b).0 (subscribe client types b).1).0 ≡ true)
unfolding subscribe unsubscribe unsubscribe_found
subscribe-distribute client types b order type method text i t =
    let id = (subscribe client types b).0 in
    let found =
      put_self b.subscriptions id
        (record { id = id; client_id = client; types = type_map types }) in
    (
      ((distribute-IsSubscriber order type method text (subscribe client types b).1).1 client).1
          (id, _, i, found, t, refl),
      ground (arith, found),
    )
