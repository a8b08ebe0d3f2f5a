-- ===== src/Handlers/Subscriptions.antt =====
-- internal/ipc/handler/handler_events.go: the subscriptions of a client.
use mole_port.Base.{
  Bool, List, String, [], false, if◌then◌else◌, not, str_eq, true, ◌<>◌, ◌||◌, ◌∷◌,
}
use mole_port.Config.Validation.{Checked, accepted, refused}
use mole_port.Broker.State.{EventBroker, subscribe, unsubscribe}
use mole_port.Handlers.Params.{Raw, and_then, invalid, parse_params, validate_required}

-- validEventTypes
unfoldable pub valid_event_type : String → Bool
valid_event_type t = str_eq t "ssh" || str_eq t "forward" || str_eq t "metrics"

-- The loop over the types
unfoldable pub check_types : List String → Checked (Unit {0})
unfolding valid_event_type
check_types [] = accepted tt
check_types (t ∷ ts) =
    let rest = check_types ts in
    if not (valid_event_type t) then invalid ("invalid event type: " <> t) else rest

-- The checks of eventsSubscribe behind the decoding
unfoldable pub check_given : List String → Checked (List String)
unfolding check_types
check_given [] = invalid "types is required"
check_given (t ∷ ts) = and_then (check_types (t ∷ ts)) (λ given. accepted (t ∷ ts))

unfoldable pub subscribe_checked :
    String → Checked (List String) → EventBroker → Checked String × EventBroker
unfolding subscribe
subscribe_checked client (refused e) b = (refused e, b)
subscribe_checked client (accepted types) b =
    let (id, b') = subscribe client types b in (accepted id, b')

-- eventsSubscribe
unfoldable pub events_subscribe :
    String → Raw (List String) → EventBroker → Checked String × EventBroker
unfolding parse_params check_given subscribe_checked
events_subscribe client raw b = subscribe_checked client (and_then (parse_params raw) check_given) b

abbrev pub unsubscribed : Bool × EventBroker → Checked (Unit {0}) × EventBroker
unsubscribed (true, b) = (accepted tt, b)
unsubscribed (false, b) = (invalid "subscription not found", b)

unfoldable pub unsubscribe_checked : Checked String → EventBroker → Checked (Unit {0}) × EventBroker
unfolding unsubscribe
unsubscribe_checked (refused e) b = (refused e, b)
unsubscribe_checked (accepted id) b = unsubscribed (unsubscribe id b)

-- eventsUnsubscribe
unfoldable pub events_unsubscribe : Raw String → EventBroker → Checked (Unit {0}) × EventBroker
unfolding parse_params validate_required unsubscribe_checked
events_unsubscribe raw b =
    unsubscribe_checked
      (and_then (parse_params raw)
        (λ id. and_then (validate_required (("subscription_id", id) ∷ [])) (λ given. accepted id)))
      b
