-- ===== src/Server/Table.antt =====
-- internal/ipc/server.go: the names of the clients, and whom a broadcast reaches.
use mole_port.Base.{
  Distinct, In, List, Option, String, [], ap, inl, inr, none, put_ne, put_self, refl, some, subst,
  sym, ℕ, ◌<◌, ◌∙◌, ◌∷◌, ◌≡◌, ◌≢◌,
}
use mole_port.Broker.Events.{Notification}
use mole_port.Server.Reading.{Conn, Handling, send}
use mole_port.Server.Clients.{
  IpcServer, SocketCalls, accept, broadcast_notification, client_id, disconnect_client,
  notify_found, send_notification, stop_server,
}
use mole_port.Server.Messages.{notification}

-- What happens to the table
pub data ServerEvent : Type 0 where
  accepts : ℕ → ServerEvent
  ends : String → ServerEvent
  stops_with : SocketCalls → ServerEvent
  notifies : String → Notification → ServerEvent
  broadcasts : List String → Notification → ServerEvent

module _ (h : Handling) where
  unfoldable pub step_server : ServerEvent → IpcServer h × h.State → IpcServer h × h.State
  unfolding accept disconnect_client stop_server send_notification broadcast_notification
  step_server (accepts room) (srv, s) = accept h room srv s
  step_server (ends id) (srv, s) = disconnect_client h id srv s
  step_server (stops_with calls) (srv, s) = ((stop_server h calls srv).1, s)
  step_server (notifies id n) (srv, s) = ((send_notification h id n srv).1, s)
  step_server (broadcasts ids n) (srv, s) = (broadcast_notification h ids n srv, s)

  abbrev pub run_server : List ServerEvent → IpcServer h × h.State → IpcServer h × h.State
  run_server [] x = x
  run_server (e ∷ es) x = run_server es (step_server e x)

  -- Names with a number that is not given yet are not in the table.
  unfoldable pub IsNumbered : IpcServer h → Type 0
  IsNumbered srv = (n : ℕ) → srv.next_id < n → srv.clients (client_id h n) ≡ none

module _ (h : Handling) where
  -- What a client has got: the notification, if its connection takes one more write.
  abbrev pub notified : Notification → Option Conn → Option Conn
  notified n none = none
  notified n (some c) = some (send (notification n) c).1

  notify_found-clients :
      (id : String) (n : Notification) (o : Option Conn) (srv : IpcServer h)
      → srv.clients id ≡ o
      → (notify_found h id n o srv).1.clients id ≡ notified n o
  unfolding notify_found
  notify_found-clients id n none srv e = e
  notify_found-clients id n (some c) srv e = put_self srv.clients id (send (notification n) c).1

  notify_found-others :
      (id j : String) (n : Notification) (o : Option Conn) (srv : IpcServer h)
      → id ≢ j
      → (notify_found h id n o srv).1.clients j ≡ srv.clients j
  unfolding notify_found
  notify_found-others id j n none srv ne = refl
  notify_found-others id j n (some c) srv ne =
      put_ne srv.clients id j (send (notification n) c).1 ne

  broadcast-others :
      (ids : List String) (j : String) (n : Notification) (srv : IpcServer h)
      → (In j ids → ⊥)
      → (broadcast_notification h ids n srv).clients j ≡ srv.clients j
  unfolding broadcast_notification send_notification
  broadcast-others [] j n srv out = refl
  broadcast-others (id ∷ ids) j n srv out =
      broadcast-others ids j n (send_notification h id n srv).1 (λ i. out (inr i))
      ∙ notify_found-others id j n (srv.clients id) srv (λ e. out (inl (sym e)))

  -- A broadcast gives the notification once to each client that its loop visits and whose connection takes one more
  -- write, when it visits no client twice; the writes that fail for others do not stop it.
  pub broadcast_notification-reaches :
      (ids : List String) (j : String) (n : Notification) (srv : IpcServer h)
      → Distinct ids
      → In j ids
      → (broadcast_notification h ids n srv).clients j ≡ notified n (srv.clients j)
  unfolding broadcast_notification send_notification
  broadcast_notification-reaches [] j n srv d i = elim i [ ]
  broadcast_notification-reaches (id ∷ ids) j n srv (fresh, d) (inl e) =
      broadcast-others ids j n (send_notification h id n srv).1
        (λ i. fresh (subst (λ k. In k ids) e i))
      ∙ subst
          (λ k. (notify_found h id n (srv.clients id) srv).1.clients k ≡ notified n (srv.clients k))
          (sym e) (notify_found-clients id n (srv.clients id) srv refl)
  broadcast_notification-reaches (id ∷ ids) j n srv (fresh, d) (inr i) =
      broadcast_notification-reaches ids j n (send_notification h id n srv).1 d i
      ∙ ap (notified n) (
          notify_found-others id j n (srv.clients id) srv
            (λ e. fresh (subst (λ k. In k ids) (sym e) i)))
