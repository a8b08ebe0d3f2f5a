-- ===== src/Server/Clients.antt =====
-- internal/ipc/server.go: IPCServer and the table of its clients. A connection is kept with its entry, as
-- no other part of the server writes to it; the callbacks change the state of the daemon.
use mole_port.Base.{
  Bool, List, Map, Option, String, [], delete, false, if◌then◌else◌, itoa, no_entries, none, put,
  some, true, ℕ, ◌+◌, ◌<>◌, ◌∷◌,
}
use mole_port.Core.Errors.{Error, Result, check_as, ok, other, wrap}
use mole_port.Broker.Events.{Notification}
use mole_port.Server.Messages.{notification}
use mole_port.Server.Reading.{Conn, Handling, send}
use mole_port.Core.Errors.{◌>>◌}

-- How the calls on the socket fail; `stale` tells whether the path of the socket exists.
pub record SocketCalls : Type 0 where
  pub stale : Bool
  pub remove : Option Error
  pub listen : Option Error
  pub chmod : Option Error
  pub close : Option Error

module _ (h : Handling) where
  -- OnClientConnected and OnClientDisconnected, `none` for nil
  pub record IpcServer : Type 0 where
    pub clients : Map Conn
    pub next_id : ℕ
    pub listening : Bool
    pub on_client_connected : Option (String → h.State → h.State)
    pub on_client_disconnected : Option (String → h.State → h.State)

  -- NewIPCServer
  unfoldable pub new_ipc_server : IpcServer
  new_ipc_server = record {
    clients = no_entries;
    next_id = 0;
    listening = false;
    on_client_connected = none;
    on_client_disconnected = none;
  }

  -- `if cb != nil { cb(id) }`
  abbrev pub call_back : Option (String → h.State → h.State) → String → h.State → h.State
  call_back none id s = s
  call_back (some f) id s = f id s

  -- Start, but for its goroutine: what acceptLoop does is `accept`
  unfoldable pub start_server : SocketCalls → IpcServer → Result IpcServer
  start_server calls srv =
      check_as "remove stale socket" (if calls.stale then calls.remove else none)
      >> check_as "listen unix" calls.listen
      >> check_as "chmod socket" calls.chmod
      >> ok (record srv { listening = true })

  -- fmt.Sprintf("client-%d", n)
  unfoldable pub client_id : ℕ → String
  unfolding itoa
  client_id n = "client-" <> itoa n

  -- A turn of acceptLoop that has a connection, which takes `room` writes
  unfoldable pub accept : ℕ → IpcServer → h.State → IpcServer × h.State
  unfolding client_id
  accept room srv s =
      let id = client_id (srv.next_id + 1) in
      (
        record srv {
          clients = put srv.clients id (record { sent = []; room = room });
          next_id = srv.next_id + 1;
        },
        call_back srv.on_client_connected id s,
      )

  -- The deferred function of readLoop
  unfoldable pub disconnect_client : String → IpcServer → h.State → IpcServer × h.State
  disconnect_client id srv s =
      (record srv { clients = delete srv.clients id }, call_back srv.on_client_disconnected id s)

  -- Stop; the loops of the clients end with their connections.
  unfoldable pub stop_server : SocketCalls → IpcServer → Option Error × IpcServer
  stop_server calls srv = (
    if srv.listening then calls.close else none,
    record srv { clients = no_entries; listening = false },
  )

  -- What SendNotification finds in the table
  unfoldable pub notify_found :
      String → Notification → Option Conn → IpcServer → Option Error × IpcServer
  unfolding send
  notify_found id n none srv = (some (other ("client " <> id <> " not found")), srv)
  notify_found id n (some c) srv =
      let (sent, c') = send (notification n) c in
      (
        if sent then none else some (wrap "send" (other "write")),
        record srv { clients = put srv.clients id c' },
      )

  -- SendNotification
  unfoldable pub send_notification : String → Notification → IpcServer → Option Error × IpcServer
  unfolding notify_found
  send_notification id n srv = notify_found id n (srv.clients id) srv

  -- BroadcastNotification, for the clients in the order of its loop
  unfoldable pub broadcast_notification : List String → Notification → IpcServer → IpcServer
  unfolding send_notification
  broadcast_notification [] n srv = srv
  broadcast_notification (id ∷ ids) n srv =
      broadcast_notification ids n (send_notification id n srv).1
