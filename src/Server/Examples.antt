-- ===== src/Server/Examples.antt =====
-- Runs of the model of internal/ipc/server.go.
use mole_port.Base.{
  In, List, Option, String, [], ap, arith, false, if◌then◌else◌, inl, inr, itoa, none, pos, some,
  str_eq, true, ℕ, ◌+◌, ◌∷◌, ◌≡◌,
}
use mole_port.Core.Errors.{ok}
use mole_port.Broker.Events.{Notification}
use mole_port.Server.Messages.{RpcRequest}
use mole_port.Server.Reading.{Handling, Scanned, answered, read_loop}
use mole_port.Server.Clients.{IpcServer, accept, client_id, new_ipc_server}
use mole_port.Server.Replies.{read_loop-owed, response_ids}
use mole_port.Server.Table.{accepts, run_server}

-- A decoder that knows two lines; the daemon counts its calls.
abbrev decode_two : String → Option RpcRequest
decode_two line =
    if str_eq line "list"
    then some (record { json_rpc = "2.0"; id = some (pos 7); method = "host.list"; params = "" })
    else if str_eq line "note"
    then some (record { json_rpc = "2.0"; id = none; method = "host.list"; params = "" })
    else none

abbrev daemon : Handling
daemon = record {
  State = ℕ;
  handle = λ n client method params. (answered (ok "[]"), n + 1);
  decode = decode_two;
  print_error = λ e. "error";
}

abbrev at_once : String → Scanned
at_once line = record { line = line; done = false }

abbrev three_lines : List Scanned
three_lines = at_once "list" ∷ at_once "note" ∷ at_once "{" ∷ at_once "list" ∷ []

-- The third write fails.
read_loop-owed_example :
    response_ids (read_loop daemon "client-1" three_lines (record { sent = []; room = 2 }) 0).0.sent
    ≡ some (pos 7) ∷ none ∷ []
read_loop-owed_example = read_loop-owed daemon "client-1" three_lines 2 0

abbrev hello : Notification
hello = record { json_rpc = "2.0"; method = "event.ssh"; params = "" }

abbrev two_clients : IpcServer daemon
unfolding accept new_ipc_server client_id itoa
two_clients = (run_server daemon (accepts 0 ∷ accepts 5 ∷ []) (new_ipc_server daemon, 0)).0

-- The first client's connection takes no write.
not_same : false ≡ true → ⊥
not_same e = ground arith

abbrev first_name : String
first_name = "client-1"

abbrev second_name : String
second_name = "client-2"

apart_names : In first_name (second_name ∷ []) → ⊥
apart_names (inl e) = elim (not_same (ap (λ s. str_eq s "client-2") e)) [ ]
apart_names (inr i) = i
