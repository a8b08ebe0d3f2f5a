-- ===== src/Handlers/Dispatch.antt =====
-- internal/ipc/handler/handler.go: Handle, which finds the handler of a method.
use mole_port.Base.{List, Option, String, [], if◌then◌else◌, none, some, str_eq, ◌<>◌, ◌∷◌}
use mole_port.Protocol.Codes.{method_not_found}
use mole_port.Config.Validation.{Checked, refused}

-- The methods, by the functions that serve them
pub data Method : Type 0 where
  host_list_m host_reload_m ssh_connect_m ssh_disconnect_m credential_response_m : Method
  forward_list_m forward_add_m forward_delete_m forward_start_m : Method
  forward_stop_m forward_stop_all_m session_list_m session_get_m : Method
  config_get_m config_update_m version_check_m daemon_status_m : Method
  daemon_shutdown_m events_subscribe_m events_unsubscribe_m : Method

-- The cases of the switch
unfoldable pub method_table : List (String × Method)
method_table =
    ("host.list", host_list_m)
    ∷ ("host.reload", host_reload_m)
    ∷ ("ssh.connect", ssh_connect_m)
    ∷ ("ssh.disconnect", ssh_disconnect_m)
    ∷ ("credential.response", credential_response_m)
    ∷ ("forward.list", forward_list_m)
    ∷ ("forward.add", forward_add_m)
    ∷ ("forward.delete", forward_delete_m)
    ∷ ("forward.start", forward_start_m)
    ∷ ("forward.stop", forward_stop_m)
    ∷ ("forward.stopAll", forward_stop_all_m)
    ∷ ("session.list", session_list_m)
    ∷ ("session.get", session_get_m)
    ∷ ("config.get", config_get_m)
    ∷ ("config.update", config_update_m)
    ∷ ("version.check", version_check_m)
    ∷ ("daemon.status", daemon_status_m)
    ∷ ("daemon.shutdown", daemon_shutdown_m)
    ∷ ("events.subscribe", events_subscribe_m)
    ∷ ("events.unsubscribe", events_unsubscribe_m)
    ∷ []

unfoldable pub find_method : String → List (String × Method) → Option Method
find_method name [] = none
find_method name ((n, method) ∷ table) =
    let rest = find_method name table in if str_eq name n then some method else rest

-- Handle, for a state `S` that holds the managers and the functions that serve the methods
unfoldable pub handle_method {ℓ κ} :
    {R : Type ℓ} {S : Type κ} → (Method → S → Checked R × S) → String → S → Checked R × S
unfolding find_method method_table
handle_method serve name s = elim (find_method name method_table) [
  | none ↦ (refused (record { code = method_not_found; message = "method not found: " <> name }), s)
  | some method ↦ serve method s
]
