-- ===== src/Handlers/Hosts.antt =====
-- internal/ipc/handler/handler_host.go: the hosts as the client sees them.
use mole_port.Base.{
  Bool, List, String, [], false, if◌then◌else◌, length, map, not, str_eq, ℕ, ◌||◌, ◌∷◌,
}
use mole_port.Core.Errors.{Result, err, ok}
use mole_port.Core.Models.{SshHost}
use mole_port.Protocol.Codes.{internal_error, to_rpc_error}
use mole_port.Protocol.Infos.{HostInfo, to_host_info}
use mole_port.Config.Validation.{Checked, accepted, refused}
use mole_port.Ssh.State.{SshManager}
use mole_port.Ssh.Hosts.{load_hosts, reload_hosts}

-- HostReloadResult
pub record HostReloadResult : Type 0 where
  pub total : ℕ
  pub added : List String
  pub removed : List String

-- The set of the names that the loops fill
unfoldable pub name_set : List SshHost → String → Bool
name_set [] name = false
name_set (h ∷ hs) name = str_eq h.name name || name_set hs name

-- The loops that collect the names which the set does not have
unfoldable pub missing_names : (String → Bool) → List SshHost → List String
missing_names known [] = []
missing_names known (h ∷ hs) =
    let rest = missing_names known hs in if not (known h.name) then h.name ∷ rest else rest

-- The result of hostReload
unfoldable pub reload_result : List SshHost → List SshHost → HostReloadResult
unfolding name_set missing_names
reload_result before after = record {
  total = length after;
  added = missing_names (name_set before) after;
  removed = missing_names (name_set after) before;
}

module _ (quote : String → String) where
  -- What LoadHosts returns
  unfoldable pub listed : Result (List SshHost) × SshManager → Checked (List HostInfo) × SshManager
  unfolding to_rpc_error to_host_info
  listed (err e, m) = (refused (to_rpc_error quote e internal_error), m)
  listed (ok hosts, m) = (accepted (map to_host_info hosts), m)

  -- hostList, for what the parser of the SSH configuration returns
  unfoldable pub host_list :
      Result (List SshHost) → SshManager → Checked (List HostInfo) × SshManager
  unfolding listed load_hosts
  host_list parsed m = listed (load_hosts parsed m)

  -- What ReloadHosts returns
  unfoldable pub reload_answer :
      List SshHost → Result (List SshHost) × SshManager → Checked HostReloadResult × SshManager
  unfolding to_rpc_error reload_result
  reload_answer before (err e, m) = (refused (to_rpc_error quote e internal_error), m)
  reload_answer before (ok after, m) = (accepted (reload_result before after), m)

  -- hostReload
  unfoldable pub host_reload :
      Result (List SshHost) → SshManager → Checked HostReloadResult × SshManager
  unfolding reload_answer reload_hosts
  host_reload parsed m = reload_answer m.hosts (reload_hosts parsed m)
