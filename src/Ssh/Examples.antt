-- ===== src/Ssh/Examples.antt =====
-- Runs of the SSH manager on two hosts.
use mole_port.Base.{
  List, Option, String, [], arith, eq_iff, false, no_entries, none, pos, refl, some, suc, true,
  zero, ℕ, ◌*◌, ◌∷◌, ◌≡◌, ◌≢◌, ◌≤◌,
}
use mole_port.Core.Enums.{disconnected}
use mole_port.Core.Models.{SshHost}
use mole_port.Core.Errors.{Error, ok, other}
use mole_port.Core.Settings.{ReconnectConfig, second}
use mole_port.Ssh.State.{SshManager, new_ssh_manager, publish, set_host_state}
use mole_port.Ssh.Hosts.{get_host, index_hosts, load_hosts, set_hosts}
use mole_port.Ssh.Lifecycle.{
  already_there, cancel_reconnect, connect, connect_dialed, connect_done, connect_reserve,
  connect_reserved, disconnect, is_connected, reserve_new,
}
use mole_port.Ssh.Backoff.{delay_before}
use mole_port.Ssh.Reconnect.{
  Schedule, attempts, commit_reconnect, crashed, keep_alive_ended, reconnect_loop, reconnected_at,
  register_reconnect_cancel, start_loop,
}
use mole_port.Ssh.View.{IsWell}
use mole_port.Ssh.Agreement.{connect-IsWell}
use mole_port.Ssh.Requests.{
  SshRequest, connecting_to, disconnecting, dropping, load_hosts-IsWell, serve_all,
  serve_all-IsWell,
}
use mole_port.Ssh.Bounds.{IsBelow, delay_before-bounds}
use mole_port.Ssh.Outcomes.{IsOutcome, first_success, reconnect_loop-IsOutcome}
use mole_port.Ssh.Reloading.{reload_twice, reload_twice-forgets}
use mole_port.Ssh.Races.{
  attempts-undoes_disconnect, commit_reconnect-leaks, keep_alive_ended-crashed,
  reserved_behind_leak,
}
use mole_port.Base.{◌<>◌}

abbrev host : String → SshHost
host name = record {
  name = name;
  host_name = "10.0.0.1";
  port = pos 22;
  user = "deploy";
  identity_files = [];
  proxy_jump = [];
  proxy_command = "";
  strict_host_key_checking = "";
  state = disconnected;
  active_forward_count = 0;
}

abbrev two_hosts : List SshHost
two_hosts = host "web" ∷ host "db" ∷ []

abbrev settings : ReconnectConfig
settings = record {
  enabled = true;
  max_retries = pos 3;
  initial_delay = pos second;
  max_delay = pos (60 * second);
  keep_alive_interval = pos (30 * second);
}

abbrev quoted : String → String
quoted s = "\"" <> s <> "\""

abbrev refused : Error
refused = other "connection refused"

-- The second dial succeeds.
abbrev second_dial : ℕ → Option Error
second_dial zero = some refused
second_dial (suc n) = none

abbrev nothing_happens : ℕ → SshManager → SshManager
nothing_happens n m = m

abbrev fixed_random : ℕ → ℕ → Option ℕ
fixed_random i zero = none
fixed_random i (suc n) = some n

abbrev idle : Schedule
idle = record {
  waiting = nothing_happens;
  dialing = nothing_happens;
  timer_wins = λ n. false;
  dial = second_dial;
  random = fixed_random;
}

abbrev loaded : SshManager
loaded = (load_hosts (ok two_hosts) (new_ssh_manager settings no_entries)).1

abbrev requests : List SshRequest
requests =
    connecting_to "web" false none
    ∷ connecting_to "db" false (some refused)
    ∷ dropping "web" idle
    ∷ disconnecting "web"
    ∷ []

serve_all-IsWell_example : IsWell (serve_all quoted loaded requests)
serve_all-IsWell_example =
    serve_all-IsWell quoted requests loaded (tt, (tt, ((λ n m d. (d, d)), (tt, tt))))
      (load_hosts-IsWell settings no_entries two_hosts (refl, (refl, tt)))

fixed_random-IsBelow : (i : ℕ) → IsBelow (fixed_random i)
fixed_random-IsBelow i zero k e = ground arith
fixed_random-IsBelow i (suc n) k e = ground arith

delay_before-bounds_example :
    (delay_before fixed_random (pos second) (pos (60 * second)) 0 ≡ pos second)
    × ((d : ℕ) × (delay_before fixed_random (pos second) (pos (60 * second)) 8 ≡ pos d)
        × (60 * second ≤ d)
        × (1 ≤ 8 → d ≤ 66 * second))
delay_before-bounds_example =
    delay_before-bounds fixed_random second (60 * second) 8 fixed_random-IsBelow

reconnect_loop-IsOutcome_example :
    IsOutcome "web" (reconnected_at 1) (reconnect_loop idle "web" settings loaded)
unfolding first_success load_hosts set_hosts new_ssh_manager is_connected
reconnect_loop-IsOutcome_example =
    reconnect_loop-IsOutcome idle "web" settings loaded (λ n m. (refl, refl)) refl refl

-- The host is disconnected while the loop dials.
abbrev interfered : Schedule
interfered = record idle { dialing = λ n m. disconnect "web" m; dial = λ n. none }

abbrev in_loop : SshManager
in_loop = start_loop "web" loaded

attempts-undoes_disconnect_example :
    ((disconnect "web" in_loop).loop_cancelled 0 ≡ true)
    × (is_connected "web" (attempts interfered "web" settings 0 1 0 (pos second) in_loop).1 ≡ true)
unfolding start_loop register_reconnect_cancel cancel_reconnect publish set_host_state load_hosts
    set_hosts new_ssh_manager index_hosts
attempts-undoes_disconnect_example =
    attempts-undoes_disconnect interfered "web" settings 0 0 0 (pos second) in_loop refl refl refl
      refl refl refl

abbrev connected_web : SshManager
connected_web = (connect quoted "web" false none loaded).1

commit_reconnect-leaks_example :
    ((commit_reconnect "web" connected_web).conn_at 1 ≡ connected_web.conn_at 1)
    × ((a : String) → (commit_reconnect "web" connected_web).conns a ≢ some 1)
unfolding connect connect_reserve reserve_new connect_reserved connect_dialed connect_done publish
    set_host_state load_hosts set_hosts new_ssh_manager index_hosts
commit_reconnect-leaks_example =
    commit_reconnect-leaks "web" 1 connected_web
      (connect-IsWell quoted "web" false none loaded
        (load_hosts-IsWell settings no_entries two_hosts (refl, (refl, tt))))
      refl

keep_alive_ended-crashed_example :
    (keep_alive_ended idle "web" 1 (reserved_behind_leak "web" connected_web)).0 ≡ crashed
unfolding connect connect_reserve reserve_new connect_reserved connect_dialed connect_done publish
    set_host_state load_hosts set_hosts new_ssh_manager index_hosts
keep_alive_ended-crashed_example =
    keep_alive_ended-crashed idle "web" 1 0 connected_web
      (connect-IsWell quoted "web" false none loaded
        (load_hosts-IsWell settings no_entries two_hosts (refl, (refl, tt))))
      refl refl refl

db_apart : (host "db").name ≢ "web"
db_apart e = ground (arith, eq_iff "db" "web", e)

-- The host `web` leaves the configuration and returns before another.
reload_twice-forgets_example :
    let m' = reload_twice (host "db" ∷ []) (host "web" ∷ host "db" ∷ []) connected_web in
    (get_host "web" m' ≡ ok (host "web")) × (connect_reserve "web" m' ≡ (already_there, m'))
unfolding connect connect_reserve reserve_new connect_reserved connect_dialed connect_done publish
    set_host_state load_hosts set_hosts new_ssh_manager index_hosts is_connected
reload_twice-forgets_example =
    reload_twice-forgets (host "db" ∷ []) [] (host "db" ∷ []) (host "web") connected_web
      (db_apart, tt) (db_apart, tt) refl
