-- ===== src/Handlers/Forwards.antt =====
-- internal/ipc/handler/handler_forward.go and handler_session.go: the handlers on top of the forward manager
-- and the configuration manager.
use mole_port.Base.{
  List, Option, String, [], if◌then◌else◌, ltb_ℤ, map, none, not, pos, some, str_eq, ℕ, ◌+◌, ◌<>◌,
  ◌∷◌,
}
use mole_port.Core.Errors.{Error, Result, err, ok}
use mole_port.Core.Enums.{active, parse_forward_type}
use mole_port.Core.Models.{ForwardRule, ForwardSession}
use mole_port.Core.Settings.{Config}
use mole_port.Core.SshPort.{SshPort}
use mole_port.Protocol.Codes.{internal_error, to_rpc_error}
use mole_port.Protocol.Infos.{ForwardInfo, SessionInfo, to_forward_info, to_session_info}
use mole_port.Forward.State.{Manager}
use mole_port.Forward.Rules.{add_rule, get_rules, get_rules_by_host}
use mole_port.Forward.Sessions.{get_all_sessions, get_session}
use mole_port.Forward.Lifecycle.{delete_rule, start_forward, stop_all_forwards, stop_forward}
use mole_port.Config.Memory.{Memory}
use mole_port.Config.Manager.{ConfigManager, YamlStore, update_config}
use mole_port.Config.Validation.{Checked, accepted, refused}
use mole_port.Handlers.Params.{
  ForwardAddParams, ForwardStatus, Raw, and_then, invalid, missing, parse_params, read, unreadable,
  validate_required,
}

-- forwardList: parameters that do not decode count as none.
unfoldable pub forward_list : Raw String → Manager → List ForwardInfo
unfolding get_rules get_rules_by_host to_forward_info
forward_list (read host) m =
    if str_eq host ""
    then map to_forward_info (get_rules m)
    else map to_forward_info (get_rules_by_host host m)
forward_list missing m = map to_forward_info (get_rules m)
forward_list (unreadable text) m = map to_forward_info (get_rules m)

-- sessionList
unfoldable pub session_list : (ℕ → String) → Manager → List SessionInfo
unfolding get_all_sessions to_session_info
session_list format m = map (to_session_info format) (get_all_sessions m)

-- The loop of forwardStopAll
unfoldable pub count_active : List ForwardSession → ℕ
count_active [] = 0
count_active (s ∷ ss) = let rest = count_active ss in elim s.status [ active ↦ rest + 1 | _ ↦ rest ]

-- forwardStopAll: `names` are the keys of the manager's map in the order of its loop
unfoldable pub forward_stop_all : List String → Manager → ℕ × Manager
unfolding get_all_sessions count_active stop_all_forwards
forward_stop_all names m = (count_active (get_all_sessions m), stop_all_forwards names m)

module _ (quote : String → String) where
  -- `return nil, protocol.ToRPCError(err, protocol.InternalError)`
  abbrev pub internal {ℓ} : {A : Type ℓ} → Error → Checked A
  unfolding to_rpc_error
  internal e = refused (to_rpc_error quote e internal_error)

  abbrev pub or_internal {ℓ} : {A : Type ℓ} → Result A → Checked A
  unfolding to_rpc_error
  or_internal (err e) = refused (to_rpc_error quote e internal_error)
  or_internal (ok a) = accepted a

  -- sessionGet
  unfoldable pub session_get : (ℕ → String) → Raw String → Manager → Checked SessionInfo
  unfolding parse_params validate_required get_session to_session_info to_rpc_error
  session_get format raw m = and_then (parse_params raw) (λ name.
      and_then (validate_required (("name", name) ∷ [])) (λ given.
        and_then (or_internal (get_session name m)) (λ s. accepted (to_session_info format s))))

  -- forwardStop behind its checks, which are those of `named`
  unfoldable pub stop_named : String → Manager → Checked ForwardStatus × Manager
  unfolding stop_forward
  stop_named name m = (accepted (record { name = name; status = "stopped" }), stop_forward name m)

  -- The checks that the methods with a name begin with
  unfoldable pub named : Raw String → Checked String
  unfolding parse_params validate_required
  named raw =
      and_then (parse_params raw)
        (λ name. and_then (validate_required (("name", name) ∷ [])) (λ given. accepted name))

  unfoldable pub stop_checked : Checked String → Manager → Checked ForwardStatus × Manager
  unfolding stop_named
  stop_checked (refused e) m = (refused e, m)
  stop_checked (accepted name) m = stop_named name m

  -- forwardStop
  unfoldable pub forward_stop : Raw String → Manager → Checked ForwardStatus × Manager
  unfolding named stop_checked
  forward_stop raw m = stop_checked (named raw) m

  -- forwardAdd up to the rule that it adds
  unfoldable pub checked_rule : ForwardAddParams → Checked ForwardRule
  unfolding validate_required parse_forward_type
  checked_rule p = and_then (validate_required (("host", p.host) ∷ ("type", p.type) ∷ [])) (λ given.
      if not (ltb_ℤ (pos 0) p.local_port)
      then invalid "local_port must be greater than 0"
      else elim (parse_forward_type p.type) [
        | none ↦ invalid ("unknown forward type: " <> quote p.type)
        | some type ↦ accepted (record {
          name = p.name;
          host = p.host;
          type = type;
          local_port = p.local_port;
          remote_host = p.remote_host;
          remote_port = p.remote_port;
          remote_bind_addr = p.remote_bind_addr;
          auto_connect = p.auto_connect;
        })
      ])

  module _ (store : YamlStore) where
    -- The two managers that the handlers of rules change
    pub record RuleState : Type 0 where
      pub forwards : Manager
      pub config : ConfigManager store

    -- The function that saveForwardRulesToConfig gives to UpdateConfig
    abbrev pub set_forwards : List ForwardRule → Config → Memory → Config × Memory
    set_forwards rules cfg mem = (record cfg { forwards = rules }, mem)

    -- saveForwardRulesToConfig, whose error goes to the log
    unfoldable pub save_forward_rules_to_config : RuleState → RuleState
    unfolding update_config get_rules
    save_forward_rules_to_config s = record s {
      config = (update_config store (set_forwards (get_rules s.forwards)) s.config).1;
    }

    -- Behind the call of AddRule
    unfoldable pub rule_added : Result String × Manager → RuleState → Checked String × RuleState
    unfolding save_forward_rules_to_config to_rpc_error
    rule_added (err e, m) s =
        (refused (to_rpc_error quote e internal_error), record s { forwards = m })
    rule_added (ok name, m) s =
        (accepted name, save_forward_rules_to_config (record s { forwards = m }))

    unfoldable pub add_checked : Checked ForwardRule → RuleState → Checked String × RuleState
    unfolding rule_added add_rule
    add_checked (refused e) s = (refused e, s)
    add_checked (accepted rule) s = rule_added (add_rule rule s.forwards) s

    -- forwardAdd
    unfoldable pub forward_add : Raw ForwardAddParams → RuleState → Checked String × RuleState
    unfolding parse_params checked_rule add_checked
    forward_add raw s = add_checked (and_then (parse_params raw) checked_rule) s

    -- Behind the call of DeleteRule
    unfoldable pub rule_deleted :
        Option Error × Manager → RuleState → Checked (Unit {0}) × RuleState
    unfolding save_forward_rules_to_config to_rpc_error
    rule_deleted (some e, m) s =
        (refused (to_rpc_error quote e internal_error), record s { forwards = m })
    rule_deleted (none, m) s =
        (accepted tt, save_forward_rules_to_config (record s { forwards = m }))

    unfoldable pub delete_checked : Checked String → RuleState → Checked (Unit {0}) × RuleState
    unfolding rule_deleted delete_rule
    delete_checked (refused e) s = (refused e, s)
    delete_checked (accepted name) s = rule_deleted (delete_rule name s.forwards) s

    -- forwardDelete
    unfoldable pub forward_delete : Raw String → RuleState → Checked (Unit {0}) × RuleState
    unfolding named delete_checked
    forward_delete raw s = delete_checked (named raw) s

  module _ (ssh : SshPort) where
    -- What StartForward returns
    unfoldable pub started_as :
        String → Option Error × ssh.State × Manager → Checked ForwardStatus × ssh.State × Manager
    unfolding to_rpc_error
    started_as name (some e, s, m) = (refused (to_rpc_error quote e internal_error), s, m)
    started_as name (none, s, m) = (accepted (record { name = name; status = "active" }), s, m)

    -- forwardStart behind its checks; the callback for credentials is part of the state of SSH.
    unfoldable pub start_found :
        String
        → ℕ
        → Result ForwardSession
        → ssh.State
        → Manager
        → Checked ForwardStatus × ssh.State × Manager
    unfolding started_as start_forward to_rpc_error
    start_found name now (err e) s m = (refused (to_rpc_error quote e internal_error), s, m)
    start_found name now (ok session) s m = started_as name (start_forward ssh name now s m)

    unfoldable pub start_checked :
        Checked String → ℕ → ssh.State → Manager → Checked ForwardStatus × ssh.State × Manager
    unfolding start_found get_session
    start_checked (refused e) now s m = (refused e, s, m)
    start_checked (accepted name) now s m = start_found name now (get_session name m) s m

    -- forwardStart
    unfoldable pub forward_start :
        Raw String → ℕ → ssh.State → Manager → Checked ForwardStatus × ssh.State × Manager
    unfolding named start_checked
    forward_start raw now s m = start_checked (named raw) now s m
