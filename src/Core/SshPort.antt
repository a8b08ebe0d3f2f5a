-- ===== src/Core/SshPort.antt =====
-- internal/core/ssh.go: what the forward manager uses of the interface `SSHManager` and of a
-- connection. The state of the implementation is passed from call to call.
use mole_port.Base.{Bool, Option, String, ℤ}
use mole_port.Core.Errors.{Error}

-- The calls of an `SSHConnection` that open a listener.
pub data ListenCall : Type 0 where
  local_forward : ℤ → String → ListenCall
  remote_forward : ℤ → String → String → ListenCall
  dynamic_forward : ℤ → ListenCall

-- `none` is the nil error.
pub record SshPort : Type 1 where
  pub State : Type 0
  pub is_connected : State → String → Bool
  pub connect_with_callback : State → String → Option Error × State
  pub get_ssh_connection : State → String → Option Error
  pub get_connection : State → String → Option Error
  pub listen : State → String → ListenCall → Option Error
