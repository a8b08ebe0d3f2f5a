-- ===== src/Forward/Outcomes/Starting.antt =====
-- internal/core/forward/lifecycle.go: StartForward as its callers see it.
use mole_port.Base.{String, arith, eq_refl, ℕ, ◌≡◌}
use mole_port.Core.Models.{ForwardRule}
use mole_port.Core.Errors.{ok}
use mole_port.Core.SshPort.{SshPort}
use mole_port.Forward.State.{Manager}
use mole_port.Forward.Sessions.{get_session}
use mole_port.Forward.Lifecycle.{start_commit, started}

pub get_session-start_commit :
    (name : String) (rule : ForwardRule) (now : ℕ) (m : Manager)
    → get_session name (start_commit name rule now m) ≡ ok (started name rule now).session
unfolding get_session start_commit
get_session-start_commit name rule now m = ground (arith, eq_refl name)
