-- ===== src/Client/Running.antt =====
-- internal/ipc/client/client.go: the goroutines of a client, in any order: its callers, readLoop, and Close.
use mole_port.Base.{false, none, some, true, ℕ, ◌≡◌}
use mole_port.Server.Messages.{RpcResponse}
use mole_port.Client.Calls.{
  IpcClient, Line, abandon_call, begin_call, begin_close, end_reading, finish_close, hand_over,
  take_line,
}

pub data ClientStep (c : IpcClient) : IpcClient → Type 0 where
  calls : ClientStep c (begin_call c).1
  abandons : (id : ℕ) → ClientStep c (abandon_call id c)
  reads : (l : Line) → c.done ≡ false → c.arriving ≡ none → ClientStep c (take_line l c)
  hands :
      (n : ℕ) (resp : RpcResponse) → c.arriving ≡ some (n, resp) → ClientStep c (hand_over n resp c)
  reading_ends : c.arriving ≡ none → ClientStep c (end_reading c)
  closes : ClientStep c (begin_close c)
  finishes : c.closing ≡ true → ClientStep c (finish_close c)

-- What follows by steps
pub data Follows (c : IpcClient) : IpcClient → Type 0 where
  at_once : Follows c c
  later : (d e : IpcClient) → Follows c d → ClientStep d e → Follows c e
