-- ===== src/Client/Lost.antt =====
-- internal/ipc/client/client.go: the calls that wait when the server ends the connection.
use mole_port.Base.{arith, false, none, refl, true, ℕ, ◌≡◌}
use mole_port.Client.Calls.{
  IpcClient, abandon_call, begin_call, begin_close, end_reading, fresh_channel,
}
use mole_port.Client.Running.{
  ClientStep, Follows, abandons, at_once, calls, closes, finishes, later, reading_ends, reads,
}
use mole_port.Client.Running.{hands}

-- The loop has ended by itself, before any Close, and a call waits.
unfoldable pub IsLost : ℕ → IpcClient → Type 0
IsLost n c =
    (c.connected ≡ false)
    × (c.closing ≡ false)
    × (c.done ≡ true)
    × (c.arriving ≡ none)
    × (c.channels n ≡ fresh_channel)

step-IsLost : (n : ℕ) (c d : IpcClient) → ClientStep c d → IsLost n c → IsLost n d
unfolding IsLost begin_call abandon_call begin_close end_reading
step-IsLost n c _ calls (off, open_, ended, free, waits) =
    rw (off) (refl, open_, ended, free, waits)
step-IsLost n c _ (abandons id) lost = lost
step-IsLost n c _ (reads l on free) (off, open_, ended, none_, waits) = ground (arith, on, ended)
step-IsLost n c _ (hands k resp e) (off, open_, ended, free, waits) = ground (arith, e, free)
step-IsLost n c _ (reading_ends free) (off, open_, ended, none_, waits) =
    (refl, open_, refl, none_, waits)
step-IsLost n c _ closes (off, open_, ended, free, waits) =
    rw (off) (refl, open_, ended, free, waits)
step-IsLost n c _ (finishes closing) (off, open_, ended, free, waits) =
    ground (arith, closing, open_)

Follows-IsLost : (n : ℕ) (c d : IpcClient) → IsLost n c → Follows c d → IsLost n d
Follows-IsLost n c _ lost at_once = lost
Follows-IsLost n c d lost (later e _ before step) =
    step-IsLost n e d step (Follows-IsLost n c e lost before)

-- When readLoop has ended by itself, as it does when the server goes away, a call that waits is answered by nothing
-- that follows: no response reaches its channel and no Close closes it, as Close returns at once. It
-- waits until its own context ends.
pub IsLost-forever :
    (n : ℕ) (c d : IpcClient) → IsLost n c → Follows c d → d.channels n ≡ fresh_channel
unfolding IsLost
IsLost-forever n c d lost follows =
    let (off, open_, ended, free, waits) = Follows-IsLost n c d lost follows in waits
