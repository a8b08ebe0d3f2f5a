-- ===== src/Credentials/Waiting.antt =====
-- internal/ipc/server.go and internal/ipc/handler/handler_ssh.go: the read loops of the clients, any number of them
-- at once. A loop handles one line at a time: it reads the next only when the handler has returned.
use mole_port.Base.{Map, String, delete, no_entries, none, put, some, ◌≡◌}
use mole_port.Credentials.Pending.{
  CredTable, CredentialResponseParams, credential_response, forget, register,
}

-- Where a client's loop is: in `Scan`, in a handler, or in a handler that waits for a credential.
pub data Place : Type 0 where
  scanning busy : Place
  asking : String → Place

pub record World : Type 0 where
  pub loops : Map Place
  pub table : CredTable

abbrev pub new_world : World
new_world = record {
  loops = no_entries;
  table = record { cred_pending = no_entries; cred_next_id = 0 };
}

abbrev pub move : String → Place → World → World
move c p w = record w { loops = put w.loops c p }

abbrev pub ask : String → World → World
unfolding register
ask c w = record {
  loops = put w.loops c (asking (register w.table).0);
  table = (register w.table).1;
}

-- The callback returns, with a response or without, and its handler goes on.
abbrev pub resume : String → String → World → World
unfolding forget
resume c id w = record { loops = put w.loops c busy; table = forget id w.table }

-- The callback fails to marshal its request or to send it, and its deferred function forgets the request.
abbrev pub ask_in_vain : String → World → World
unfolding register forget
ask_in_vain c w = record {
  loops = put w.loops c busy;
  table = forget (register w.table).0 (register w.table).1;
}

-- A step of the client's loop: acceptLoop begins it, a line is read, a handler asks for a credential or fails to,
-- goes on with a response or by its timer, and returns; a `credential.response` is handled like any line.
pub data Step (c : String) (w : World) : World → Type 0 where
  connects : w.loops c ≡ none → Step c w (move c scanning w)
  takes : w.loops c ≡ some scanning → Step c w (move c busy w)
  asks : w.loops c ≡ some busy → Step c w (ask c w)
  fails_to_ask : w.loops c ≡ some busy → Step c w (ask_in_vain c w)
  responds :
      (p : CredentialResponseParams)
      → w.loops c ≡ some scanning
      → Step c w (record w { table = (credential_response c p w.table).1 })
  receives :
      (id : String) (from : String) (p : CredentialResponseParams)
      → w.loops c ≡ some (asking id)
      → w.table.cred_pending id ≡ some (some (from, p))
      → Step c w (resume c id w)
  times_out : (id : String) → w.loops c ≡ some (asking id) → Step c w (resume c id w)
  returns : w.loops c ≡ some busy → Step c w (move c scanning w)
  ends : w.loops c ≡ some scanning → Step c w (record w { loops = delete w.loops c })

-- The worlds that the clients in `P` reach
pub data Reached (P : String → Type 0) : World → Type 0 where
  begins : Reached P new_world
  goes : (c : String) (v w : World) → P c → Reached P v → Step c v w → Reached P w
