-- ===== src/Server/Reading.antt =====
-- internal/ipc/server.go: readLoop. The decoder of JSON and the handler are parameters; the handler has
-- a state of its own, that of the daemon.
use mole_port.Base.{
  Bool, List, Option, String, [], false, if◌then◌else◌, none, not, some, str_eq, suc, true, zero, ℕ,
  ℤ, ◌++◌, ◌<>◌, ◌∷◌,
}
use mole_port.Core.Errors.{Error, Result, err, ok}
use mole_port.Protocol.Codes.{RpcError, internal_error, invalid_request, parse_error}
use mole_port.Server.Messages.{
  Message, RpcRequest, RpcResponse, json_rpc_version, new_error_response, new_response, response,
}

-- HandlerFunc, the results marshalled: the handler's error, or its result as NewResponse gets it.
pub data Answer : Type 0 where
  refused : RpcError → Answer
  answered : Result String → Answer

pub record Handling : Type 1 where
  pub State : Type 0
  pub handle : State → String → String → String → Answer × State
  pub decode : String → Option RpcRequest
  pub print_error : Error → String

-- A connection: what has been written to it, and how many more writes it takes before one fails.
pub record Conn : Type 0 where
  pub sent : List Message
  pub room : ℕ

-- clientConn.send; true where it succeeds
unfoldable pub send_at : Message → ℕ → Conn → Bool × Conn
send_at m zero c = (false, c)
send_at m (suc n) c = (true, record { sent = c.sent ++ (m ∷ []); room = n })

unfoldable pub send : Message → Conn → Bool × Conn
unfolding send_at
send m c = send_at m c.room c

-- A line that the scanner gives, and whether the server's context is done by then
pub record Scanned : Type 0 where
  pub line : String
  pub done : Bool

module _ (h : Handling) where
  -- The connection and the daemon, and whether the loop goes on.
  pub record Loop : Type 0 where
    pub goes_on : Bool
    pub conn : Conn
    pub state : h.State

  -- `if err := c.send(resp); err != nil { return }`
  unfoldable pub reply : RpcResponse → Conn → h.State → Loop
  unfolding send
  reply resp conn s =
      let (sent, conn') = send (response resp) conn in
      record { goes_on = sent; conn = conn'; state = s }

  -- The response to a handled request
  unfoldable pub response_of : Option ℤ → Answer → RpcResponse
  unfolding new_error_response new_response
  response_of id (refused e) = new_error_response id e.code e.message
  response_of id (answered r) = elim (new_response id r) [
    | err e ↦ new_error_response id internal_error ("marshal result: " <> h.print_error e)
    | ok resp ↦ resp
  ]

  -- A request of the right version: one without an ID is a notification, and gets no response.
  unfoldable pub serve : Option ℤ → Answer × h.State → Conn → Loop
  unfolding reply response_of
  serve none (answer, s) conn = record { goes_on = true; conn = conn; state = s }
  serve (some id) (answer, s) conn = reply (response_of (some id) answer) conn s

  -- A request of another version
  unfoldable pub refuse_version : Option ℤ → Conn → h.State → Loop
  unfolding reply
  refuse_version none conn s = record { goes_on = true; conn = conn; state = s }
  refuse_version (some id) conn s =
      reply (new_error_response (some id) invalid_request "invalid jsonrpc version") conn s

  -- What json.Unmarshal has given
  unfoldable pub serve_decoded : String → Option RpcRequest → Conn → h.State → Loop
  unfolding serve refuse_version
  serve_decoded client none conn s =
      reply (new_error_response none parse_error "parse error") conn s
  serve_decoded client (some req) conn s =
      if not (str_eq req.json_rpc json_rpc_version)
      then refuse_version req.id conn s
      else serve req.id (h.handle s client req.method req.params) conn

  -- The body of the loop
  unfoldable pub serve_line : String → Scanned → Conn → h.State → Loop
  unfolding serve_decoded
  serve_line client l conn s =
      if l.done
      then record { goes_on = false; conn = conn; state = s }
      else if str_eq l.line ""
      then record { goes_on = true; conn = conn; state = s }
      else serve_decoded client (h.decode l.line) conn s

  -- The loop over the lines that arrive before the end of the connection
  unfoldable pub read_loop : String → List Scanned → Conn → h.State → Conn × h.State
  unfolding serve_line
  read_loop client [] conn s = (conn, s)
  read_loop client (l ∷ lines) conn s =
      let now = serve_line client l conn s in
      let later = read_loop client lines now.conn now.state in
      if now.goes_on then later else (now.conn, now.state)
