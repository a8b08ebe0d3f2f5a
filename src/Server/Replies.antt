-- ===== src/Server/Replies.antt =====
-- internal/ipc/server.go: which responses readLoop writes.
use mole_port.Base.{
  Bool, Bool-cases, List, Option, String, [], ap, append-take_nil, append_assoc, append_nil,
  if◌then◌else◌, inl, inr, none, refl, some, str_eq, suc, sym, take, zero, ℕ, ℤ, ◌++◌, ◌∙◌, ◌∷◌,
  ◌≡◌,
}
use mole_port.Server.Messages.{
  Message, RpcRequest, RpcResponse, json_rpc_version, new_error_response, new_response,
  notification, response,
}
use mole_port.Server.Reading.{
  Answer, Conn, Handling, Loop, Scanned, answered, read_loop, refuse_version, refused, reply,
  response_of, send, send_at, serve, serve_decoded, serve_line,
}
use mole_port.Core.Errors.{err, ok}
use mole_port.Protocol.Codes.{invalid_request, parse_error}

-- The ID of a response; a notification has none.
abbrev pub response_ids : List Message → List (Option ℤ)
response_ids [] = []
response_ids (response r ∷ ms) = r.id ∷ response_ids ms
response_ids (notification n ∷ ms) = response_ids ms

-- JSON-RPC's rule: a request with an ID has one response, with that ID; a line that is no request has one without;
-- a notification and an empty line have none. No line counts once the context is done.
module _ (decode : String → Option RpcRequest) where
  abbrev pub owed_by : Option RpcRequest → List (Option ℤ) → List (Option ℤ)
  owed_by none later = none ∷ later
  owed_by (some req) later = elim req.id [ none ↦ later | some id ↦ some id ∷ later ]

  abbrev pub owed : List Scanned → List (Option ℤ)
  owed [] = []
  owed (l ∷ lines) =
      let later = owed lines in
      if l.done then [] else if str_eq l.line "" then later else owed_by (decode l.line) later

response_ids-append :
    (ms : List Message) (r : RpcResponse)
    → response_ids (ms ++ (response r ∷ [])) ≡ response_ids ms ++ (r.id ∷ [])
response_ids-append [] r = refl
response_ids-append (response q ∷ ms) r = ap (λ ids. q.id ∷ ids) (response_ids-append ms r)
response_ids-append (notification n ∷ ms) r = response_ids-append ms r

module _ (h : Handling) where
  -- The rest of a loop, and what it writes
  abbrev Later : Type 0
  Later = Conn → h.State → Conn × h.State

  abbrev go_on : Later → Loop h → Conn × h.State
  go_on later l = if l.goes_on then later l.conn l.state else (l.conn, l.state)

  abbrev Writes : Later → List (Option ℤ) → Type 0
  Writes later ids =
      (conn : Conn) (s : h.State)
      → response_ids (later conn s).0.sent ≡ response_ids conn.sent ++ take conn.room ids

  abbrev ReplyWrites : RpcResponse → Later → List (Option ℤ) → Conn → h.State → Bool × Conn → Type 0
  ReplyWrites r later ids conn s x =
      response_ids (go_on later (record { goes_on = x.0; conn = x.1; state = s })).0.sent
      ≡ response_ids conn.sent ++ take conn.room (r.id ∷ ids)

  send_at-Writes :
      (r : RpcResponse) (later : Later) (ids : List (Option ℤ)) (n : ℕ) (sent : List Message)
      (s : h.State)
      → Writes later ids
      → ReplyWrites r later ids
          (record { sent = sent; room = n })
          s
          (send_at (response r) n (record { sent = sent; room = n }))
  unfolding send_at
  send_at-Writes r later ids zero sent s w = sym (append_nil (response_ids sent))
  send_at-Writes r later ids (suc n) sent s w =
      w (record { sent = sent ++ (response r ∷ []); room = n }) s
      ∙ ap (λ l. l ++ take n ids) (response_ids-append sent r)
      ∙ append_assoc (response_ids sent) (r.id ∷ []) (take n ids)

  reply-Writes :
      (r : RpcResponse) (later : Later) (ids : List (Option ℤ)) (conn : Conn) (s : h.State)
      → Writes later ids
      → response_ids (go_on later (reply h r conn s)).0.sent
        ≡ response_ids conn.sent ++ take conn.room (r.id ∷ ids)
  unfolding reply send
  reply-Writes r later ids conn s w = send_at-Writes r later ids conn.room conn.sent s w

  response_of-id : (id : Option ℤ) (a : Answer) → (response_of h id a).id ≡ id
  unfolding response_of new_error_response new_response
  response_of-id id (refused e) = refl
  response_of-id id (answered (err e)) = refl
  response_of-id id (answered (ok r)) = refl

  serve-Writes :
      (id : Option ℤ) (a : Answer) (later : Later) (ids : List (Option ℤ)) (conn : Conn)
      (s : h.State)
      → Writes later ids
      → response_ids (go_on later (serve h id (a, s) conn)).0.sent
        ≡ response_ids conn.sent ++ take conn.room (elim id [ none ↦ ids | some i ↦ some i ∷ ids ])
  unfolding serve
  serve-Writes none a later ids conn s w = w conn s
  serve-Writes (some i) a later ids conn s w =
      reply-Writes (response_of h (some i) a) later ids conn s w
      ∙ ap (λ j. response_ids conn.sent ++ take conn.room (j ∷ ids)) (response_of-id (some i) a)

  refuse_version-Writes :
      (id : Option ℤ) (later : Later) (ids : List (Option ℤ)) (conn : Conn) (s : h.State)
      → Writes later ids
      → response_ids (go_on later (refuse_version h id conn s)).0.sent
        ≡ response_ids conn.sent ++ take conn.room (elim id [ none ↦ ids | some i ↦ some i ∷ ids ])
  unfolding refuse_version new_error_response
  refuse_version-Writes none later ids conn s w = w conn s
  refuse_version-Writes (some i) later ids conn s w =
      reply-Writes (new_error_response (some i) invalid_request "invalid jsonrpc version") later ids
        conn s w

  serve_decoded-Writes :
      (client : String) (o : Option RpcRequest) (later : Later) (ids : List (Option ℤ))
      (conn : Conn) (s : h.State)
      → Writes later ids
      → response_ids (go_on later (serve_decoded h client o conn s)).0.sent
        ≡ response_ids conn.sent ++ take conn.room (owed_by h.decode o ids)
  unfolding serve_decoded new_error_response
  serve_decoded-Writes client none later ids conn s w =
      reply-Writes (new_error_response none parse_error "parse error") later ids conn s w
  serve_decoded-Writes client (some req) later ids conn s w =
      let (a, s') = h.handle s client req.method req.params in
      elim (Bool-cases (str_eq req.json_rpc json_rpc_version)) [
        | inl same ↦ rw (same) (serve-Writes req.id a later ids conn s' w)
        | inr differ ↦ rw (differ) (refuse_version-Writes req.id later ids conn s w)
      ]

  read_loop-Writes :
      (client : String) (lines : List Scanned)
      → Writes (read_loop h client lines) (owed h.decode lines)
  unfolding read_loop serve_line
  read_loop-Writes client [] conn s = append-take_nil (response_ids conn.sent) conn.room
  read_loop-Writes client (l ∷ lines) conn s =
      let w = read_loop-Writes client lines in
      elim (Bool-cases l.done) [
        | inl done ↦ rw (done) (append-take_nil (response_ids conn.sent) conn.room)
        | inr on ↦ elim (Bool-cases (str_eq l.line "")) [
          | inl empty ↦ rw (on, empty) (w conn s)
          | inr full ↦
              rw (on, full)
                (serve_decoded-Writes client (h.decode l.line) (read_loop h client lines)
                  (owed h.decode lines) conn s w)
        ]
      ]

-- Whatever a client sends, and however many writes its connection takes before one fails, the responses that
-- readLoop writes are those that JSON-RPC asks for, one for each request with an ID and with that ID, in
-- the order of the lines, up to the first write that fails. This holds for each handler.
pub read_loop-owed :
    (h : Handling) (client : String) (lines : List Scanned) (room : ℕ) (s : h.State)
    → response_ids (read_loop h client lines (record { sent = []; room = room }) s).0.sent
      ≡ take room (owed h.decode lines)
read_loop-owed h client lines room s =
    read_loop-Writes h client lines (record { sent = []; room = room }) s
