-- ===== src/Socks5/Examples.antt =====
-- Handshakes of SOCKS5 clients.
use mole_port.Base.{List, String, [], arith, itoa, none, refl, ℕ, ◌++◌, ◌<>◌, ◌∷◌, ◌≡◌, ◌≢◌}
use mole_port.Core.Errors.{err, ok, other}
use mole_port.Socks5.Conn.{Conn}
use mole_port.Socks5.Handshake.{join_host_port, negotiate, parse_request, reply}
use mole_port.Socks5.Reading.{domain, encode_request, parse_request-encode_request}
use mole_port.Socks5.Replies.{negotiate-greeting, parse_request-refused}

abbrev fresh : Conn
fresh = record { input = []; sent = []; write_error = none }

abbrev dotted : List ℕ → String
dotted bytes = "10.0.0.1"

abbrev plain : List ℕ → String
plain bytes = "db.internal"

parse_request-encode_request_example :
    parse_request dotted plain
      (record fresh { input = encode_request (domain (100 ∷ 98 ∷ [])) 5432 ++ 1 ∷ [] })
    ≡ (ok (join_host_port "db.internal" (itoa 5432)), record fresh { input = 1 ∷ [] })
parse_request-encode_request_example =
    parse_request-encode_request dotted plain (domain (100 ∷ 98 ∷ [])) 5432 (1 ∷ []) fresh
      (omega arith) (omega arith)

-- GSSAPI and no authentication are offered.
negotiate-greeting_example :
    negotiate (record fresh { input = 5 ∷ 2 ∷ 1 ∷ 0 ∷ 5 ∷ [] })
    ≡ (ok tt, record { input = 5 ∷ []; sent = 5 ∷ 0 ∷ []; write_error = none })
negotiate-greeting_example = negotiate-greeting (1 ∷ 0 ∷ []) (5 ∷ []) fresh refl

abbrev bind_command : ℕ
bind_command = 2

abbrev unknown_kind : ℕ
unknown_kind = 9

parse_request-refused_example :
    (bind_command ≢ 1
      → parse_request dotted plain (record fresh { input = 5 ∷ 2 ∷ 0 ∷ 9 ∷ [] })
        ≡ (err (other ("unsupported SOCKS5 command: " <> itoa 2)), record fresh { sent = reply 7 }))
    × (unknown_kind ≢ 1
        → unknown_kind ≢ 3
        → unknown_kind ≢ 4
        → parse_request dotted plain (record fresh { input = 5 ∷ 1 ∷ 0 ∷ 9 ∷ [] })
          ≡ (err (other ("unsupported address type: " <> itoa 9)), record fresh { sent = reply 8 }))
parse_request-refused_example = parse_request-refused dotted plain 2 9 [] fresh refl
