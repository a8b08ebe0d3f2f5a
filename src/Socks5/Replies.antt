-- ===== src/Socks5/Replies.antt =====
-- internal/core/socks5/socks5.go: what the client is answered.
use mole_port.Base.{
  ==_iff, Bool, List, String, [], ap, arith, false, if◌then◌else◌, itoa, length, none, refl, ℕ,
  ◌++◌, ◌<>◌, ◌==◌, ◌||◌, ◌∙◌, ◌∷◌, ◌≡◌, ◌≢◌,
}
use mole_port.Core.Errors.{err, ok, other}
use mole_port.Socks5.Conn.{Conn, and_then, byte_at, pass, read_full, read_more, write, write_anyway}
use mole_port.Socks5.Handshake.{
  choose_method, negotiate, no_auth_supported, parse_request, read_address, read_command,
  read_methods, reply,
}
use mole_port.Socks5.Reading.{read_full-append}

-- A method is one of those that the client offers.
abbrev pub offers : ℕ → List ℕ → Bool
offers k [] = false
offers k (b ∷ bs) = k == b || offers k bs

no_auth_supported-offers : (methods : List ℕ) → no_auth_supported methods ≡ offers 0 methods
unfolding no_auth_supported
no_auth_supported-offers [] = refl
no_auth_supported-offers (b ∷ bs) =
    ground (arith, no_auth_supported-offers bs, ==_iff b 0, ==_iff 0 b)

choose_method-open :
    (methods : List ℕ) (c : Conn)
    → c.write_error ≡ none
    → choose_method methods c ≡ (
        if offers 0 methods
        then (ok tt, record c { sent = c.sent ++ 5 ∷ 0 ∷ [] })
        else (err (other "no acceptable auth methods"), record c { sent = c.sent ++ 5 ∷ 255 ∷ [] }))
unfolding choose_method write write_anyway and_then pass
choose_method-open methods c w = ground (arith, no_auth_supported-offers methods)

-- Where writes succeed, a greeting that offers a list of methods is read in full. If the method 0, which is
-- no authentication, is among them, 0 is answered and the negotiation succeeds; otherwise 255 is answered and it fails.
pub negotiate-greeting :
    (methods rest : List ℕ) (c : Conn)
    → c.write_error ≡ none
    → negotiate (record c { input = (5 ∷ length methods ∷ methods) ++ rest }) ≡ (
        if offers 0 methods
        then (ok tt, record c { input = rest; sent = c.sent ++ 5 ∷ 0 ∷ [] })
        else (
          err (other "no acceptable auth methods"),
          record c { input = rest; sent = c.sent ++ 5 ∷ 255 ∷ [] },
        ))
unfolding negotiate read_methods choose_method and_then pass byte_at
negotiate-greeting methods rest c w =
    ap (pass choose_method) (read_full-append (length methods) methods rest c refl)
    ∙ choose_method-open methods (record c { input = rest }) w

-- Where writes succeed, a request for another command is answered with code 7 and one for an unknown type
-- of address with code 8; both fail, and read no further than the four bytes of the header.
pub parse_request-refused :
    (ip_string text : List ℕ → String) (command kind : ℕ) (rest : List ℕ) (c : Conn)
    → c.write_error ≡ none
    → (command ≢ 1
        → parse_request ip_string text (record c { input = 5 ∷ command ∷ 0 ∷ kind ∷ rest }) ≡ (
          err (other ("unsupported SOCKS5 command: " <> itoa command)),
          record c { input = rest; sent = c.sent ++ reply 7 },
        ))
      × (kind ≢ 1
          → kind ≢ 3
          → kind ≢ 4
          → parse_request ip_string text (record c { input = 5 ∷ 1 ∷ 0 ∷ kind ∷ rest }) ≡ (
            err (other ("unsupported address type: " <> itoa kind)),
            record c { input = rest; sent = c.sent ++ reply 8 },
          ))
unfolding parse_request read_command read_address and_then pass byte_at read_full read_more
    write_anyway write
parse_request-refused ip_string text command kind rest c w =
    (λ n. ground arith, λ one three four. ground arith)
