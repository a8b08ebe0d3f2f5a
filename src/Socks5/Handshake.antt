-- ===== src/Socks5/Handshake.antt =====
-- internal/core/socks5/socks5.go: the negotiation and the request. The text of bytes and of an IP address
-- are parameters, as Go's conversion and net.IP.String are.
use mole_port.Base.{
  Bool, List, String, [], contains, false, if◌then◌else◌, itoa, not, take, ℕ, ◌*◌, ◌+◌, ◌<>◌, ◌==◌,
  ◌||◌, ◌∷◌,
}
use mole_port.Socks5.Conn.{Io, and_then, byte_at, fail, give, read_full, write, write_anyway}

-- The loop over `methods`: AuthNone is 0.
unfoldable pub no_auth_supported : List ℕ → Bool
no_auth_supported [] = false
no_auth_supported (b ∷ bs) = b == 0 || no_auth_supported bs

unfoldable pub choose_method : List ℕ → Io (Unit {0})
unfolding no_auth_supported write write_anyway and_then
choose_method methods =
    if no_auth_supported methods
    then write (5 ∷ 0 ∷ [])
    else and_then (write_anyway (5 ∷ 255 ∷ [])) (λ done. fail "no acceptable auth methods")

unfoldable pub read_methods : List ℕ → Io (Unit {0})
unfolding byte_at and_then read_full choose_method itoa
read_methods header =
    if byte_at 0 header == 5
    then and_then (read_full (byte_at 1 header)) choose_method
    else fail ("unsupported SOCKS version: " <> itoa (byte_at 0 header))

-- Negotiate
unfoldable pub negotiate : Io (Unit {0})
unfolding and_then read_full read_methods
negotiate = and_then (read_full 2) read_methods

-- net.JoinHostPort
unfoldable pub join_host_port : String → String → String
join_host_port host port =
    if contains host ":" then "[" <> host <> "]:" <> port else host <> ":" <> port

-- binary.BigEndian.Uint16(b[i : i+2])
unfoldable pub uint16_at : ℕ → List ℕ → ℕ
unfolding byte_at
uint16_at i bytes = 256 * byte_at i bytes + byte_at (i + 1) bytes

-- Replies carry the address 0.0.0.0:0.
abbrev pub reply : ℕ → List ℕ
reply code = 5 ∷ code ∷ 0 ∷ 1 ∷ 0 ∷ 0 ∷ 0 ∷ 0 ∷ 0 ∷ 0 ∷ []

module _ (ip_string text : List ℕ → String) where
  -- The address in the first n bytes of a buffer with a port behind it
  unfoldable pub host_and_port : (List ℕ → String) → ℕ → Io String
  unfolding and_then read_full join_host_port uint16_at itoa
  host_and_port show n =
      and_then (read_full (n + 2))
        (λ bytes. give (join_host_port (show (take n bytes)) (itoa (uint16_at n bytes))))

  -- The switch on the type of the address
  unfoldable pub read_address : List ℕ → Io String
  unfolding and_then read_full byte_at host_and_port write_anyway itoa
  read_address header =
      if byte_at 3 header == 1
      then host_and_port ip_string 4
      else if byte_at 3 header == 3
      then and_then (read_full 1) (λ buf. host_and_port text (byte_at 0 buf))
      else if byte_at 3 header == 4
      then host_and_port ip_string 16
      else and_then (write_anyway (reply 8))
          (λ done. fail ("unsupported address type: " <> itoa (byte_at 3 header)))

  unfoldable pub read_command : List ℕ → Io String
  unfolding and_then byte_at write_anyway read_address itoa
  read_command header =
      if not (byte_at 0 header == 5) || not (byte_at 1 header == 1)
      then and_then (write_anyway (reply 7))
          (λ done. fail ("unsupported SOCKS5 command: " <> itoa (byte_at 1 header)))
      else read_address header

  -- ParseRequest
  unfoldable pub parse_request : Io String
  unfolding and_then read_full read_command
  parse_request = and_then (read_full 4) read_command
