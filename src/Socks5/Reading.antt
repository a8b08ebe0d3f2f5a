-- ===== src/Socks5/Reading.antt =====
-- internal/core/socks5/socks5.go: the reading of requests that are sent in full.
use mole_port.Base.{
  List, String, [], ap, arith, get_elem?, itoa, length, length-append, refl, some, subst, suc, sym,
  take, ℕ, ◌%◌, ◌++◌, ◌+◌, ◌/◌, ◌<◌, ◌∙◌, ◌∷◌, ◌≡◌,
}
use mole_port.Core.Errors.{Result, ok}
use mole_port.Socks5.Conn.{Conn, and_then, byte_at, pass, read_full, read_more}
use mole_port.Socks5.Handshake.{
  host_and_port, join_host_port, parse_request, read_address, read_command, uint16_at,
}

append_nil : (xs : List ℕ) → xs ++ [] ≡ xs
append_nil [] = refl
append_nil (x ∷ xs) = ap (λ ys. x ∷ ys) (append_nil xs)

append_assoc : (xs ys zs : List ℕ) → (xs ++ ys) ++ zs ≡ xs ++ (ys ++ zs)
append_assoc [] ys zs = refl
append_assoc (x ∷ xs) ys zs = ap (λ ws. x ∷ ws) (append_assoc xs ys zs)

read_more_cons :
    (got : List ℕ) (n b : ℕ) (bs : List ℕ)
    → read_more got (suc n) (b ∷ bs) ≡ read_more (got ++ b ∷ []) n bs
unfolding read_more
read_more_cons [] n b bs = refl
read_more_cons (x ∷ xs) n b bs = refl

read_more-append :
    (got xs rest : List ℕ) → read_more got (length xs) (xs ++ rest) ≡ (ok (got ++ xs), rest)
unfolding read_more
read_more-append got [] rest = ap (λ g. (ok g, rest)) (sym (append_nil got))
read_more-append got (x ∷ xs) rest =
    read_more_cons got (length xs) x (xs ++ rest)
    ∙ (read_more-append (got ++ x ∷ []) xs rest
        ∙ ap (λ g. (ok g, rest)) (append_assoc got (x ∷ []) xs))

pub read_full-append :
    (n : ℕ) (xs rest : List ℕ) (c : Conn)
    → length xs ≡ n
    → read_full n (record c { input = xs ++ rest }) ≡ (ok xs, record c { input = rest })
unfolding read_full
read_full-append n xs rest c e =
    subst (λ k. read_full k (record c { input = xs ++ rest }) ≡ (ok xs, record c { input = rest }))
      e
      (ap (λ (r : Result (List ℕ) × List ℕ). (r.0, record c { input = r.1 }))
        (read_more-append [] xs rest))

get_elem?-append_first : (xs : List ℕ) (a b : ℕ) → get_elem? (xs ++ a ∷ b ∷ []) (length xs) ≡ some a
get_elem?-append_first [] a b = refl
get_elem?-append_first (x ∷ xs) a b = get_elem?-append_first xs a b

get_elem?-append_second :
    (xs : List ℕ) (a b : ℕ) → get_elem? (xs ++ a ∷ b ∷ []) (suc (length xs)) ≡ some b
get_elem?-append_second [] a b = refl
get_elem?-append_second (x ∷ xs) a b = get_elem?-append_second xs a b

take-append : (xs ys : List ℕ) → take (length xs) (xs ++ ys) ≡ xs
take-append [] ys = refl
take-append (x ∷ xs) ys = ap (λ zs. x ∷ zs) (take-append xs ys)

abbrev pub port_bytes : ℕ → List ℕ
port_bytes p = p / 256 ∷ p % 256 ∷ []

next : (n : ℕ) → n + 1 ≡ suc n
next n = omega arith

uint16_at-append : (xs : List ℕ) (p : ℕ) → uint16_at (length xs) (xs ++ port_bytes p) ≡ p
unfolding uint16_at byte_at
uint16_at-append xs p =
    rw
      (
        next (length xs),
        byte_at,
        get_elem?-append_first xs (p / 256) (p % 256),
        get_elem?-append_second xs (p / 256) (p % 256),
      )
      (omega arith)

length-append_two : (xs : List ℕ) (a b : ℕ) → length (xs ++ a ∷ b ∷ []) ≡ length xs + 2
length-append_two xs a b = omega (arith, length-append xs (a ∷ b ∷ []))

module _ (ip_string text : List ℕ → String) where
  host_and_port-append :
      (show : List ℕ → String) (xs rest : List ℕ) (p : ℕ) (c : Conn)
      → host_and_port ip_string text show
          (length xs)
          (record c { input = (xs ++ port_bytes p) ++ rest })
        ≡ (ok (join_host_port (show xs) (itoa p)), record c { input = rest })
  unfolding host_and_port and_then pass
  host_and_port-append show xs rest p c =
      rw
        (
          read_full-append (length xs + 2) (xs ++ port_bytes p) rest c
              (length-append_two xs (p / 256) (p % 256)),
          take-append xs (port_bytes p),
          uint16_at-append xs p,
        )
        refl

  host_and_port-sized :
      (show : List ℕ → String) (xs rest : List ℕ) (p n : ℕ) (c : Conn)
      → length xs ≡ n
      → host_and_port ip_string text show n (record c { input = (xs ++ port_bytes p) ++ rest })
        ≡ (ok (join_host_port (show xs) (itoa p)), record c { input = rest })
  host_and_port-sized show xs rest p n c size =
      subst
        (λ k.
          host_and_port ip_string text show k (record c { input = (xs ++ port_bytes p) ++ rest })
          ≡ (ok (join_host_port (show xs) (itoa p)), record c { input = rest }))
        size (host_and_port-append show xs rest p c)

-- Where a client wants to go.
pub data Address : Type 0 where
  ipv4 domain ipv6 : List ℕ → Address

-- Four or sixteen bytes, or a domain whose length is one byte.
abbrev pub IsAddress : Address → Type 0
IsAddress (ipv4 bytes) = length bytes ≡ 4
IsAddress (domain bytes) = length bytes < 256
IsAddress (ipv6 bytes) = length bytes ≡ 16

-- The bytes of a CONNECT request by RFC 1928.
unfoldable pub encode_request : Address → ℕ → List ℕ
encode_request (ipv4 bytes) p = (5 ∷ 1 ∷ 0 ∷ 1 ∷ []) ++ (bytes ++ port_bytes p)
encode_request (domain bytes) p = (5 ∷ 1 ∷ 0 ∷ 3 ∷ []) ++ (length bytes ∷ (bytes ++ port_bytes p))
encode_request (ipv6 bytes) p = (5 ∷ 1 ∷ 0 ∷ 4 ∷ []) ++ (bytes ++ port_bytes p)

abbrev pub host_text : (List ℕ → String) → (List ℕ → String) → Address → String
host_text ip_string text (ipv4 bytes) = ip_string bytes
host_text ip_string text (domain bytes) = text bytes
host_text ip_string text (ipv6 bytes) = ip_string bytes

-- A CONNECT request for an address and a port is read back as that address and port; what the client sends
-- behind it is left for the tunnel, and nothing is answered yet.
pub parse_request-encode_request :
    (ip_string text : List ℕ → String) (a : Address) (p : ℕ) (rest : List ℕ) (c : Conn)
    → IsAddress a
    → p < 65536
    → parse_request ip_string text (record c { input = encode_request a p ++ rest })
      ≡ (ok (join_host_port (host_text ip_string text a) (itoa p)), record c { input = rest })
unfolding parse_request read_command read_address and_then pass encode_request byte_at read_full
    read_more
parse_request-encode_request ip_string text (ipv4 bytes) p rest c size port =
    host_and_port-sized ip_string text ip_string bytes rest p 4 c size
parse_request-encode_request ip_string text (domain bytes) p rest c size port =
    host_and_port-append ip_string text text bytes rest p c
parse_request-encode_request ip_string text (ipv6 bytes) p rest c size port =
    host_and_port-sized ip_string text ip_string bytes rest p 16 c size
