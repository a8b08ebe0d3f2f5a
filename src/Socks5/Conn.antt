-- ===== src/Socks5/Conn.antt =====
-- The connection that internal/core/socks5 reads and writes: the bytes that the client will have sent
-- before it closes, the bytes sent to it, and the error that writes return, if any.
use mole_port.Base.{List, Option, String, [], get_elem?, none, some, suc, zero, ℕ, ◌++◌, ◌∷◌}
use mole_port.Core.Errors.{Error, Result, err, ok, other}

pub record Conn : Type 0 where
  pub input : List ℕ
  pub sent : List ℕ
  pub write_error : Option Error

-- A computation on the connection, which an error ends.
abbrev pub Io {ℓ} : Type ℓ → Type ℓ
Io A = Conn → Result A × Conn

unfoldable pub pass {ℓ κ} :
    {A : Type ℓ} {B : Type κ} → (A → Io B) → Result A × Conn → Result B × Conn
pass f (err e, c) = (err e, c)
pass f (ok a, c) = f a c

unfoldable pub and_then {ℓ κ} : {A : Type ℓ} {B : Type κ} → Io A → (A → Io B) → Io B
unfolding pass
and_then m f c = pass f (m c)

abbrev pub give {ℓ} : {A : Type ℓ} → A → Io A
give a c = (ok a, c)

abbrev pub fail {ℓ} : {A : Type ℓ} → String → Io A
fail text c = (err (other text), c)

-- What is left of a read: the bytes so far, those still wanted and the input.
unfoldable pub read_more : List ℕ → ℕ → List ℕ → Result (List ℕ) × List ℕ
read_more got zero input = (ok got, input)
read_more [] (suc n) [] = (err (other "EOF"), [])
read_more (x ∷ xs) (suc n) [] = (err (other "unexpected EOF"), [])
read_more got (suc n) (b ∷ bs) = read_more (got ++ b ∷ []) n bs

-- io.ReadFull into a buffer of n bytes
unfoldable pub read_full : ℕ → Io (List ℕ)
unfolding read_more
read_full n c = let (bytes, rest) = read_more [] n c.input in (bytes, record c { input = rest })

-- conn.Write; a write that fails sends nothing
unfoldable pub write : List ℕ → Io (Unit {0})
write bytes c = elim c.write_error [
  | none ↦ (ok tt, record c { sent = c.sent ++ bytes })
  | some e ↦ (err e, c)
]

-- `_, _ = conn.Write(...)`
unfoldable pub write_anyway : List ℕ → Io (Unit {0})
unfolding write
write_anyway bytes c = (ok tt, (write bytes c).1)

-- b[i] of a buffer that is long enough
unfoldable pub byte_at : ℕ → List ℕ → ℕ
byte_at i bytes = elim (get_elem? bytes i) [ none ↦ 0 | some b ↦ b ]
