-- ===== src/Protocol/Wrapping.antt =====
-- internal/ipc/protocol/convert.go: the code of an error that other errors wrap.
use mole_port.Base.{List, String, [], arith, none, refl, some, ℤ, ◌∙◌, ◌∷◌, ◌≡◌}
use mole_port.Core.Errors.{Error, auth_required, message, wrap}
use mole_port.Protocol.Codes.{authentication_failed, first_in_chain, structured_code, to_rpc_error}

structured_code-wrap : (s : String) (e : Error) → structured_code (wrap s e) ≡ structured_code e
unfolding structured_code first_in_chain
structured_code-wrap s e = refl

-- Texts put in front of an error.
unfoldable pub wrap_all : List String → Error → Error
wrap_all [] e = e
wrap_all (s ∷ ss) e = wrap s (wrap_all ss e)

structured_code-wrap_all :
    (ss : List String) (e : Error) → structured_code (wrap_all ss e) ≡ structured_code e
unfolding wrap_all
structured_code-wrap_all [] e = refl
structured_code-wrap_all (s ∷ ss) e =
    structured_code-wrap s (wrap_all ss e) ∙ structured_code-wrap_all ss e

pub to_rpc_error-wrap_all :
    (quote : String → String) (ss : List String) (e : Error) (c default_code : ℤ)
    → structured_code e ≡ some c
    → ((to_rpc_error quote (wrap_all ss e) default_code).code ≡ c)
      × ((to_rpc_error quote e default_code).code ≡ c)
      × ((to_rpc_error quote (wrap_all ss e) default_code).message ≡ message quote (wrap_all ss e))
unfolding to_rpc_error
to_rpc_error-wrap_all quote ss e c d h = ground (arith, structured_code-wrap_all ss e)

structured_code-auth_required :
    (host : String) (e : Error)
    → structured_code (auth_required host e)
      ≡ some (elim (structured_code e) [ none ↦ authentication_failed | some c ↦ c ])
unfolding structured_code first_in_chain
structured_code-auth_required host e = ground arith

-- A host that needs authentication is reported as such, unless its cause is of a structured kind, whose
-- code it has then, under any number of wraps.
pub to_rpc_error-auth_required :
    (quote : String → String) (ss : List String) (host : String) (e : Error) (d : ℤ)
    → (to_rpc_error quote (wrap_all ss (auth_required host e)) d).code
      ≡ elim (structured_code e) [ none ↦ authentication_failed | some c ↦ c ]
to_rpc_error-auth_required quote ss host e d =
    (to_rpc_error-wrap_all quote ss (auth_required host e) _ d
      (structured_code-auth_required host e)).0
