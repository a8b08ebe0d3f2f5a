-- ===== src/Protocol/Codes.antt =====
-- internal/ipc/protocol/protocol.go and convert.go: the codes of errors.
use mole_port.Base.{Option, String, contains, if◌then◌else◌, negsuc, none, pos, some, str_eq, ℤ}
use mole_port.Core.Errors.{
  Error, already_active, already_exists, auth_required, credential_cancelled, credential_timeout,
  is_auth_failure, not_connected, not_found, wrap,
}
use mole_port.Core.Errors.{message}

abbrev pub host_not_found : ℤ
host_not_found = pos 1001

abbrev pub already_connected : ℤ
already_connected = pos 1002

abbrev pub not_connected_code : ℤ
not_connected_code = pos 1003

abbrev pub rule_not_found : ℤ
rule_not_found = pos 1004

abbrev pub rule_already_exists : ℤ
rule_already_exists = pos 1005

abbrev pub port_conflict : ℤ
port_conflict = pos 1006

abbrev pub authentication_failed : ℤ
authentication_failed = pos 1007

abbrev pub credential_timeout_code : ℤ
credential_timeout_code = pos 1008

abbrev pub credential_cancelled_code : ℤ
credential_cancelled_code = pos 1009

-- `-32603`
abbrev pub internal_error : ℤ
internal_error = negsuc 32602

-- `-32602`
abbrev pub invalid_params : ℤ
invalid_params = negsuc 32601

-- `-32601`
abbrev pub method_not_found : ℤ
method_not_found = negsuc 32600

-- `-32600`
abbrev pub invalid_request : ℤ
invalid_request = negsuc 32599

-- `-32700`
abbrev pub parse_error : ℤ
parse_error = negsuc 32699

pub record RpcError : Type 0 where
  pub code : ℤ
  pub message : String

-- errors.Is and errors.As: the first error of the chain that `pick` accepts. `Unwrap` of an
-- AuthRequiredError is its cause, and that of a `fmt.Errorf` the error at `%w`.
unfoldable pub first_in_chain {ℓ} : {A : Type ℓ} → (Error → Option A) → Error → Option A
first_in_chain pick (wrap s e) =
    let rest = first_in_chain pick e in elim (pick (wrap s e)) [ none ↦ rest | some a ↦ some a ]
first_in_chain pick (auth_required h e) =
    let rest = first_in_chain pick e in
    elim (pick (auth_required h e)) [ none ↦ rest | some a ↦ some a ]
first_in_chain pick e = pick e

abbrev pub as_timeout : Error → Option (Unit {0})
as_timeout credential_timeout = some tt
as_timeout _ = none

abbrev pub as_cancelled : Error → Option (Unit {0})
as_cancelled credential_cancelled = some tt
as_cancelled _ = none

abbrev pub as_not_found : Error → Option String
as_not_found (not_found resource name) = some resource
as_not_found _ = none

abbrev pub as_already_exists : Error → Option (Unit {0})
as_already_exists (already_exists resource name) = some tt
as_already_exists _ = none

abbrev pub as_already_active : Error → Option (Unit {0})
as_already_active (already_active name) = some tt
as_already_active _ = none

abbrev pub as_not_connected : Error → Option (Unit {0})
as_not_connected (not_connected host) = some tt
as_not_connected _ = none

abbrev pub as_auth_required : Error → Option (Unit {0})
as_auth_required (auth_required host e) = some tt
as_auth_required _ = none

-- `if errors.As(...) { return code }`, and what follows otherwise
abbrev pub ◌or◌ : Option (ℤ) → Option ℤ → Option ℤ
none or rest = rest
some c or rest = some c

infixr 30 ◌or◌
abbrev pub coded : ℤ → Option (Unit {0}) → Option ℤ
coded c none = none
coded c (some u) = some c

-- The inner switch, which falls through for another resource
unfoldable pub resource_code : Option String → Option ℤ
resource_code none = none
resource_code (some resource) =
    if str_eq resource "host"
    then some host_not_found
    else if str_eq resource "rule"
    then some rule_not_found
    else none

-- The code that the structured errors of the chain give, by the order of the tests
unfoldable pub structured_code : Error → Option ℤ
unfolding first_in_chain resource_code
structured_code e =
    coded credential_timeout_code (first_in_chain as_timeout e)
    or coded credential_cancelled_code (first_in_chain as_cancelled e)
    or resource_code (first_in_chain as_not_found e)
    or coded rule_already_exists (first_in_chain as_already_exists e)
    or coded already_connected (first_in_chain as_already_active e)
    or coded not_connected_code (first_in_chain as_not_connected e)
    or coded authentication_failed (first_in_chain as_auth_required e)

module _ (quote : String → String) where
  -- The fallback on the text
  unfoldable pub text_code : Error → ℤ → ℤ
  unfolding message is_auth_failure
  text_code e default_code =
      if contains (message quote e) "address already in use"
      then port_conflict
      else if is_auth_failure quote e
      then authentication_failed
      else default_code

  -- ToRPCError
  unfoldable pub to_rpc_error : Error → ℤ → RpcError
  unfolding message structured_code text_code
  to_rpc_error e default_code = record {
    code = elim (structured_code e) [ none ↦ text_code e default_code | some c ↦ c ];
    message = message quote e;
  }
