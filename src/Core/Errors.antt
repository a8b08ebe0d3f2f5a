-- ===== src/Core/Errors.antt =====
-- internal/core/errors.go: the structured errors, and the chain of errors that wrap one another.
use mole_port.Base.{Bool, Option, String, contains, none, some, ◌<>◌, ◌||◌}

-- `wrap s e` is `fmt.Errorf("<s>: %w", e)`; `other` is an error known by its text alone.
pub data Error : Type 0 where
  credential_timeout credential_cancelled : Error
  not_found already_exists : String → String → Error
  already_active not_connected other : String → Error
  auth_required : String → Error → Error
  wrap : String → Error → Error

-- `quote` is `%q`, that is strconv.Quote.
module _ (quote : String → String) where
  -- The `Error` methods.
  unfoldable pub message : Error → String
  message credential_timeout = "credential timeout"
  message credential_cancelled = "credential cancelled"
  message (not_found resource name) = resource <> " " <> quote name <> " not found"
  message (already_exists resource name) = resource <> " " <> quote name <> " already exists"
  message (already_active name) = quote name <> " is already active"
  message (not_connected host) = "host " <> quote host <> " is not connected"
  message (other text) = text
  message (auth_required host e) = "authentication required for " <> host <> ": " <> message e
  message (wrap s e) = s <> ": " <> message e

  -- The loop over `authFailureMessages` written out.
  unfoldable pub is_auth_failure : Error → Bool
  unfolding message
  is_auth_failure e =
      contains (message e) "unable to authenticate"
      || contains (message e) "no authentication methods available"
      || contains (message e) "no supported methods remain"

-- What a Go function with a result `(A, error)` returns: the value counts where the error is nil.
pub data Result {ℓ} (A : Type ℓ) : Type ℓ where
  err : Error → Result A
  ok : A → Result A

-- `if err != nil { return err }` for a call that returns an error alone.
abbrev pub check : Option Error → Result (Unit {0})
check (some failure) = err failure
check none = ok tt

-- The same with `fmt.Errorf("<s>: %w", err)`.
abbrev pub check_as : String → Option Error → Result (Unit {0})
check_as s (some failure) = err (wrap s failure)
check_as s none = ok tt

-- The statements behind a call that has returned, given its value.
abbrev pub ◌>>=◌ {ℓ κ} : {V : Type ℓ} {W : Type κ} → Result V → (V → Result W) → Result W
err failure >>= later = err failure
ok v >>= later = later v

infixl 5 ◌>>=◌
-- The same for a call without a value.
abbrev pub ◌>>◌ {ℓ} : {W : Type ℓ} → Result (Unit {0}) → Result W → Result W
err failure >> later = err failure
ok nothing >> later = later

infixl 5 ◌>>◌
