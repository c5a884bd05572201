-- ===== src/Delivery/Response.antt =====
-- delivery/http/response.go
use superkb.Base.{ℕ, if◌then◌else◌}
use superkb.Base.Text.{Text, lit}
use superkb.Domain.Errors.{
  Error, Result, ok, err, error_text, is, invalid_input, not_found, conflict,
}

-- A response body: a value, or `{"error": message}`.
pub data Payload {ℓ} (A : Type ℓ) : Type ℓ where
  value : A → Payload A
  message : Text → Payload A
  -- no body
  nothing : Payload A

pub record Response {ℓ} (A : Type ℓ) : Type ℓ where
  pub status : ℕ
  pub payload : Payload A

-- `writeJSON`
abbrev pub write_json {ℓ} : {A : Type ℓ} → ℕ → A → Response A
write_json status a = record { status = status; payload = value a }

-- `writeError`
abbrev pub write_error {ℓ} : {A : Type ℓ} → ℕ → Text → Response A
write_error status text = record { status = status; payload = message text }

-- `writeDomainError`: the cases of the `switch`, from the top
unfoldable pub write_domain_error {ℓ} : {A : Type ℓ} → Error → Response A
write_domain_error e =
    if is e invalid_input
    then write_error 400 (error_text e)
    else if is e not_found
    then write_error 404 (error_text e)
    else if is e conflict
    then write_error 409 (error_text e)
    else write_error 500 (lit "internal server error")

-- the end of the handlers that answer with a value
unfoldable pub respond {ℓ} : {A : Type ℓ} → ℕ → Result A → Response A
unfolding write_domain_error
respond status (ok a) = write_json status a
respond status (err e) = write_domain_error e
