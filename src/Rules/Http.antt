-- ===== src/Rules/Http.antt =====
-- delivery/http: which status an error becomes, and which requests pass the authentication.
use superkb.Base.{ℕ, ◌≡◌, ◌⊎◌, ◌↔◌, Bool, true, false, Option, none, some, arith}
use superkb.Base.Text.{Text, lit, text_eq_iff}
use superkb.Delivery.Auth.{constant_time_equal, denied}
use superkb.Delivery.Response.{message, write_domain_error}
use superkb.Domain.Errors.{Error, error_text, is, invalid_input, not_found, conflict}

-- the status of an error, by the sentinels in its chain
abbrev pub status_of : Bool → Bool → Bool → ℕ
status_of true _ _ = 400
status_of false true _ = 404
status_of false false true = 409
status_of false false false = 500

-- An error becomes 400, 404 or 409 by the first of the sentinels in its chain, with its own text
-- as the message; every other error becomes 500, with a text that tells nothing of it.
pub write_domain_error-status :
    {A : Type 0} (e : Error)
    → let r = write_domain_error {A = A} e in
      (r.status ≡ status_of (is e invalid_input) (is e not_found) (is e conflict))
      × (((r.status ≡ 500) × (r.payload ≡ message (lit "internal server error")))
          ⊎ (r.payload ≡ message (error_text e)))
unfolding write_domain_error
write_domain_error-status e = ground arith

-- With authentication enabled, a request passes if and only if it carries exactly the
-- configured user name and password; all others get 401.
pub denied_iff :
    (username password : Text) (credentials : Option (Text × Text))
    → (denied username password credentials ≡ false) ↔ (credentials ≡ some (username, password))
unfolding denied constant_time_equal
denied_iff username password none = ground arith
denied_iff username password (some (user, pass)) =
    ground (arith, text_eq_iff user username, text_eq_iff pass password)
