-- ===== src/Delivery/Auth.antt =====
-- delivery/http/auth.go: the middleware, before the handler of a request
use superkb.Base.{Bool, true, not, ◌||◌, Option, none, some, if◌then◌else◌}
use superkb.Base.Text.{Text, lit, text_eq}
use superkb.Delivery.Response.{Response, write_error}

-- `constantTimeEqual`: 1 for equal contents, 0 for others and for other lengths
unfoldable pub constant_time_equal : Text → Text → Bool
constant_time_equal = text_eq

-- `!ok || …`: the credentials of the request do not match
unfoldable pub denied : Text → Text → Option (Text × Text) → Bool
unfolding constant_time_equal
denied username password none = true
denied username password (some (user, pass)) =
    not (constant_time_equal user username) || not (constant_time_equal pass password)

-- `BasicAuth`: `credentials` is what `r.BasicAuth()` finds, `next` the rest of the chain
unfoldable pub basic_auth {ℓ} :
    {S A : Type ℓ}
    → Bool
    → Text
    → Text
    → Option (Text × Text)
    → (S → Response A × S)
    → S
    → Response A × S
basic_auth enabled username password credentials next s =
    if not enabled
    then next s
    else if denied username password credentials
    then (write_error 401 (lit "unauthorized"), s)
    else next s
