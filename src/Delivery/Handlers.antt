-- ===== src/Delivery/Handlers.antt =====
-- What the handlers of delivery/http share: a handler writes one response.
use superkb.Base.{ℕ, Option, none, some, ◌++◌}
use superkb.Base.Text.{Text, lit}
use superkb.Delivery.Response.{Response, nothing, write_json, write_error, write_domain_error}
use superkb.Delivery.Views.{Body}
use superkb.Domain.Errors.{Result, ok, err}
use superkb.World.{World, Ports}
use superkb.World.Calls.{M}

abbrev pub Handler : Type 0 → Type 0
Handler E = World E → Response Body × World E

module _ {E A : Type 0} where
  -- the end of a handler: the value, or the error of the use case
  abbrev pub written : ℕ → (A → Body) → Result A × World E → Response Body × World E
  written status view (ok a, w) = (write_json status (view a), w)
  written status view (err e, w) = (write_domain_error e, w)

  unfoldable pub reply : ℕ → (A → Body) → M E A → Handler E
  reply status view m w = written status view (m w)

  -- the JSON body of the request, if `Decode` accepts it
  unfoldable pub with_body : Option A → (A → Handler E) → Handler E
  with_body (some a) next w = next a w
  with_body none next w = (write_error 400 (lit "invalid JSON body"), w)

module _ {E : Type 0} where
  abbrev pub done : Result (Unit {0}) × World E → Response Body × World E
  done (ok _, w) = (record { status = 204; payload = nothing }, w)
  done (err e, w) = (write_domain_error e, w)

  -- `w.WriteHeader(http.StatusNoContent)`
  unfoldable pub reply_nothing : M E (Unit {0}) → Handler E
  reply_nothing m w = done (m w)

  -- `uuid.Parse` of a parameter, and the refusal
  unfoldable pub with_uuid : Ports E → Text → Text → (ℕ → Handler E) → Handler E
  with_uuid P refusal text next w = elim (P.parse_uuid text) [
    | some id ↦ next id w
    | none ↦ (write_error 400 refusal, w)
  ]

  -- `parseID`
  unfoldable pub with_id : Ports E → Text → Text → (ℕ → Handler E) → Handler E
  with_id P name = with_uuid P (lit "invalid " ++ name)
