-- ===== src/Lifecycle/Api.antt =====
-- The HTTP API behind its authentication: requests of any form, and turns of the worker.
use superkb.Base.{
  ◌≢◌, arith, ◌≡◌, refl, Bool, true, Option, some, List, [], ◌∷◌, inl, inr, Bool-cases,
}
use superkb.Base.Text.{Text}
use superkb.Delivery.Api.{Route, Target, healthz, api, receive_request, serve_request}
use superkb.Delivery.Auth.{basic_auth, denied}
use superkb.Lifecycle.History.{
  Operation, request, removal, perform, perform-Reach, runs-Reach, upload, create_kb, add_document,
  build_kb, enable_kb, disable_kb, search, retain, curate, vote, delete_kb, remove_document,
}
use superkb.Lifecycle.History as History
use superkb.Lifecycle.Invariant.{IsConsistent, Reach-IsConsistent}
use superkb.Lifecycle.Steps.{Reach, Step, here, Reach-trans}
use superkb.Rules.Http.{denied_iff}
use superkb.World.{World, Ports}
use superkb.Lifecycle.Handlers.{Steps, Fits, handle-Steps}

-- a request, or a turn of a worker
pub data Event : Type 0 where
  call : Target → Event
  turn : Event

module _ {E : Type 0} (P : Ports E) (enabled : Bool) (username password : Text) where
  -- the world that a request or a turn leaves
  unfoldable pub happen : Event → World E → World E
  happen (call t) w = (serve_request P enabled username password t w).1
  happen turn w = History.answer P History.work w

  unfoldable pub happen_all : List Event → World E → World E
  happen_all [] w = w
  happen_all (e ∷ es) w = happen_all es (happen e w)

  receive_request-Steps :
      (credentials : Option (Text × Text)) (r : Route)
      → Steps (receive_request P enabled username password credentials r)
  unfolding receive_request basic_auth
  receive_request-Steps credentials r = elim (Bool-cases enabled) [
    | inr off ↦ record { run = λ w. rw off ((handle-Steps P r).run w) }
    | inl on ↦ elim (Bool-cases (denied username password credentials)) [
      | inl barred ↦ record { run = λ w. rw (on, barred) (here, (omega arith, omega arith)) }
      | inr passed ↦ record { run = λ w. rw (on, passed) ((handle-Steps P r).run w) }
    ]
  ]

  serve_request-Steps : (t : Target) → Steps (serve_request P enabled username password t)
  unfolding serve_request
  serve_request-Steps healthz = record { run = λ w. (here, omega arith) }
  serve_request-Steps (api credentials r) = receive_request-Steps credentials r

  happen-Reach : (e : Event) (w : World E) → Reach Step w.db (happen e w).db
  unfolding happen
  happen-Reach (call t) w = ((serve_request-Steps t).run w).0
  happen-Reach turn w = unfold perform in perform-Reach P (request History.work) w

  happen_all-Reach : (es : List Event) (w : World E) → Reach Step w.db (happen_all es w).db
  unfolding happen_all
  happen_all-Reach [] w = here
  happen_all-Reach (e ∷ es) w = Reach-trans (happen-Reach e w) (happen_all-Reach es (happen e w))

  -- Whatever requests of whatever form reach the API, with turns of the worker between them and
  -- whatever fails, a knowledge base whose active build is set points at a ready build of its own,
  -- if it was so at the start.
  pub happen_all-IsConsistent :
      (es : List Event) (w : World E) → IsConsistent w.db → IsConsistent (happen_all es w).db
  happen_all-IsConsistent es w = Reach-IsConsistent (happen_all-Reach es w)

  -- Every response fits its status: one with an error message has a status from 400 to 500, all
  -- others have one below 300.
  receive_request-Fits :
      (credentials : Option (Text × Text)) (r : Route) (w : World E)
      → Fits (receive_request P enabled username password credentials r w).0
  receive_request-Fits credentials r w = ((receive_request-Steps credentials r).run w).1

module _ {E : Type 0} (P : Ports E) where
  -- With authentication enabled, a request for a route of `/api/v1` that does not carry exactly the
  -- configured user name and password changes nothing and is answered 401. (`/healthz` is open.)
  pub receive_request-denied :
      (username password : Text) (credentials : Option (Text × Text)) (r : Route) (w : World E)
      → credentials ≢ some (username, password)
      → ((receive_request P true username password credentials r w).1 ≡ w)
        × ((receive_request P true username password credentials r w).0.status ≡ 401)
  unfolding receive_request basic_auth
  receive_request-denied username password credentials r w other =
      elim (Bool-cases (denied username password credentials)) [
        | inl barred ↦ rw barred (refl, refl)
        | inr passed ↦ absurd (other ((denied_iff username password credentials).0 passed))
      ]
