-- ===== src/Tests/Api.antt =====
-- Requests of the API.
use superkb.Base.{◌≡◌, ◌≢◌, refl, true, Option, none, some, List, [], ◌∷◌}
use superkb.Base.Text.{Text, lit, text_eq}
use superkb.Delivery.Api.{
  api, healthz, receive_request, serve_request, post_document, post_knowledge_base, put_kb_document,
  post_build, post_enable, delete_document,
}
use superkb.Delivery.Documents.{UploadBody}
use superkb.Delivery.Auth.{denied, constant_time_equal}
use superkb.Rules.Answering.{serve_request-Serves}
use superkb.Rules.Contract.{Serves}
use superkb.Rules.Http.{denied_iff}
use superkb.Domain.Errors.{ok, opaque}
use superkb.Lifecycle.Api.{
  Event, call, turn, happen_all, happen_all-IsConsistent, receive_request-denied,
}
use superkb.Lifecycle.Invariant.{IsConsistent}
use superkb.Tests.Fixtures.{counter, empty_world, served_world, leaflet}
use superkb.Tests.Histories.{empty_world-IsConsistent}

abbrev admin : Option (Text × Text)
admin = some (lit "admin", lit "x")

abbrev guest : Option (Text × Text)
guest = some (lit "guest", lit "x")

-- a document without a form
abbrev note : UploadBody
note = record {
  media_type = lit "application/json";
  json = some (record {
    title = leaflet.title;
    filename = leaflet.filename;
    content_type = leaflet.content_type;
    content = leaflet.content;
    metadata = leaflet.metadata;
  });
  form = record {
    form_error = some (opaque (lit "request Content-Type isn't multipart/form-data"));
    file = none;
    title = [];
    metadata = [];
    unmarshalled = ok [];
  };
}

-- the requests of a first build that is enabled, and one that is denied
abbrev session : List Event
session =
    call (api admin (post_document note))
    ∷ call (api admin (post_knowledge_base (some (record { name = b'n' ∷ []; description = [] }))))
    ∷ call (api admin (put_kb_document (13 ∷ []) (10 ∷ [])))
    ∷ call (api guest (delete_document (10 ∷ [])))
    ∷ call (api admin (post_build (13 ∷ [])))
    ∷ call healthz
    ∷ turn
    ∷ call (api admin (post_enable (13 ∷ []) (some (record { build_id = 15 ∷ [] }))))
    ∷ []

happen_all-IsConsistent_example :
    IsConsistent (happen_all counter true (lit "admin") (lit "x") session empty_world).db
happen_all-IsConsistent_example =
    happen_all-IsConsistent counter true (lit "admin") (lit "x") session empty_world
      empty_world-IsConsistent

serve_request-Serves_example :
    Serves
      (api admin (post_build (1 ∷ [])))
      (serve_request counter true
        (lit "admin")
        (lit "x")
        (api admin (post_build (1 ∷ [])))
        served_world).0
serve_request-Serves_example =
    serve_request-Serves counter true (lit "admin") (lit "x") (api admin (post_build (1 ∷ [])))
      served_world

barred : denied (lit "admin") (lit "x") guest ≡ true
unfolding denied constant_time_equal text_eq lit
barred = refl

guest-admin : guest ≢ admin
guest-admin e = cc (barred, (denied_iff (lit "admin") (lit "x") guest).1 e)

receive_request-denied_example :
    ((receive_request counter true
        (lit "admin")
        (lit "x")
        guest
        (delete_document (7 ∷ []))
        served_world).1
      ≡ served_world)
    × ((receive_request counter true
          (lit "admin")
          (lit "x")
          guest
          (delete_document (7 ∷ []))
          served_world).0.status
        ≡ 401)
receive_request-denied_example =
    receive_request-denied counter (lit "admin") (lit "x") guest (delete_document (7 ∷ []))
      served_world guest-admin
