-- ===== src/Delivery/Api.antt =====
-- The requests of the API, as the router hands them to the handlers, behind the authentication.
use superkb.Base.{Bool, Option}
use superkb.Base.Text.{Text, lit}
use superkb.Delivery.Response.{write_json}
use superkb.Delivery.Views.{health}
use superkb.Delivery.Auth.{basic_auth}
use superkb.Delivery.Documents as Documents
use superkb.Delivery.Documents.{UploadBody}
use superkb.Delivery.Handlers.{Handler}
use superkb.Delivery.KnowledgeBases as KnowledgeBases
use superkb.Delivery.KnowledgeBases.{
  CreateKbRequest, EnableRequest, SearchRequest, RetainExperienceRequest, CurateMemoryRequestBody,
  MemoryFeedbackRequest,
}
use superkb.World.{Ports}

-- a route of `Routes` with its parameters as they stand in the URL, and the body that is decoded
pub data Route : Type 0 where
  post_document : UploadBody → Route
  get_documents : Text → Text → Route
  get_document : Text → Route
  delete_document : Text → Route
  get_document_source : Text → Route
  post_knowledge_base : Option CreateKbRequest → Route
  get_knowledge_bases : Text → Text → Route
  get_knowledge_base : Text → Route
  delete_knowledge_base : Text → Route
  put_kb_document : Text → Text → Route
  delete_kb_document : Text → Text → Route
  post_build : Text → Route
  get_builds : Text → Route
  post_enable : Text → Option EnableRequest → Route
  post_disable : Text → Route
  post_experience : Text → Option RetainExperienceRequest → Route
  patch_memory : Text → Text → Option CurateMemoryRequestBody → Route
  post_feedback : Text → Text → Option MemoryFeedbackRequest → Route
  post_search : Text → Option SearchRequest → Route

-- What the router finds for a request that matches a route: the probe, or a route of the group
-- `/api/v1` with the credentials that the request carries. Other requests are answered by chi.
pub data Target : Type 0 where
  healthz : Target
  api : Option (Text × Text) → Route → Target

module _ {E : Type 0} (P : Ports E) where
  unfoldable pub handle : Route → Handler E
  handle (post_document i) = Documents.upload P i
  handle (get_documents limit offset) = Documents.list P limit offset
  handle (get_document id) = Documents.get P id
  handle (delete_document id) = Documents.delete P id
  handle (get_document_source id) = Documents.show_source P id
  handle (post_knowledge_base body) = KnowledgeBases.create P body
  handle (get_knowledge_bases limit offset) = KnowledgeBases.list P limit offset
  handle (get_knowledge_base id) = KnowledgeBases.get P id
  handle (delete_knowledge_base id) = KnowledgeBases.delete P id
  handle (put_kb_document id doc) = KnowledgeBases.add_document P id doc
  handle (delete_kb_document id doc) = KnowledgeBases.remove_document P id doc
  handle (post_build id) = KnowledgeBases.start_build P id
  handle (get_builds id) = KnowledgeBases.list_builds P id
  handle (post_enable id body) = KnowledgeBases.enable P id body
  handle (post_disable id) = KnowledgeBases.disable P id
  handle (post_experience id body) = KnowledgeBases.retain_experience P id body
  handle (patch_memory id memory body) = KnowledgeBases.curate_memory P id memory body
  handle (post_feedback id memory body) = KnowledgeBases.submit_memory_feedback P id memory body
  handle (post_search id body) = KnowledgeBases.answer_search P id body

  -- a request of the API with the credentials that it carries
  unfoldable pub receive_request : Bool → Text → Text → Option (Text × Text) → Route → Handler E
  receive_request enabled username password credentials r =
      basic_auth enabled username password credentials (handle r)

  -- the handler of `/healthz`, which no authentication guards
  abbrev pub probe : Handler E
  probe w = (write_json 200 (health (lit "ok")), w)

  -- the routes of `NewRouter`, with the middleware `auth` of the group; those of chi around it, which
  -- answer for a handler that panics and end the context of a request after 60 seconds, are left out
  unfoldable pub serve_request : Bool → Text → Text → Target → Handler E
  unfolding receive_request
  serve_request enabled username password healthz = probe
  serve_request enabled username password (api credentials r) =
      receive_request enabled username password credentials r
