-- ===== src/Rules/Answering.antt =====
-- The handlers of delivery/http against the contract of the API, route by route.
use superkb.Base.{refl, Bool, Option, inl, inr, Bool-cases}
use superkb.Base.Text.{Text}
use superkb.Delivery.Api.{
  Route, Target, healthz, api, handle, receive_request, serve_request, post_document, get_documents,
  get_document, delete_document, get_document_source, post_knowledge_base, get_knowledge_bases,
  get_knowledge_base, delete_knowledge_base, put_kb_document, delete_kb_document, post_build,
  get_builds, post_enable, post_disable, post_experience, patch_memory, post_feedback, post_search,
}
use superkb.Delivery.Auth.{basic_auth, denied}
use superkb.Delivery.Documents as DocumentHandlers
use superkb.Delivery.Documents.{upload_input, parse_upload}
use superkb.Delivery.KnowledgeBases as KbHandlers
use superkb.Delivery.KnowledgeBases.{shown}
use superkb.Delivery.Views.{to_build_response}
use superkb.Domain.Errors.{Result, ok, err}
use superkb.Rules.Contract.{answered, refused, bad_request, unauthorized, Contract, Serves}
use superkb.Rules.Contract.Keeping.{
  write_domain_error-Answers, reply-Keeps, with_body-Keeps, reply_nothing-Keeps, with_uuid-Keeps,
  with_id-Keeps, with_memory_id-Keeps,
}
use superkb.Usecase.Builds as Building
use superkb.Usecase.Builds.{Scheduled, queued, unqueued}
use superkb.Usecase.Documents.{UploadInput}
use superkb.World.{World, Ports}

module _ {E : Type 0} (P : Ports E) where
  shown-Answers :
      (id : Text) (r : Result Scheduled × World E) → Contract (post_build id) (shown P r).0
  shown-Answers id (ok (queued b), w) = answered (to_build_response P b) (inl refl) refl
  shown-Answers id (ok (unqueued b e), w) = answered (to_build_response P b) (inr refl) refl
  shown-Answers id (err e, w) = write_domain_error-Answers e

  upload_input-Answers :
      (body : DocumentHandlers.UploadBody) (i : Result UploadInput) (w : World E)
      → Contract (post_document body) (upload_input P i w).0
  upload_input-Answers body (ok i) w = (reply-Keeps _ _ refl (λ d. (_, refl))).run w
  upload_input-Answers body (err e) w = refused _ bad_request refl

  handle-Contract : (r : Route) (w : World E) → Contract r (handle P r w).0
  unfolding handle DocumentHandlers.upload DocumentHandlers.list DocumentHandlers.get
      DocumentHandlers.delete DocumentHandlers.show_source KbHandlers.create KbHandlers.list
      KbHandlers.get KbHandlers.delete KbHandlers.add_document KbHandlers.remove_document
      KbHandlers.start_build KbHandlers.list_builds KbHandlers.enable KbHandlers.disable
      KbHandlers.retain_experience KbHandlers.curate_memory KbHandlers.submit_memory_feedback
      KbHandlers.answer_search
  handle-Contract (post_document b) w = upload_input-Answers b (parse_upload b) w
  handle-Contract (get_documents limit offset) w = (reply-Keeps _ _ refl (λ a. (_, refl))).run w
  handle-Contract (get_document id) w =
      (with_uuid-Keeps P _ id _ (λ i. reply-Keeps _ _ refl (λ a. (_, refl)))).run w
  handle-Contract (delete_document id) w =
      (with_uuid-Keeps P _ id _ (λ i. reply_nothing-Keeps tt _ refl refl)).run w
  handle-Contract (get_document_source id) w =
      (with_uuid-Keeps P _ id _ (λ i. reply-Keeps _ _ refl (λ a. (_, refl)))).run w
  handle-Contract (post_knowledge_base body) w =
      (with_body-Keeps body _ (λ r. reply-Keeps _ _ refl (λ a. (_, refl)))).run w
  handle-Contract (get_knowledge_bases limit offset) w =
      (reply-Keeps _ _ refl (λ a. (_, refl))).run w
  handle-Contract (get_knowledge_base id) w =
      (with_id-Keeps P _ id _ (λ i. reply-Keeps _ _ refl (λ a. (_, refl)))).run w
  handle-Contract (delete_knowledge_base id) w =
      (with_id-Keeps P _ id _ (λ i. reply_nothing-Keeps tt _ refl refl)).run w
  handle-Contract (put_kb_document id doc) w =
      (with_id-Keeps P _ id _
          (λ i. with_id-Keeps P _ doc _ (λ d. reply_nothing-Keeps tt _ refl refl))).run
        w
  handle-Contract (delete_kb_document id doc) w =
      (with_id-Keeps P _ id _
          (λ i. with_id-Keeps P _ doc _ (λ d. reply_nothing-Keeps tt _ refl refl))).run
        w
  handle-Contract (post_build id) w =
      (with_id-Keeps P _ id _
          (λ i. record { run = λ v. shown-Answers id (Building.build P i v) })).run
        w
  handle-Contract (get_builds id) w =
      (with_id-Keeps P _ id _ (λ i. reply-Keeps _ _ refl (λ a. (_, refl)))).run w
  handle-Contract (post_enable id body) w =
      (with_id-Keeps P _ id _ (λ i.
          with_body-Keeps body _
            (λ r. with_uuid-Keeps P _ _ _ (λ b. reply-Keeps _ _ refl (λ a. (_, refl)))))).run
        w
  handle-Contract (post_disable id) w =
      (with_id-Keeps P _ id _ (λ i. reply-Keeps _ _ refl (λ a. (_, refl)))).run w
  handle-Contract (post_experience id body) w =
      (with_id-Keeps P _ id _
          (λ i. with_body-Keeps body _ (λ r. reply-Keeps _ _ refl (λ a. (_, refl))))).run
        w
  handle-Contract (patch_memory id memory body) w =
      (with_id-Keeps P _ id _ (λ i.
          with_memory_id-Keeps P memory _
            (with_body-Keeps body _ (λ r. reply-Keeps _ _ refl (λ a. (_, refl)))))).run
        w
  handle-Contract (post_feedback id memory body) w =
      (with_id-Keeps P _ id _ (λ i.
          with_memory_id-Keeps P memory _
            (with_body-Keeps body _ (λ r. reply-Keeps _ _ refl (λ a. (_, refl)))))).run
        w
  handle-Contract (post_search id body) w =
      (with_id-Keeps P _ id _
          (λ i. with_body-Keeps body _ (λ r. reply-Keeps _ _ refl (λ a. (_, refl))))).run
        w

  module _ (enabled : Bool) (username password : Text) where
    receive_request-Contract :
        (credentials : Option (Text × Text)) (r : Route) (w : World E)
        → Contract r (receive_request P enabled username password credentials r w).0
    unfolding receive_request basic_auth
    receive_request-Contract credentials r w = elim (Bool-cases enabled) [
      | inr off ↦ rw off (handle-Contract r w)
      | inl on ↦ elim (Bool-cases (denied username password credentials)) [
        | inl barred ↦ rw (on, barred) (refused _ unauthorized refl)
        | inr passed ↦ rw (on, passed) (handle-Contract r w)
      ]
    ]

    -- Every response to a request that matches a route keeps the contract of the API: a success of a
    -- route under `/api/v1` has its status and carries a value of the type of that route, with 202
    -- only for a build; every other response of such a route is an error message with one of 400,
    -- 401, 404, 409 and 500; the probe `/healthz` is always answered 200.
    pub serve_request-Serves :
        (t : Target) (w : World E) → Serves t (serve_request P enabled username password t w).0
    unfolding serve_request
    serve_request-Serves healthz w = (refl, refl)
    serve_request-Serves (api credentials r) w = receive_request-Contract credentials r w
