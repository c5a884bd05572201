-- ===== src/Delivery/KnowledgeBases.antt =====
-- delivery/http/knowledge_base_handler.go. A request body is what `Decode` makes of it, if anything.
use superkb.Base.{ℕ, Bool, List, Option, is_nil, map, if◌then◌else◌}
use superkb.Base.Text.{Text, lit}
use superkb.Base.Text.Decimal.{atoi_value}
use superkb.Delivery.Handlers.{Handler, reply, reply_nothing, with_body, with_id, with_uuid}
use superkb.Delivery.Response.{Response, write_json, write_error, write_domain_error}
use superkb.Delivery.Views.{
  Body, knowledge_base, knowledge_bases, build, builds, memory, consensus, results, to_kb_response,
  to_build_response, to_memory_response, to_search_hit,
}
use superkb.Domain.Errors.{Result, ok, err}
use superkb.Usecase.Builds as Building
use superkb.Usecase.Builds.{Scheduled, queued, unqueued}
use superkb.Usecase.KnowledgeBases as Usecase
use superkb.Usecase.Memories as Memories
use superkb.Usecase.Memories.{RetainMemoryInput, CurateMemoryInput, MemoryFeedbackInput}
use superkb.Usecase.Search.{SearchOptions, search_kb}
use superkb.World.{World, Ports}

pub record CreateKbRequest : Type 0 where
  pub name : Text
  pub description : Text

pub record EnableRequest : Type 0 where
  pub build_id : Text

pub record SearchRequest : Type 0 where
  pub query : Text
  pub top_k : ℕ
  pub include_references : Bool

pub record RetainExperienceRequest : Type 0 where
  pub content : Text
  pub context : Text
  pub tags : List Text
  pub metadata : List (Text × Text)

pub record CurateMemoryRequestBody : Type 0 where
  pub text : Text
  pub state : Text

pub record MemoryFeedbackRequest : Type 0 where
  pub reviewer : Text
  pub vote : Text
  pub proposed_text : Text

abbrev pub retain_input : RetainExperienceRequest → RetainMemoryInput
retain_input r = record {
  content = r.content;
  context = r.context;
  tags = r.tags;
  metadata = r.metadata;
}

abbrev pub curate_input : CurateMemoryRequestBody → CurateMemoryInput
curate_input r = record { text = r.text; state = r.state }

abbrev pub feedback_input : MemoryFeedbackRequest → MemoryFeedbackInput
feedback_input r = record { reviewer = r.reviewer; vote = r.vote; proposed_text = r.proposed_text }

abbrev pub search_options : SearchRequest → SearchOptions
search_options r = record { top_k = r.top_k; include_references = r.include_references }

module _ {E : Type 0} (P : Ports E) where
  unfoldable pub create : Option CreateKbRequest → Handler E
  create body = with_body body λ r.
      reply 201 (λ k. knowledge_base (to_kb_response P k)) (Usecase.create P r.name r.description)

  unfoldable pub list : Text → Text → Handler E
  unfolding atoi_value
  list limit offset =
      reply 200 (λ ks. knowledge_bases (map (to_kb_response P) ks))
        (Usecase.list P (atoi_value limit) (atoi_value offset))

  unfoldable pub get : Text → Handler E
  get id =
      with_id P (lit "id") id
        λ i. reply 200 (λ k. knowledge_base (to_kb_response P k)) (Usecase.get P i)

  unfoldable pub delete : Text → Handler E
  delete id = with_id P (lit "id") id λ i. reply_nothing (Usecase.delete P i)

  unfoldable pub add_document : Text → Text → Handler E
  add_document id doc_id =
      with_id P (lit "id") id
        λ i. with_id P (lit "docID") doc_id λ d. reply_nothing (Usecase.add_document P i d)

  unfoldable pub remove_document : Text → Text → Handler E
  remove_document id doc_id =
      with_id P (lit "id") id
        λ i. with_id P (lit "docID") doc_id λ d. reply_nothing (Usecase.remove_document P i d)

  -- a build that could not be queued is shown with its error, as accepted
  abbrev pub shown : Result Scheduled × World E → Response Body × World E
  shown (ok (queued b), w) = (write_json 201 (build (to_build_response P b)), w)
  shown (ok (unqueued b e), w) = (write_json 202 (build (to_build_response P b)), w)
  shown (err e, w) = (write_domain_error e, w)

  -- the handler `build`
  unfoldable pub start_build : Text → Handler E
  start_build id = with_id P (lit "id") id λ i w. shown (Building.build P i w)

  unfoldable pub list_builds : Text → Handler E
  list_builds id =
      with_id P (lit "id") id
        λ i. reply 200 (λ bs. builds (map (to_build_response P) bs)) (Usecase.list_builds P i)

  unfoldable pub enable : Text → Option EnableRequest → Handler E
  enable id body = with_id P (lit "id") id λ i. with_body body λ r.
      with_uuid P (lit "invalid build_id") r.build_id
        λ b. reply 200 (λ k. knowledge_base (to_kb_response P k)) (Usecase.enable P i b)

  unfoldable pub disable : Text → Handler E
  disable id =
      with_id P (lit "id") id
        λ i. reply 200 (λ k. knowledge_base (to_kb_response P k)) (Usecase.disable P i)

  -- the parameter `memoryID`, which may not be empty
  abbrev pub with_memory_id : Text → Handler E → Handler E
  with_memory_id memory_id next w =
      if is_nil memory_id then (write_error 400 (lit "invalid memoryID"), w) else next w

  unfoldable pub retain_experience : Text → Option RetainExperienceRequest → Handler E
  retain_experience id body = with_id P (lit "id") id λ i. with_body body λ r.
      reply 201 (λ m. memory (to_memory_response m))
        (Memories.retain_experience P i (retain_input r))

  unfoldable pub curate_memory : Text → Text → Option CurateMemoryRequestBody → Handler E
  curate_memory id memory_id body = with_id P (lit "id") id λ i. with_memory_id memory_id (
      with_body body λ r.
        reply 200 (λ m. memory (to_memory_response m))
          (Memories.curate_memory P i memory_id (curate_input r)))

  unfoldable pub submit_memory_feedback : Text → Text → Option MemoryFeedbackRequest → Handler E
  submit_memory_feedback id memory_id body = with_id P (lit "id") id λ i. with_memory_id memory_id (
      with_body body
        λ r. reply 200 consensus (Memories.submit_memory_feedback P i memory_id (feedback_input r)))

  -- the handler `search`
  unfoldable pub answer_search : Text → Option SearchRequest → Handler E
  answer_search id body = with_id P (lit "id") id λ i. with_body body λ r.
      reply 200 (λ rs. results (map to_search_hit rs)) (search_kb P i r.query (search_options r))
