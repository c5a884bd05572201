-- ===== src/Rules/Contract.antt =====
-- The contract of the HTTP API: what each of its routes may answer.
pub mod Keeping
use superkb.Base.{ℕ, ◌≡◌, ◌⊎◌, List}
use superkb.Base.Text.{Text, lit}
use superkb.Delivery.Api.{
  Route, Target, healthz, api, post_document, get_documents, get_document, delete_document,
  get_document_source, post_knowledge_base, get_knowledge_bases, get_knowledge_base,
  delete_knowledge_base, put_kb_document, delete_kb_document, post_build, get_builds, post_enable,
  post_disable, post_experience, patch_memory, post_feedback, post_search,
}
use superkb.Delivery.Response.{Response, Payload, value, message, nothing}
use superkb.Delivery.Views as Views
use superkb.Delivery.Views.{
  Body, DocumentResponse, DocumentSourceResponse, KbResponse, BuildResponse, MemoryResponse,
  SearchHit,
}
use superkb.Usecase.Memories.{MemoryConsensusResult}

-- the statuses that come with an error message
pub data IsRefusal : ℕ → Type 0 where
  bad_request : IsRefusal 400
  unauthorized : IsRefusal 401
  missing : IsRefusal 404
  conflicting : IsRefusal 409
  broken : IsRefusal 500

-- a response is a value of `A` with a status of `S`, shown by `view`, or an error
pub data Answers {A : Type 0} (S : ℕ → Type 0) (view : A → Payload Body) (x : Response Body)
    : Type 0 where
  answered : (a : A) → S x.status → x.payload ≡ view a → Answers S view x
  refused : (t : Text) → IsRefusal x.status → x.payload ≡ message t → Answers S view x

-- what a success of a route carries
abbrev pub Answer : Route → Type 0
Answer (post_document _) = DocumentResponse
Answer (get_documents _ _) = List DocumentResponse
Answer (get_document _) = DocumentResponse
Answer (delete_document _) = Unit {0}
Answer (get_document_source _) = DocumentSourceResponse
Answer (post_knowledge_base _) = KbResponse
Answer (get_knowledge_bases _ _) = List KbResponse
Answer (get_knowledge_base _) = KbResponse
Answer (delete_knowledge_base _) = Unit {0}
Answer (put_kb_document _ _) = Unit {0}
Answer (delete_kb_document _ _) = Unit {0}
Answer (post_build _) = BuildResponse
Answer (get_builds _) = List BuildResponse
Answer (post_enable _ _) = KbResponse
Answer (post_disable _) = KbResponse
Answer (post_experience _ _) = MemoryResponse
Answer (patch_memory _ _ _) = MemoryResponse
Answer (post_feedback _ _ _) = MemoryConsensusResult
Answer (post_search _ _) = List SearchHit

abbrev pub view_of : (r : Route) → Answer r → Payload Body
view_of (post_document _) d = value (Views.document d)
view_of (get_documents _ _) ds = value (Views.documents ds)
view_of (get_document _) d = value (Views.document d)
view_of (delete_document _) _ = nothing
view_of (get_document_source _) s = value (Views.source s)
view_of (post_knowledge_base _) k = value (Views.knowledge_base k)
view_of (get_knowledge_bases _ _) ks = value (Views.knowledge_bases ks)
view_of (get_knowledge_base _) k = value (Views.knowledge_base k)
view_of (delete_knowledge_base _) _ = nothing
view_of (put_kb_document _ _) _ = nothing
view_of (delete_kb_document _ _) _ = nothing
view_of (post_build _) b = value (Views.build b)
view_of (get_builds _) bs = value (Views.builds bs)
view_of (post_enable _ _) k = value (Views.knowledge_base k)
view_of (post_disable _) k = value (Views.knowledge_base k)
view_of (post_experience _ _) m = value (Views.memory m)
view_of (patch_memory _ _ _) m = value (Views.memory m)
view_of (post_feedback _ _ _) c = value (Views.consensus c)
view_of (post_search _ _) hs = value (Views.results hs)

-- what is created is answered 201, what has no body 204; a build may be accepted only
abbrev pub Succeeds : Route → ℕ → Type 0
Succeeds (post_document _) n = n ≡ 201
Succeeds (get_documents _ _) n = n ≡ 200
Succeeds (get_document _) n = n ≡ 200
Succeeds (delete_document _) n = n ≡ 204
Succeeds (get_document_source _) n = n ≡ 200
Succeeds (post_knowledge_base _) n = n ≡ 201
Succeeds (get_knowledge_bases _ _) n = n ≡ 200
Succeeds (get_knowledge_base _) n = n ≡ 200
Succeeds (delete_knowledge_base _) n = n ≡ 204
Succeeds (put_kb_document _ _) n = n ≡ 204
Succeeds (delete_kb_document _ _) n = n ≡ 204
Succeeds (post_build _) n = (n ≡ 201) ⊎ (n ≡ 202)
Succeeds (get_builds _) n = n ≡ 200
Succeeds (post_enable _ _) n = n ≡ 200
Succeeds (post_disable _) n = n ≡ 200
Succeeds (post_experience _ _) n = n ≡ 201
Succeeds (patch_memory _ _ _) n = n ≡ 200
Succeeds (post_feedback _ _ _) n = n ≡ 200
Succeeds (post_search _ _) n = n ≡ 200

abbrev pub Contract : Route → Response Body → Type 0
Contract r = Answers (Succeeds r) (view_of r)

-- the contract with the probe, which is always answered
abbrev pub Serves : Target → Response Body → Type 0
Serves healthz x = (x.status ≡ 200) × (x.payload ≡ value (Views.health (lit "ok")))
Serves (api _ r) x = Contract r x
