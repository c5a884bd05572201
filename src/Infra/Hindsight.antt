-- ===== src/Infra/Hindsight.antt =====
-- infra/hindsight/indexer.go: the client, one definition for each method.
pub mod Messages
pub mod Retaining
pub mod Calls
use superkb.Base.{
  ℕ, zero, suc, ◌≡◌, Option, none, some, List, [], ◌∷◌, ◌++◌, is_nil, map, if◌then◌else◌,
}
use superkb.Base.Int.{pos}
use superkb.Base.Text.{Text, lit}
use superkb.Base.Text.Decimal.{decimal}
use superkb.Config.{HindsightConfig}
use superkb.Domain.Errors.{Error, Result, ok, err, opaque, annotated}
use superkb.Domain.Rag.{RagDocument, Memory, MemoryCuration, SearchResult}
use superkb.Exec.{Exec, pure, fail, lift, observe, annotate, ◌>>=◌, ◌>>◌}
use superkb.Infra.Hindsight.Messages.{
  RetainResponse, RetainMemoriesResponse, MemoryResponse, Payload, empty_object, files_metadata,
  memory_items, curation_of, recall_of, file_metadata, form_file, retain_memory_request,
  curate_memory_request, recall_request, to_domain_memory,
}
use superkb.Infra.Http.{
  Part, file, field, Body, absent, json, form, Request, Response, Transport, is_refusal,
  authorization, formed,
}
use superkb.Infra.Operations.{
  OperationResponse, Verdict, stop, again, idle_verdict, operation_verdict,
}
use superkb.Infra.Recall.{RecallResponse, bank_path, effective_top_k, recall_results}

-- `Indexer`, without its `http.Client`
pub record Indexer : Type 0 where
  pub base_url : Text
  pub api_key : Text
  pub profile : Text

-- `New`; the timeout and the pool of connections are those of the `http.Client`
unfoldable pub new_indexer : HindsightConfig → Indexer
new_indexer cfg = record {
  base_url = cfg.base_url;
  api_key = cfg.api_key;
  profile = if is_nil cfg.profile then lit "default" else cfg.profile;
}

-- what the client calls, and the context of the call
pub record Services (E : Type 0) : Type 0 where
  pub transport : Transport E
  -- `json.Marshal` and `json.Decoder.Decode` at the types of the messages
  pub marshal : Payload → Result Text
  pub decode_retain : ℕ → E → Result RetainResponse × E
  pub decode_operation : ℕ → E → Result OperationResponse × E
  pub decode_operations : ℕ → E → Result (List OperationResponse) × E
  pub decode_memories : ℕ → E → Result RetainMemoriesResponse × E
  pub decode_memory : ℕ → E → Result MemoryResponse × E
  pub decode_recall : ℕ → E → Result RecallResponse × E
  -- `multipart.Writer`: the boundary that it draws, and whether it fails at the head of a part, at
  -- its content, or at the end
  pub form_content_type : E → Text × E
  pub part_fault : Part → Option Error
  pub content_fault : Part → Option Error
  pub close_fault : Option Error
  -- the choice of a polling loop between the context and its timer: the error of the context, or
  -- nothing once the timer has fired
  pub select : E → Option Error × E

-- `bankPath`
abbrev pub path : Indexer → List Text → Text
path C parts = bank_path C.base_url C.profile parts

module _ {E : Type 0} (S : Services E) (C : Indexer) where
  -- the reply to a request: the text of a refusal, or the response decoded
  unfoldable pub answered : {A : Type 0} → Text → Text → (ℕ → Exec E A) → Response → Exec E A
  answered method url decode resp =
      if is_refusal resp.status
      then (observe (S.transport.read_limited 2048 resp.body) >>= λ msg. fail (
          opaque (
            lit "hindsight: "
            ++ (method
                ++ (lit " "
                    ++ (url
                        ++ (lit " failed (status "
                            ++ (decimal resp.status ++ (lit "): " ++ msg)))))))))
      else annotate (lit "hindsight: decode response") (decode resp.body)

  -- what `do` and `doMultipart` do with a request
  unfoldable pub exchange : {A : Type 0} → (ℕ → Exec E A) → Request → Exec E A
  exchange decode req =
      formed (lit "hindsight: new request") (S.transport.request_fault req.method req.url) (
        annotate (lit "hindsight: " ++ (req.method ++ (lit " " ++ req.url))) (S.transport.send req)
        >>= λ resp. answered req.method req.url decode resp)

  -- the request of `do`, with a payload that is marshalled
  abbrev pub json_request : Text → Text → Text → Request
  json_request method url text = record {
    method = method;
    url = url;
    headers = (lit "Content-Type", lit "application/json") ∷ authorization C.api_key;
    body = json text;
  }

  -- the request of `do` without a payload
  abbrev pub plain_request : Text → Text → Request
  plain_request method url = record {
    method = method;
    url = url;
    headers = authorization C.api_key;
    body = absent;
  }

  -- `do` with a payload
  unfoldable pub send_json : {A : Type 0} → Text → Text → Payload → (ℕ → Exec E A) → Exec E A
  send_json method url payload decode =
      annotate (lit "hindsight: marshal request") (lift (S.marshal payload)) >>= λ text.
      exchange decode (json_request method url text)

  -- `do` with no payload
  unfoldable pub send_plain : {A : Type 0} → Text → Text → (ℕ → Exec E A) → Exec E A
  send_plain method url decode = exchange decode (plain_request method url)

  -- `out == nil`: the response is not decoded
  abbrev pub undecoded : ℕ → Exec E (Unit {0})
  undecoded body = pure tt

  -- `doMultipart`
  unfoldable pub send_form : Text → Text → List Part → Exec E RetainResponse
  send_form url content_type parts = exchange S.decode_retain (record {
    method = lit "POST";
    url = url;
    headers = (lit "Content-Type", content_type) ∷ authorization C.api_key;
    body = form parts;
  })
