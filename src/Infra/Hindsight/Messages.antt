-- ===== src/Infra/Hindsight/Messages.antt =====
-- infra/hindsight/indexer.go: the messages of the client, and what they are built from.
use superkb.Base.{ℕ, ◌-◌, ◌*◌, Bool, List, is_nil, if◌then◌else◌, ltb}
use Prim.Native.Nat.{◌%◌, ◌^◌}
use superkb.Base.Int.{ℤ, pos, negsuc}
use superkb.Base.Text.{Text, lit, text_eq}
use superkb.Domain.Rag.{
  RagDocument, Memory, MemoryCuration, MemoryType, world, experience, observation, other,
}
use superkb.Infra.Http.{Part, file}

pub record RetainResponse : Type 0 where
  pub operation_id : Text
  pub operation_ids : List Text

pub record FileMetadata : Type 0 where
  pub document_id : Text
  pub context : Text
  pub timestamp : Text
  pub metadata : List (Text × Text)

pub record RetainMemoryRequest : Type 0 where
  pub content : Text
  pub context : Text
  pub metadata : List (Text × Text)
  pub tags : List Text

pub record MemoryResponse : Type 0 where
  pub id : Text
  pub text : Text
  pub type : Text
  pub context : Text
  pub tags : List Text
  pub metadata : List (Text × Text)

pub record RetainMemoriesResponse : Type 0 where
  pub success : Bool
  pub bank_id : Text
  pub items_count : ℕ
  pub async : Bool

pub record CurateMemoryRequest : Type 0 where
  pub text : Text
  pub state : Text

-- `recallRequest` with its `recallInclude`
pub record RecallRequest : Type 0 where
  pub query : Text
  pub max_tokens : ℤ
  pub max_chunk_tokens : ℕ

-- what is marshalled for a request
pub data Payload : Type 0 where
  -- `map[string]any{}`
  empty_object : Payload
  -- `fileRetainRequest`
  files_metadata : List FileMetadata → Payload
  -- `retainMemoriesRequest`
  memory_items : List RetainMemoryRequest → Payload
  curation_of : CurateMemoryRequest → Payload
  recall_of : RecallRequest → Payload

-- the file of a document, under its id where it has no file name
unfoldable pub form_file : RagDocument → Part
form_file d = file (lit "files") (if is_nil d.filename then d.document_id else d.filename) d.content

-- its entry of `files_metadata`
unfoldable pub file_metadata : RagDocument → FileMetadata
file_metadata d = record {
  document_id = d.document_id;
  context = d.title;
  timestamp = lit "unset";
  metadata = d.metadata;
}

unfoldable pub retain_memory_request : Memory → RetainMemoryRequest
retain_memory_request m = record {
  content = m.content;
  context = m.context;
  metadata = m.metadata;
  tags = m.tags;
}

unfoldable pub curate_memory_request : MemoryCuration → CurateMemoryRequest
curate_memory_request c = record { text = c.text; state = c.state }

-- a product of the `int` type, which wraps around
unfoldable pub as_signed : ℕ → ℤ
as_signed n = let m = n % 2 ^ 64 in if ltb m (2 ^ 63) then pos m else negsuc (2 ^ 64 - 1 - m)

-- the request of `Recall`, where `top_k` is positive
unfoldable pub recall_request : Text → ℕ → RecallRequest
unfolding as_signed
recall_request query top_k = record {
  query = query;
  max_tokens = as_signed (top_k * 256);
  max_chunk_tokens = 500;
}

-- `domain.MemoryType(t)`
unfoldable pub memory_type : Text → MemoryType
memory_type t =
    if text_eq t (lit "world")
    then world
    else if text_eq t (lit "experience")
    then experience
    else if text_eq t (lit "observation")
    then observation
    else other t

-- `toDomainMemory`
unfoldable pub to_domain_memory : MemoryResponse → Memory
unfolding memory_type
to_domain_memory m = record {
  id = m.id;
  content = m.text;
  type = memory_type m.type;
  context = m.context;
  tags = m.tags;
  metadata = m.metadata;
}
