-- ===== src/Delivery/Views.antt =====
-- The bodies of the responses of delivery/http. `omitempty` concerns their encoding only.
use superkb.Base.{ℕ, Bool, Option, none, some, List, length}
use superkb.Base.Text.{Text, lit}
use superkb.Domain.{Document, KnowledgeBase, Build, Metadata, is_searchable, status_text}
use superkb.Domain.Rag.{Memory, MemoryType, world, experience, observation, other, SearchResult}
use superkb.Usecase.Documents.{DocumentSource}
use superkb.Usecase.Memories.{MemoryConsensusResult}
use superkb.World.{Ports}

pub record DocumentResponse : Type 0 where
  pub id : ℕ
  pub title : Text
  pub filename : Text
  pub content_type : Text
  pub storage_key : Text
  pub size_bytes : ℕ
  pub metadata : Metadata
  pub created_at : Text
  pub updated_at : Text

pub record DocumentSourceResponse : Type 0 where
  pub id : ℕ
  pub title : Text
  pub filename : Text
  pub file_url : Text
  pub page_count : ℕ
  pub pages : List Text

pub record KbResponse : Type 0 where
  pub id : ℕ
  pub name : Text
  pub description : Text
  pub enabled : Bool
  pub active_build_id : Option Text
  pub searchable : Bool
  pub created_at : Text
  pub updated_at : Text

pub record BuildResponse : Type 0 where
  pub id : ℕ
  pub knowledge_base_id : ℕ
  pub bank_id : Text
  pub status : Text
  pub document_count : ℕ
  pub error : Text
  pub created_at : Text
  pub updated_at : Text

pub record MemoryResponse : Type 0 where
  pub id : Text
  pub content : Text
  pub type : Text
  pub context : Text
  pub tags : List Text
  pub metadata : List (Text × Text)

-- the score is left out, as it is in `SearchResult`
pub record SearchHit : Type 0 where
  pub memory_id : Text
  pub document_id : Text
  pub content : Text
  pub context : Text
  pub entities : List Text
  pub chunk_id : Text
  pub chunk_index : ℕ
  pub chunk_text : Text
  pub file_url : Text
  pub filename : Text
  pub page : ℕ

-- the body of a response that carries a value
pub data Body : Type 0 where
  document : DocumentResponse → Body
  documents : List DocumentResponse → Body
  source : DocumentSourceResponse → Body
  knowledge_base : KbResponse → Body
  knowledge_bases : List KbResponse → Body
  build : BuildResponse → Body
  builds : List BuildResponse → Body
  memory : MemoryResponse → Body
  consensus : MemoryConsensusResult → Body
  results : List SearchHit → Body
  -- the field `status` of `/healthz`
  health : Text → Body

-- `string(m.Type)`
unfoldable pub type_text : MemoryType → Text
type_text world = lit "world"
type_text experience = lit "experience"
type_text observation = lit "observation"
type_text (other s) = s

-- `toMemoryResponse`
unfoldable pub to_memory_response : Memory → MemoryResponse
to_memory_response m = record {
  id = m.id;
  content = m.content;
  type = type_text m.type;
  context = m.context;
  tags = m.tags;
  metadata = m.metadata;
}

-- the loop of the handler `search`
unfoldable pub to_search_hit : SearchResult → SearchHit
to_search_hit r = record {
  memory_id = r.memory_id;
  document_id = r.document_id;
  content = r.content;
  context = r.context;
  entities = r.entities;
  chunk_id = r.chunk_id;
  chunk_index = r.chunk_index;
  chunk_text = r.chunk_text;
  file_url = r.file_url;
  filename = r.filename;
  page = r.page;
}

-- the body of the handler `source`
unfoldable pub to_source_response : DocumentSource → DocumentSourceResponse
to_source_response s = record {
  id = s.document.id;
  title = s.document.title;
  filename = s.document.filename;
  file_url = s.file_url;
  page_count = length s.pages;
  pages = s.pages;
}

module _ {E : Type 0} (P : Ports E) where
  -- `toDocumentResponse`
  unfoldable pub to_document_response : Document → DocumentResponse
  to_document_response d = record {
    id = d.id;
    title = d.title;
    filename = d.filename;
    content_type = d.content_type;
    storage_key = d.storage_key;
    size_bytes = d.size_bytes;
    metadata = d.metadata;
    created_at = P.time_text d.created_at;
    updated_at = P.time_text d.updated_at;
  }

  abbrev id_text : Option ℕ → Option Text
  id_text none = none
  id_text (some id) = some (P.uuid_text id)

  -- `toKBResponse`
  unfoldable pub to_kb_response : KnowledgeBase → KbResponse
  to_kb_response k = record {
    id = k.id;
    name = k.name;
    description = k.description;
    enabled = k.enabled;
    active_build_id = id_text k.active_build_id;
    searchable = is_searchable k;
    created_at = P.time_text k.created_at;
    updated_at = P.time_text k.updated_at;
  }

  -- `toBuildResponse`
  unfoldable pub to_build_response : Build → BuildResponse
  to_build_response b = record {
    id = b.id;
    knowledge_base_id = b.knowledge_base_id;
    bank_id = b.bank_id;
    status = status_text b.status;
    document_count = b.document_count;
    error = b.error;
    created_at = P.time_text b.created_at;
    updated_at = P.time_text b.updated_at;
  }
