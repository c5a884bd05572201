-- ===== src/Domain/Rag.antt =====
-- internal/domain/ports.go: the data that passes through the ports.
use superkb.Base.{ℕ, Bool, List}
use superkb.Base.Text.{Text}

pub data MemoryType : Type 0 where
  world experience observation : MemoryType
  -- any other text that the indexer returns
  other : Text → MemoryType

pub record Memory : Type 0 where
  pub id : Text
  pub content : Text
  pub type : MemoryType
  pub context : Text
  pub tags : List Text
  pub metadata : List (Text × Text)

pub record MemoryCuration : Type 0 where
  pub text : Text
  pub state : Text

pub record MemoryFeedback : Type 0 where
  pub knowledge_base_id : ℕ
  pub memory_id : Text
  pub reviewer : Text
  pub vote : Text
  pub proposed_text : Text

pub record MemoryConsensus : Type 0 where
  pub memory_id : Text
  pub proposed_text : Text
  pub approvals : ℕ
  pub rejections : ℕ
  pub status : Text
  pub applied : Bool

-- `Score` is left out: no code sets it.
pub record SearchResult : Type 0 where
  pub memory_id : Text
  pub document_id : Text
  pub content : Text
  pub context : Text
  pub entities : List Text
  pub chunk_id : Text
  pub chunk_index : ℕ
  pub chunk_text : Text
  pub file_url : Text
  pub filename : Text
  pub page : ℕ

pub record RagDocument : Type 0 where
  pub document_id : Text
  pub title : Text
  pub filename : Text
  pub content : Text
  pub metadata : List (Text × Text)
