-- ===== src/Domain.antt =====
-- internal/domain: the entities, their validation, and the sentinel errors. A `uuid.UUID` is a
-- number, a `time.Time` is a number, a Go string or byte slice is a `Text`.
pub mod Errors
pub mod Rag
use superkb.Base.{ℕ, Bool, true, false, ◌&&◌, Option, none, some, List, ◌∷◌, [], ◌++◌}
use superkb.Base.{is_nil, if◌then◌else◌}
use superkb.Base.Text.{Text, lit}
use Errors.{Error, Result, ok, err, invalid_input, sentinel, opaque, join}

-- `map[string]string`, in the order in which it was read
abbrev pub Metadata : Type 0
Metadata = List (Text × Text)

pub record Document : Type 0 where
  pub id : ℕ
  pub title : Text
  pub filename : Text
  pub content_type : Text
  pub storage_key : Text
  pub size_bytes : ℕ
  pub metadata : Metadata
  pub created_at : ℕ
  pub updated_at : ℕ

-- `Document.Validate`
unfoldable pub validate_document : Document → Result (Unit {0})
validate_document d =
    if is_nil d.title
    then err (join (sentinel invalid_input) (opaque (lit "document title is required")))
    else if is_nil d.storage_key
    then err (join (sentinel invalid_input) (opaque (lit "document storage key is required")))
    else ok tt

pub data BuildStatus : Type 0 where
  pending processing ready failed : BuildStatus

pub record KnowledgeBase : Type 0 where
  pub id : ℕ
  pub name : Text
  pub description : Text
  pub enabled : Bool
  pub active_build_id : Option ℕ
  pub created_at : ℕ
  pub updated_at : ℕ

pub record Build : Type 0 where
  pub id : ℕ
  pub knowledge_base_id : ℕ
  pub bank_id : Text
  pub status : BuildStatus
  pub document_count : ℕ
  pub error : Text
  pub created_at : ℕ
  pub updated_at : ℕ

-- `KnowledgeBase.Validate`
unfoldable pub validate_knowledge_base : KnowledgeBase → Result (Unit {0})
validate_knowledge_base k =
    if is_nil k.name
    then err (join (sentinel invalid_input) (opaque (lit "knowledge base name is required")))
    else ok tt

-- `k.ActiveBuildID != nil`
abbrev pub is_some {ℓ} : {A : Type ℓ} → Option A → Bool
is_some none = false
is_some (some a) = true

-- `KnowledgeBase.IsSearchable`
unfoldable pub is_searchable : KnowledgeBase → Bool
is_searchable k = k.enabled && is_some k.active_build_id

-- the strings of the `BuildStatus` constants
unfoldable pub status_text : BuildStatus → Text
status_text pending = lit "pending"
status_text processing = lit "processing"
status_text ready = lit "ready"
status_text failed = lit "failed"

-- `build.Status == BuildPending`
abbrev pub is_pending : BuildStatus → Bool
is_pending pending = true
is_pending processing = false
is_pending ready = false
is_pending failed = false

-- `build.Status == BuildReady`
abbrev pub is_ready : BuildStatus → Bool
is_ready pending = false
is_ready processing = false
is_ready ready = true
is_ready failed = false
