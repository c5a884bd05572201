-- ===== src/Usecase/Parts.antt =====
-- The constructors of usecase/document.go and usecase/knowledge_base.go. A use case is what it is
-- given, as ports; the repositories are those of Postgres, and the queue is that of the world.
use superkb.Base.{Bool, Option, none}
use superkb.Base.Text.{Text}
use superkb.World.{ObjectStorage, RagIndexer, TextExtractor, DocumentConverter, Ports}

-- `P` has what no constructor is given: google/uuid, the clock, and the faults of the database.
module _ {E : Type 0} (P : Ports E) where
  unfoldable pub new_document_use_case : ObjectStorage E → Option (TextExtractor E) → Text → Ports E
  new_document_use_case storage extractor public_base_url = record P {
    storage = storage;
    extractor = extractor;
    public_base_url = public_base_url;
  }

  -- `feedback` is whether a repository for feedback is given
  unfoldable pub new_knowledge_base_use_case :
      Bool → ObjectStorage E → RagIndexer E → Option (TextExtractor E) → Text → Ports E
  new_knowledge_base_use_case feedback storage indexer extractor public_base_url = record P {
    storage = storage;
    indexer = indexer;
    extractor = extractor;
    converter = none;
    has_feedback = feedback;
    public_base_url = public_base_url;
  }

-- `WithConverter`
unfoldable pub with_converter : {E : Type 0} → Option (DocumentConverter E) → Ports E → Ports E
with_converter c uc = record uc { converter = c }
