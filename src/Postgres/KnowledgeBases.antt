-- ===== src/Postgres/KnowledgeBases.antt =====
-- postgres/knowledge_base_repository.go: knowledge bases and their members.
use superkb.Base.{ℕ, ◌&&◌, List, take, drop, sort_by, select_where, exists_where, leb}
use superkb.Base.{if◌then◌else◌}
use superkb.Base.Text.{lit}
use superkb.Domain.{Document, KnowledgeBase}
use superkb.Domain.Errors.{ok, err, opaque, sentinel, not_found, annotated}
use superkb.Postgres.Tables.{
  Db, is_member, has_document, has_kb, find_kb, insert_kb, update_kb, delete_kb, insert_member,
  delete_member,
}
use superkb.Postgres.Documents.{or_not_found}
use superkb.World.{Ports}
use superkb.World.Calls.{M, query, execute}

-- the JOIN of `ListDocuments`: the documents with a membership row of the knowledge base
unfoldable pub members : ℕ → Db → List Document
members kb db =
    sort_by (λ d e. leb d.created_at e.created_at)
      (select_where (λ d. exists_where (is_member kb d.id) db.kb_documents) db.documents)

module _ {E : Type 0} (P : Ports E) where
  -- the row of a knowledge base
  abbrev pub kept : KnowledgeBase → KnowledgeBase
  kept k = record k {
    created_at = P.column_time k.created_at;
    updated_at = P.column_time k.updated_at;
  }

  unfoldable pub create : KnowledgeBase → M E (Unit {0})
  create k = execute P (lit "postgres: create knowledge base") λ db.
      if has_kb k.id db
      then err
          (annotated (lit "postgres: create knowledge base") (opaque (lit "knowledge_bases_pkey")))
      else ok (insert_kb (kept k) db)

  unfoldable pub get_by_id : ℕ → M E KnowledgeBase
  get_by_id id =
      query P (lit "postgres: get knowledge base")
        λ db. or_not_found (find_kb id db.knowledge_bases)

  unfoldable pub list : ℕ → ℕ → M E (List KnowledgeBase)
  list limit offset = query P (lit "postgres: list knowledge bases") λ db.
      ok (
        take limit
          (drop offset (sort_by (λ j k. leb k.created_at j.created_at) db.knowledge_bases)))

  unfoldable pub update : KnowledgeBase → M E (Unit {0})
  update k =
      execute P (lit "postgres: update knowledge base")
        λ db. if has_kb k.id db then ok (update_kb (kept k) db) else err (sentinel not_found)

  unfoldable pub delete : ℕ → M E (Unit {0})
  delete id =
      execute P (lit "postgres: delete knowledge base")
        λ db. if has_kb id db then ok (delete_kb id db) else err (sentinel not_found)

  -- both columns are foreign keys
  unfoldable pub add_document : ℕ → ℕ → M E (Unit {0})
  add_document kb doc = execute P (lit "postgres: add document to kb") λ db.
      if has_kb kb db && has_document doc db
      then ok (insert_member kb doc db)
      else err (annotated (lit "postgres: add document to kb") (opaque (lit "kb_documents_fkey")))

  unfoldable pub remove_document : ℕ → ℕ → M E (Unit {0})
  remove_document kb doc =
      execute P (lit "postgres: remove document from kb") λ db. ok (delete_member kb doc db)

  unfoldable pub list_documents : ℕ → M E (List Document)
  list_documents kb = query P (lit "postgres: list kb documents") λ db. ok (members kb db)
