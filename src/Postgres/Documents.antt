-- ===== src/Postgres/Documents.antt =====
-- postgres/document_repository.go. Rows of equal `created_at` may come in any order; here the
-- older row is first.
use superkb.Base.{ℕ, Option, none, some, List, take, drop, sort_by, leb, if◌then◌else◌}
use superkb.Base.Text.{lit}
use superkb.Domain.{Document}
use superkb.Domain.Errors.{Result, ok, err, opaque, sentinel, not_found, annotated}
use superkb.Postgres.Tables.{has_document, find_document, insert_document, delete_document}
use superkb.World.{Ports}
use superkb.World.Calls.{M, query, execute}

-- `pgx.ErrNoRows` becomes `domain.ErrNotFound`
abbrev pub or_not_found : {A : Type 0} → Option A → Result A
or_not_found none = err (sentinel not_found)
or_not_found (some a) = ok a

module _ {E : Type 0} (P : Ports E) where
  -- the row of a document
  abbrev pub kept : Document → Document
  kept d = record d {
    created_at = P.column_time d.created_at;
    updated_at = P.column_time d.updated_at;
  }

  unfoldable pub create : Document → M E (Unit {0})
  create d = execute P (lit "postgres: create document") λ db.
      if has_document d.id db
      then err (annotated (lit "postgres: create document") (opaque (lit "documents_pkey")))
      else ok (insert_document (kept d) db)

  unfoldable pub get_by_id : ℕ → M E Document
  get_by_id id =
      query P (lit "postgres: get document") λ db. or_not_found (find_document id db.documents)

  unfoldable pub list : ℕ → ℕ → M E (List Document)
  list limit offset = query P (lit "postgres: list documents") λ db.
      ok (take limit (drop offset (sort_by (λ d e. leb e.created_at d.created_at) db.documents)))

  unfoldable pub delete : ℕ → M E (Unit {0})
  delete id =
      execute P (lit "postgres: delete document")
        λ db. if has_document id db then ok (delete_document id db) else err (sentinel not_found)
