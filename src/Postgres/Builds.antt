-- ===== src/Postgres/Builds.antt =====
-- postgres/knowledge_base_repository.go: builds.
use superkb.Base.{ℕ, not, ◌==◌, List, sort_by, select_where, leb, if◌then◌else◌}
use superkb.Base.Text.{lit}
use superkb.Domain.{Build}
use superkb.Domain.Errors.{ok, err, opaque, sentinel, not_found, annotated}
use superkb.Postgres.Tables.{has_kb, has_build, find_build, insert_build, update_build}
use superkb.Postgres.Documents.{or_not_found}
use superkb.World.{Ports}
use superkb.World.Calls.{M, query, execute}

module _ {E : Type 0} (P : Ports E) where
  -- the row of a build
  abbrev pub kept : Build → Build
  kept b = record b {
    created_at = P.column_time b.created_at;
    updated_at = P.column_time b.updated_at;
  }

  -- the knowledge base is a foreign key
  unfoldable pub create : Build → M E (Unit {0})
  create b = execute P (lit "postgres: create build") λ db.
      if has_build b.id db
      then err (annotated (lit "postgres: create build") (opaque (lit "kb_builds_pkey")))
      else if not (has_kb b.knowledge_base_id db)
      then err (annotated (lit "postgres: create build") (opaque (lit "kb_builds_fkey")))
      else ok (insert_build (kept b) db)

  unfoldable pub get_by_id : ℕ → M E Build
  get_by_id id = query P (lit "postgres: get build") λ db. or_not_found (find_build id db.kb_builds)

  unfoldable pub update : Build → M E (Unit {0})
  update b =
      execute P (lit "postgres: update build")
        λ db. if has_build b.id db then ok (update_build (kept b) db) else err (sentinel not_found)

  unfoldable pub list : ℕ → M E (List Build)
  list kb = query P (lit "postgres: list builds") λ db. ok (
      sort_by (λ b c. leb c.created_at b.created_at)
        (select_where (λ b. b.knowledge_base_id == kb) db.kb_builds))
