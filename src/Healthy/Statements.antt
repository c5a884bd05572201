-- ===== src/Healthy/Statements.antt =====
-- The statements where the database answers: the row, or the error that the code makes of its
-- absence, and the tables after a write.
use superkb.Base.{ℕ, ◌≡◌, refl, Option, none, some}
use superkb.Base.Text.{Text}
use superkb.Domain.{KnowledgeBase, Build}
use superkb.Domain.Errors.{Error, Result, ok, err, sentinel, not_found}
use superkb.Postgres.Tables.{Db, find_kb, find_build, update_kb, update_build}
use superkb.Postgres.KnowledgeBases
use superkb.Postgres.Builds
use superkb.World.{World, Ports}
use superkb.World.Calls.{query, read, execute, write}

-- no statement fails but for what is in the tables
abbrev pub Answers : {E : Type 0} → Ports E → Type 0
Answers {E} P = (x : E) → (P.sql_fault x).0 ≡ none

module _ {E : Type 0} (P : Ports E) (up : Answers P) (w : World E) where
  -- the world after one more statement that changed nothing
  abbrev pub after_sql : World E
  after_sql = record w { ext = (P.sql_fault w.ext).1 }

  read-none :
      {A : Type 0} (before : Text) (f : Db → Result A) (r : Option Error × E)
      → r.0 ≡ none
      → read before f w r ≡ (f w.db, record w { ext = r.1 })
  read-none before f (none, x) e = refl
  read-none before f (some d, x) e = cc

  pub query-up :
      {A : Type 0} (before : Text) (f : Db → Result A) → query P before f w ≡ (f w.db, after_sql)
  unfolding query
  query-up before f = read-none before f (P.sql_fault w.ext) (up w.ext)

  write-none :
      (before : Text) (f : Db → Result Db) (db : Db) (r : Option Error × E)
      → r.0 ≡ none
      → f w.db ≡ ok db
      → write before f w r ≡ (ok tt, record w { db = db; ext = r.1 })
  write-none before f db (none, x) e h = rw h
  write-none before f db (some d, x) e h = cc

  pub execute-up :
      (before : Text) (f : Db → Result Db) (db : Db)
      → f w.db ≡ ok db
      → execute P before f w ≡ (ok tt, record w { db = db; ext = (P.sql_fault w.ext).1 })
  unfolding execute
  execute-up before f db = write-none before f db (P.sql_fault w.ext) (up w.ext)

  pub get_kb-found :
      (i : ℕ) (k : KnowledgeBase)
      → find_kb i w.db.knowledge_bases ≡ some k
      → KnowledgeBases.get_by_id P i w ≡ (ok k, after_sql)
  unfolding KnowledgeBases.get_by_id
  get_kb-found i k h = rw (query-up, h)

  pub get_kb-missing :
      (i : ℕ)
      → find_kb i w.db.knowledge_bases ≡ none
      → KnowledgeBases.get_by_id P i w ≡ (err (sentinel not_found), after_sql)
  unfolding KnowledgeBases.get_by_id
  get_kb-missing i h = rw (query-up, h)

  pub get_build-found :
      (i : ℕ) (b : Build)
      → find_build i w.db.kb_builds ≡ some b
      → Builds.get_by_id P i w ≡ (ok b, after_sql)
  unfolding Builds.get_by_id
  get_build-found i b h = rw (query-up, h)

  pub get_build-missing :
      (i : ℕ)
      → find_build i w.db.kb_builds ≡ none
      → Builds.get_by_id P i w ≡ (err (sentinel not_found), after_sql)
  unfolding Builds.get_by_id
  get_build-missing i h = rw (query-up, h)

  pub update_kb-found :
      (k : KnowledgeBase) {old : KnowledgeBase}
      → find_kb k.id w.db.knowledge_bases ≡ some old
      → KnowledgeBases.update P k w ≡ (
        ok tt,
        record w { db = update_kb (KnowledgeBases.kept P k) w.db; ext = (P.sql_fault w.ext).1 },
      )
  unfolding KnowledgeBases.update
  update_kb-found k h = execute-up _ _ (update_kb (KnowledgeBases.kept P k) w.db) (rw h)

  pub update_build-found :
      (b : Build) {old : Build}
      → find_build b.id w.db.kb_builds ≡ some old
      → Builds.update P b w ≡ (
        ok tt,
        record w { db = update_build (Builds.kept P b) w.db; ext = (P.sql_fault w.ext).1 },
      )
  unfolding Builds.update
  update_build-found b h = execute-up _ _ (update_build (Builds.kept P b) w.db) (rw h)
