-- ===== src/Lifecycle/Outcomes.antt =====
-- What the single operations leave in the tables when they return without an error, and what no
-- request changes: the consequences of the triples, in terms of the operations alone.
use superkb.Base.{ℕ, ◌≡◌, refl, subst, none, some, List}
use superkb.Domain.{Document, Build, pending, ready}
use superkb.Domain.Errors.{Result, ok, err}
use superkb.Lifecycle.Builds.{HasStatus, build-Runs, process_build-ready}
use superkb.Lifecycle.Documents as Documents
use superkb.Lifecycle.Ends.{Any, Ends}
use superkb.Lifecycle.History.{Request, answer_all, answer_all-Reach}
use superkb.Lifecycle.KnowledgeBases as KnowledgeBases
use superkb.Lifecycle.Runs.{Runs}
use superkb.Lifecycle.Snapshot.{Persists, Reach-Persists}
use superkb.Lifecycle.Steps.{Grow}
use superkb.Postgres.Documents as Rows
use superkb.Postgres.Tables.{Db, find_document, find_kb, find_build}
use superkb.Usecase.Builds.{queued, build, process_build}
use superkb.Usecase.Documents.{UploadInput}
use superkb.Usecase.Documents as UsecaseDocuments
use superkb.Usecase.KnowledgeBases as UsecaseKbs
use superkb.World.{World, Ports}
use superkb.World.Calls.{M}

module _ {E A : Type 0} (S : Db → Db → Type 0) (Q : A → Db → Type 0) (X : Db → Type 0) where
  -- what a triple says of a result without an error
  ok-Ends : (db : Db) (r : Result A × World E) (a : A) → r.0 ≡ ok a → Ends S Q X db r → Q a r.1.db
  ok-Ends db (ok b, w) a e h = subst (λ c. Q c w.db) (cc e) h.1
  ok-Ends db (err d, w) a e h = cc

  Runs-ok : (m : M E A) (w : World E) (a : A) → Runs S Any m Q X → (m w).0 ≡ ok a → Q a (m w).1.db
  Runs-ok m w a h e = ok-Ends w.db (m w) a e (h.run w tt)

module _ {E : Type 0} (P : Ports E) (w : World E) where
  -- While no request deletes anything, a build stays in its table: its knowledge base, bank,
  -- number of documents and creation time never change, its status only goes on, and once it
  -- is ready it stays ready.
  pub answer_all-Persists :
      (rs : List Request) (i : ℕ) (b : Build)
      → find_build i w.db.kb_builds ≡ some b
      → Persists i b (answer_all P rs w).db
  answer_all-Persists rs i b h = Reach-Persists i b w.db _ (answer_all-Reach P rs w) h

  -- A document that `Upload` returns is stored under its id, with the times
  -- that the table keeps.
  pub find_document-upload :
      (i : UploadInput) (d : Document)
      → (UsecaseDocuments.upload P i w).0 ≡ ok d
      → find_document d.id (UsecaseDocuments.upload P i w).1.db.documents ≡ some (Rows.kept P d)
  find_document-upload i d e = Runs-ok _ _ _ _ w d (Documents.upload-Runs P i) e

  -- After a `Delete` of a document without an error, its row is gone.
  pub find_document-delete :
      (i : ℕ)
      → (UsecaseDocuments.delete P i w).0 ≡ ok tt
      → find_document i (UsecaseDocuments.delete P i w).1.db.documents ≡ none
  find_document-delete i e = Runs-ok _ _ _ _ w tt (Documents.delete-Runs P i) e

  -- After a `Delete` of a knowledge base without an error, its row is gone.
  pub find_kb-delete :
      (i : ℕ)
      → (UsecaseKbs.delete P i w).0 ≡ ok tt
      → find_kb i (UsecaseKbs.delete P i w).1.db.knowledge_bases ≡ none
  find_kb-delete i e = Runs-ok _ _ _ _ w tt (KnowledgeBases.delete-Runs P i) e

  -- A build that `Build` returns with no error waits in the table as pending.
  pub build_waits :
      (kb : ℕ) (b : Build)
      → (build P kb w).0 ≡ ok (queued b)
      → HasStatus b.id b.document_count pending (build P kb w).1.db
  build_waits kb b e = Runs-ok _ _ _ _ w (queued b) (build-Runs P kb) e

  -- A pending build that `ProcessBuild` processes without an error is ready, with as many
  -- documents.
  pub process_build_ready :
      (i : ℕ) (b : Build)
      → find_build i w.db.kb_builds ≡ some b
      → b.status ≡ pending
      → (process_build P i w).0 ≡ ok tt
      → HasStatus i b.document_count ready (process_build P i w).1.db
  process_build_ready i b h waits e =
      ok-Ends Grow (λ _ db. HasStatus i b.document_count ready db) Any w.db (process_build P i w) tt
        e
        ((process_build-ready P i b.document_count).run w
          (record { row = b; found = h; at = waits; count = refl }))
