-- ===== src/Healthy/Content.antt =====
-- internal/usecase/document.go: `Source` of a document after its `Upload`, where the database
-- answers and the object storage shows what it was given.
use superkb.Base.{◌≡◌, ap, subst, some, List}
use superkb.Base.Text.{Text}
use superkb.Domain.{Document}
use superkb.Domain.Errors.{Result, ok, err}
use superkb.Exec.{pure, resume, ◌>>=◌}
use superkb.Healthy.Statements.{Answers, query-up, after_sql}
use superkb.Lifecycle.Outcomes.{find_document-upload}
use superkb.Postgres.Documents as Repository
use superkb.Postgres.Documents.{or_not_found}
use superkb.Postgres.Tables.{Db, find_document}
use superkb.Rules.Content.{Keeps, Fetched, fetched, upload-Holds}
use superkb.Usecase.Documents.{UploadInput, DocumentSource, upload, pages_of, source}
use superkb.Usecase.References.{file_url}
use superkb.World.{World, Ports}
use superkb.World.Calls.{call}

-- the source view of a document with these pages
abbrev pub view_of : {E : Type 0} → Ports E → Document → List Text → DocumentSource
view_of P d pages = record {
  document = d;
  file_url = file_url P.public_base_url d.storage_key;
  pages = pages;
}

-- the document has its row
abbrev Stored : Document → Db → Type 0
Stored d db = find_document d.id db.documents ≡ some d

module _ {E : Type 0} (P : Ports E) (up : Answers P) where
  call-at :
      {A : Type 0} (f : E → Result A × E) (w : World E) (a : A) (x : E)
      → f w.ext ≡ (ok a, x)
      → call f w ≡ (ok a, record w { ext = x })
  unfolding call
  call-at f w a x h = rw h

  pub get_by_id-found :
      (d : Document) (w : World E)
      → Stored d w.db
      → Repository.get_by_id P d.id w ≡ (ok d, after_sql P up w)
  unfolding Repository.get_by_id
  get_by_id-found d w row = rw (query-up P up w, row)

  resume-view :
      (d : Document) (pages : List Text) (r : Result (List Text) × World E)
      → r.0 ≡ ok pages
      → (resume (λ found. pure (view_of P d found)) r).0 ≡ ok (view_of P d pages)
  unfolding pure
  resume-view d pages (ok found, w) h = cc
  resume-view d pages (err e, w) h = cc

  source-found :
      (d : Document) (content : Text) (pages : List Text) (w : World E)
      → ((v : World E) → (pages_of P content d.content_type v).0 ≡ ok pages)
      → Stored d w.db
      → Fetched P d.storage_key content (P.sql_fault w.ext).1
      → (source P d.id w).0 ≡ ok (view_of P d pages)
  unfolding source ◌>>=◌
  source-found d content pages w extracted row (fetched body y z got given) =
      rw
        (
          get_by_id-found d w row,
          call-at (P.storage.get d.storage_key) (after_sql P up w) body y got,
          call-at (P.read_all body) (record w { ext = y }) content z given,
        )
        (resume-view d pages _ (extracted _))

  -- Where the database answers and the storage shows what it was given, Source of a document that
  -- Upload has returned gives back that document, with its times as the table keeps them, the link
  -- to its content, and the pages that the text extractor makes of the content that was uploaded,
  -- or that content as the only page if no extractor is wired.
  pub source-upload :
      (keeps : Keeps P) (i : UploadInput) (d : Document) (pages : List Text) (w w' : World E)
      → ((v : World E) → (pages_of P i.content d.content_type v).0 ≡ ok pages)
      → upload P i w ≡ (ok d, w')
      → (source P d.id w').0 ≡ ok (view_of P (Repository.kept P d) pages)
  source-upload keeps i d pages w w' extracted h =
      let row =
        subst (λ x. find_document d.id x.db.documents ≡ some (Repository.kept P d))
          (ap (λ p. p.1) h) (find_document-upload P w i d (ap (λ p. p.0) h)) in
      let held = keeps.past_sql _ _ w'.ext (upload-Holds P keeps i d w w' h) in
      source-found (Repository.kept P d) i.content pages w' extracted row (keeps.shown _ _ _ held)
