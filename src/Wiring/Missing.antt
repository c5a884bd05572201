-- ===== src/Wiring/Missing.antt =====
-- A document whose object is gone from the bucket: from the S3 client over the use case to the
-- response, as cmd/api/main.go wires them.
use superkb.Base.{ℕ, ◌++◌, ◌≡◌, refl, ap, ◌∙◌, true, some, if◌then◌else◌}
use superkb.Base.Text.{Text, lit}
use superkb.Delivery.Documents.{show_source}
use superkb.Delivery.Handlers.{reply, written}
use superkb.Delivery.Response.{write_domain_error, write_error}
use superkb.Delivery.Views.{Body}
use superkb.Domain.{Document}
use superkb.Domain.Errors.{Error, Result, ok, err, sentinel, not_found, annotated, is, error_text}
use superkb.Exec.{fail, pure, either, branch, ◌>>=◌}
use superkb.Healthy.Content.{get_by_id-found}
use superkb.Healthy.FullQueue.{with_uuid-parsed}
use superkb.Healthy.Statements.{Answers}
use superkb.Infra.Hindsight.{Services}
use superkb.Infra.Storage as Bucket
use superkb.Infra.Storage.{Sdk, Storage}
use superkb.Infra.Vision.{Tools}
use superkb.Postgres.Tables.{find_document}
use superkb.Usecase.Documents.{source}
use superkb.Usecase.Parts.{new_document_use_case}
use superkb.Wiring.{App, Process, wired_documents}
use superkb.World.{World, Ports}
use superkb.World.Calls.{call}

module _ {E : Type 0} (A : Sdk E) (key : Text) where
  -- `Get` once the SDK has answered
  got-missing :
      (r : Result ℕ × E) (e : Error)
      → r.0 ≡ err e
      → A.is_no_such_key e ≡ true
      → either pure
          (λ d.
            if A.is_no_such_key d
            then fail (sentinel not_found)
            else fail (annotated (lit "s3: get " ++ A.quoted key) d))
          r
        ≡ (err (sentinel not_found), r.1)
  unfolding fail
  got-missing (ok n, y) e h missing = cc
  got-missing (err d, y) e h missing = let same : d ≡ e = cc in rw (same, missing) refl

  get-missing :
      (S : Storage) (e : Error) (x : E)
      → (A.get_object S.client S.bucket key x).0 ≡ err e
      → A.is_no_such_key e ≡ true
      → Bucket.get A S key x ≡ (err (sentinel not_found), (A.get_object S.client S.bucket key x).1)
  unfolding Bucket.get branch
  get-missing S e x h missing = got-missing (A.get_object S.client S.bucket key x) e h missing

-- the response to a value that does not come, because something is not found
written-missing :
    {E A : Type 0} (view : A → Body) (before : Text) (r : Result A × World E)
    → r.0 ≡ err (annotated before (sentinel not_found))
    → (written 200 view r).0 ≡ write_error 404 (error_text (annotated before (sentinel not_found)))
unfolding write_domain_error is
written-missing view before (ok a, w) h = cc
written-missing view before (err e, w) h =
    let same : e ≡ annotated before (sentinel not_found) = cc in rw same refl

module _ {E : Type 0} (R : Process E) (P : Ports E) (S : Services E) (T : Tools E)
    (pdftotext : Text → Result Text × Text) (app : App) where
  abbrev pub documents : Ports E
  documents = wired_documents R P S T pdftotext app

  module _ (up : Answers P) (d : Document) (w : World E) (e : Error) where
    source-missing :
        find_document d.id w.db.documents ≡ some d
        → ((x : E)
            → (R.sdk.get_object app.storage.client app.storage.bucket d.storage_key x).0 ≡ err e)
        → R.sdk.is_no_such_key e ≡ true
        → (source documents d.id w).0
          ≡ err (annotated (lit "source: fetch content") (sentinel not_found))
    unfolding source wired_documents new_document_use_case ◌>>=◌ call
    source-missing row gone missing = rw (
      get_by_id-found documents up d w row,
      get-missing R.sdk d.storage_key app.storage e (P.sql_fault w.ext).1 (gone _) missing,
    )

    -- Where the database answers, a GET of the source of a document whose object S3 says is not
    -- in the bucket is answered with the status 404.
    pub show_source-missing :
        (text : Text)
        → P.parse_uuid text ≡ some d.id
        → find_document d.id w.db.documents ≡ some d
        → ((x : E)
            → (R.sdk.get_object app.storage.client app.storage.bucket d.storage_key x).0 ≡ err e)
        → R.sdk.is_no_such_key e ≡ true
        → (show_source documents text w).0
          ≡ write_error 404
              (error_text (annotated (lit "source: fetch content") (sentinel not_found)))
    unfolding show_source reply wired_documents new_document_use_case
    show_source-missing text parsed row gone missing =
        ap (λ r. r.0) (with_uuid-parsed documents _ text _ d.id w parsed)
        ∙ written-missing _ (lit "source: fetch content") (source documents d.id w)
            (source-missing row gone missing)
