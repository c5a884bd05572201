-- ===== src/Healthy/Uploads.antt =====
-- The upload of a file over POST /documents, where the database answers and the object storage
-- takes what it is given: internal/delivery/http/document_handler.go and internal/usecase/document.go.
use superkb.Base.{
  ℕ, zero, suc, ◌≡◌, ◌≤◌, refl, ap, false, none, some, [], ◌∷◌, ◌++◌, arith, is_nil, length, take,
  length-take, if◌then◌else◌,
}
use Prim.Native.Nat.{min}
use superkb.Base.Text.{Text, lit, text_eq_refl}
use superkb.Base.Text.Strings.{trim_space}
use superkb.Delivery.Documents as Handlers
use superkb.Delivery.Documents.{
  FilePart, UploadBody, max_upload_bytes, parse_upload, parse_multipart_upload, upload_input,
}
use superkb.Delivery.Handlers.{reply, written}
use superkb.Delivery.Response.{write_json}
use superkb.Delivery.Views.{Body, DocumentResponse, document, to_document_response}
use superkb.Domain.{Document, validate_document}
use superkb.Domain.Errors.{Result, ok, err}
use superkb.Exec.{◌>>=◌}
use superkb.Healthy.Statements.{Answers, execute-up}
use superkb.Healthy.Totals.{Succeeds}
use superkb.Postgres.Documents as Repository
use superkb.Postgres.Tables.{find_document, insert_document}
use superkb.Usecase.Documents.{UploadInput, store, upload}
use superkb.World.{World, Ports}
use superkb.World.Calls.{ask, call, put_ext}

-- the title that a form gives
abbrev form_title : UploadBody → FilePart → Text
form_title b part =
    if is_nil (trim_space b.form.title) then part.filename else trim_space b.form.title

-- A form with a file that can be read and is not empty, with a title or a name, and no metadata.
pub record IsFile (b : UploadBody) (part : FilePart) (content : Text) : Type 0 where
  pub multipart : b.media_type ≡ lit "multipart/form-data"
  pub parsed : b.form.form_error ≡ none
  pub file : b.form.file ≡ some part
  pub read : part.content ≡ ok content
  pub titled : is_nil (form_title b part) ≡ false
  pub not_empty : is_nil content ≡ false
  pub no_metadata : b.form.metadata ≡ []

is_nil-take : (n : ℕ) (s : Text) → 1 ≤ n → is_nil s ≡ false → is_nil (take n s) ≡ false
is_nil-take n [] h e = cc
is_nil-take zero (c ∷ s) h e = absurd (omega arith)
is_nil-take (suc n) (c ∷ s) h e = refl

abbrev file_input : UploadBody → FilePart → Text → UploadInput
file_input b part content = record {
  title = form_title b part;
  filename = part.filename;
  content_type = part.content_type;
  content = take max_upload_bytes content;
  metadata = [];
}

parse_upload-file :
    (b : UploadBody) (part : FilePart) (content : Text)
    → IsFile b part content
    → parse_upload b ≡ ok (file_input b part content)
unfolding parse_upload parse_multipart_upload
parse_upload-file b part content f =
    rw (f.multipart, text_eq_refl, f.parsed, f.file, f.read, f.no_metadata)

written-ok :
    {E A : Type 0} (status : ℕ) (view : A → Body) (r : Result A × World E) (a : A)
    → r.0 ≡ ok a
    → (written status view r).0 ≡ write_json status (view a)
written-ok status view (ok c, w) a h = ap (λ x. write_json status (view x)) (ok-injective c a h)
  where
    ok-injective : {A : Type 0} (x y : A) → ok x ≡ ok y → x ≡ y
    ok-injective x y e = cc
written-ok status view (err e, w) a h = cc

module _ {E : Type 0} (P : Ports E) (up : Answers P) (w : World E) where
  -- the document that `store` makes
  abbrev stored_document : UploadInput → Document
  stored_document i =
      let id = (P.new_uuid w.ext).0 in
      let key = lit "documents/" ++ P.uuid_text id in
      let content_type =
        if is_nil i.content_type then lit "application/octet-stream" else i.content_type in
      let x =
        (P.storage.put key i.content (length i.content) content_type (P.new_uuid w.ext).1).1 in
      record {
        id = id;
        title = i.title;
        filename = i.filename;
        content_type = content_type;
        storage_key = key;
        size_bytes = length i.content;
        metadata = i.metadata;
        created_at = (P.now x).0;
        updated_at = (P.now x).0;
      }

  call-Succeeds :
      (f : E → Result (Unit {0}) × E) (v : World E)
      → Succeeds (f v.ext).0
      → call f v ≡ (ok tt, record v { ext = (f v.ext).1 })
  unfolding call
  call-Succeeds f v h = go (f v.ext) h
    where
      go :
          (r : Result (Unit {0}) × E) → Succeeds r.0 → put_ext v r ≡ (ok tt, record v { ext = r.1 })
      go (ok tt, x) h = refl
      go (err e, x) h = absurd h

  create-fresh :
      (d : Document) (x : E)
      → find_document d.id w.db.documents ≡ none
      → Repository.create P d (record w { ext = x }) ≡ (
        ok tt,
        record w { db = insert_document (Repository.kept P d) w.db; ext = (P.sql_fault x).1 },
      )
  unfolding Repository.create
  create-fresh d x fresh =
      execute-up P up (record w { ext = x }) _ _ (insert_document (Repository.kept P d) w.db)
        (rw fresh)

  upload-stored :
      ((key content : Text) (size : ℕ) (type : Text) (x : E)
        → Succeeds (P.storage.put key content size type x).0)
      → (i : UploadInput) → find_document (P.new_uuid w.ext).0 w.db.documents ≡ none
      → is_nil i.title ≡ false
      → is_nil i.content ≡ false
      → (upload P i w).0 ≡ ok (stored_document i)
  unfolding upload store validate_document ◌>>=◌ ask lit
  upload-stored puts i fresh titled filled = rw (
    titled,
    filled,
    call-Succeeds (P.storage.put _ i.content (length i.content) _)
        (record w { ext = (P.new_uuid w.ext).1 }) (puts _ _ _ _ _),
    create-fresh (stored_document i) _ fresh,
  )

  -- Where the database answers, the storage takes what it is given and the new id is free, the
  -- upload of a file that is not empty, over a form with a title or a name and no metadata, is
  -- answered 201 however large the file is, and the document has as many bytes as the file, but
  -- no more than 104857600.
  pub upload-size :
      ((key content : Text) (size : ℕ) (type : Text) (x : E)
        → Succeeds (P.storage.put key content size type x).0)
      → (b : UploadBody) (part : FilePart) (content : Text)
      → find_document (P.new_uuid w.ext).0 w.db.documents ≡ none
      → IsFile b part content
      → (r : DocumentResponse) × ((Handlers.upload P b w).0 ≡ write_json 201 (document r))
        × (r.size_bytes ≡ min 104857600 (length content))
  unfolding Handlers.upload reply to_document_response
  upload-size puts b part content fresh f =
      let i = file_input b part content in
      let filled = is_nil-take max_upload_bytes content (omega arith) f.not_empty in
      let stored = upload-stored puts i fresh f.titled filled in
      (
        to_document_response P (stored_document i),
        rw (parse_upload-file b part content f) (written-ok 201 _ (upload P i w) _ stored),
        length-take max_upload_bytes content,
      )
