-- ===== src/Usecase/Documents.antt =====
-- usecase/document.go
use superkb.Base.{ℕ, none, some, List, [], ◌∷◌, ◌++◌, is_nil, length, if◌then◌else◌}
use superkb.Base.Int.{ℤ}
use superkb.Base.Text.{Text, lit}
use superkb.Domain.{Document, Metadata, validate_document}
use superkb.Domain.Errors.{refusal, invalid_input}
use superkb.Exec.{pure, fail, lift, annotate, ◌>>=◌, ◌>>◌}
use superkb.Postgres.Documents as Repository
use superkb.Usecase.Paging.{normalize_page}
use superkb.Usecase.References.{file_url}
use superkb.World.{Ports}
use superkb.World.Calls.{M, call, ask}

pub record UploadInput : Type 0 where
  pub title : Text
  pub filename : Text
  pub content_type : Text
  pub content : Text
  pub metadata : Metadata

pub record DocumentSource : Type 0 where
  pub document : Document
  pub file_url : Text
  pub pages : List Text

module _ {E : Type 0} (P : Ports E) where
  -- the work of `Upload` behind the checks of its input
  unfoldable pub store : UploadInput → M E Document
  store i = do
    id ← ask P.new_uuid
    let key = lit "documents/" ++ P.uuid_text id
    let content_type =
        if is_nil i.content_type then lit "application/octet-stream" else i.content_type
    annotate (lit "upload: store content")
        (call (P.storage.put key i.content (length i.content) content_type))
    now ← ask P.now
    let doc : Document = record {
      id = id;
      title = i.title;
      filename = i.filename;
      content_type = content_type;
      storage_key = key;
      size_bytes = length i.content;
      metadata = i.metadata;
      created_at = now;
      updated_at = now;
    }
    lift (validate_document doc)
    annotate (lit "upload: persist metadata") (Repository.create P doc)
    pure doc

  unfoldable pub upload : UploadInput → M E Document
  upload i =
      if is_nil i.title
      then fail (refusal (lit "upload: ") invalid_input (lit ": title required"))
      else if is_nil i.content
      then fail (refusal (lit "upload: ") invalid_input (lit ": content required"))
      else store i

  unfoldable pub get : ℕ → M E Document
  get id = annotate (lit "get") (Repository.get_by_id P id)

  -- without an extractor the content is one page
  unfoldable pub pages_of : Text → Text → M E (List Text)
  pages_of content content_type = elim P.extractor [
    | none ↦ pure (content ∷ [])
    | some extract ↦ annotate (lit "source: extract") (call (extract content content_type))
  ]

  unfoldable pub source : ℕ → M E DocumentSource
  source id = do
    doc ← annotate (lit "source") (Repository.get_by_id P id)
    body ← annotate (lit "source: fetch content") (call (P.storage.get doc.storage_key))
    content ← annotate (lit "source: read content") (call (P.read_all body))
    pages ← pages_of content doc.content_type
    pure (record {
      document = doc;
      file_url = file_url P.public_base_url doc.storage_key;
      pages = pages;
    })

  unfoldable pub list : ℤ → ℤ → M E (List Document)
  list limit offset = let (l, o) = normalize_page limit offset in Repository.list P l o

  unfoldable pub delete : ℕ → M E (Unit {0})
  delete id = do
    doc ← annotate (lit "delete") (Repository.get_by_id P id)
    annotate (lit "delete: storage") (call (P.storage.delete doc.storage_key))
    annotate (lit "delete: metadata") (Repository.delete P id)
