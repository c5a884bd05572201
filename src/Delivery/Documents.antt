-- ===== src/Delivery/Documents.antt =====
-- delivery/http/document_handler.go
use superkb.Base.{ℕ, Option, none, some, [], ◌++◌, take, is_nil, map, if◌then◌else◌}
use superkb.Base.Text.{Text, lit, text_eq}
use superkb.Base.Text.Decimal.{atoi_value}
use superkb.Delivery.Handlers.{Handler, reply, reply_nothing, with_uuid}
use superkb.Delivery.Response.{write_error}
use superkb.Delivery.Views.{document, documents, source, to_document_response, to_source_response}
use superkb.Domain.Errors.{Result, ok, err, Error, error_text, opaque}
use superkb.Base.Text.Strings.{trim_space}
use superkb.Domain.{Metadata}
use superkb.Usecase.Documents as Usecase
use superkb.Usecase.Documents.{UploadInput}
use superkb.World.{Ports}

pub record UploadRequest : Type 0 where
  pub title : Text
  pub filename : Text
  pub content_type : Text
  pub content : Text
  pub metadata : Metadata

-- `parseJSONUpload`, where the body is what `Decode` makes of the request
unfoldable pub parse_json_upload : Option UploadRequest → Result UploadInput
parse_json_upload none = err (opaque (lit "invalid JSON body"))
parse_json_upload (some r) = ok (record {
  title = r.title;
  filename = r.filename;
  content_type = r.content_type;
  content = r.content;
  metadata = r.metadata;
})

-- the part "file" of a form, and what reading it gives
pub record FilePart : Type 0 where
  pub filename : Text
  pub content_type : Text
  pub content : Result Text

-- what package net/http makes of a multipart request: the form or the error of parsing it
pub record MultipartForm : Type 0 where
  pub form_error : Option Error
  pub file : Option FilePart
  pub title : Text
  pub metadata : Text
  -- what `json.Unmarshal` makes of that text
  pub unmarshalled : Result Metadata

abbrev pub max_upload_bytes : ℕ
max_upload_bytes = 104857600

-- the last steps of `parseMultipartUpload`, once the file is read and the metadata are known
abbrev multipart_input : Text → FilePart → Text → Result Metadata → Result UploadInput
multipart_input title part content (err e) =
    err (opaque (lit "invalid metadata JSON: " ++ error_text e))
multipart_input title part content (ok metadata) = ok (record {
  title = if is_nil title then part.filename else title;
  filename = part.filename;
  content_type = part.content_type;
  content = take max_upload_bytes content;
  metadata = metadata;
})

unfoldable pub parse_multipart_upload : MultipartForm → Result UploadInput
unfolding trim_space
parse_multipart_upload form = elim form.form_error [
  | some e ↦ err (opaque (lit "invalid multipart form: " ++ error_text e))
  | none ↦ elim form.file [
    | none ↦ err (opaque (lit "missing file part"))
    | some part ↦ elim part.content [
      | err e ↦ err (opaque (lit "read file: " ++ error_text e))
      | ok content ↦
          multipart_input (trim_space form.title) part content
            (if is_nil form.metadata then ok [] else form.unmarshalled)
    ]
  ]
]

-- the body of an upload, as it is read in either way
pub record UploadBody : Type 0 where
  -- what `mime.ParseMediaType` makes of the header `Content-Type`
  pub media_type : Text
  pub json : Option UploadRequest
  pub form : MultipartForm

-- the input, by the media type
unfoldable pub parse_upload : UploadBody → Result UploadInput
unfolding parse_json_upload parse_multipart_upload
parse_upload b =
    if text_eq b.media_type (lit "multipart/form-data")
    then parse_multipart_upload b.form
    else parse_json_upload b.json

module _ {E : Type 0} (P : Ports E) where
  -- `upload` once the input is parsed
  abbrev pub upload_input : Result UploadInput → Handler E
  upload_input (ok i) = reply 201 (λ d. document (to_document_response P d)) (Usecase.upload P i)
  upload_input (err e) = λ w. (write_error 400 (error_text e), w)

  unfoldable pub upload : UploadBody → Handler E
  unfolding parse_upload
  upload b = upload_input (parse_upload b)

  -- `limit` and `offset` are texts of the query, empty if they are missing
  unfoldable pub list : Text → Text → Handler E
  unfolding atoi_value
  list limit offset =
      reply 200 (λ ds. documents (map (to_document_response P) ds))
        (Usecase.list P (atoi_value limit) (atoi_value offset))

  unfoldable pub get : Text → Handler E
  get id =
      with_uuid P (lit "invalid document id") id
        λ i. reply 200 (λ d. document (to_document_response P d)) (Usecase.get P i)

  unfoldable pub delete : Text → Handler E
  delete id = with_uuid P (lit "invalid document id") id λ i. reply_nothing (Usecase.delete P i)

  -- the handler `source`
  unfoldable pub show_source : Text → Handler E
  show_source id =
      with_uuid P (lit "invalid document id") id
        λ i. reply 200 (λ s. source (to_source_response s)) (Usecase.source P i)
