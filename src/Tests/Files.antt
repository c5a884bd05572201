-- ===== src/Tests/Files.antt =====
-- The upload of a file to empty tables.
use superkb.Base.{◌≡◌, refl, none, some, [], ◌∷◌, find_where}
use Prim.Native.Nat.{min}
use superkb.Base.Text.{lit}
use superkb.Base.Text.Strings.{trim_space, trim_front}
use superkb.Delivery.Documents as Handlers
use superkb.Delivery.Documents.{FilePart, UploadBody}
use superkb.Delivery.Response.{write_json}
use superkb.Delivery.Views.{DocumentResponse, document}
use superkb.Domain.Errors.{ok}
use superkb.Healthy.Uploads.{IsFile, upload-size}
use superkb.Postgres.Tables.{find_document}
use superkb.Tests.Fixtures.{counter, counter-Answers, empty_world}

abbrev letter : FilePart
letter = record { filename = b'l' ∷ []; content_type = []; content = ok (b'a' ∷ b'b' ∷ []) }

abbrev letter_body : UploadBody
letter_body = record {
  media_type = lit "multipart/form-data";
  json = none;
  form = record {
    form_error = none;
    file = some letter;
    title = [];
    metadata = [];
    unmarshalled = ok [];
  };
}

letter-IsFile : IsFile letter_body letter (b'a' ∷ b'b' ∷ [])
unfolding trim_space trim_front
letter-IsFile = record {
  multipart = refl;
  parsed = refl;
  file = refl;
  read = refl;
  titled = refl;
  not_empty = refl;
  no_metadata = refl;
}

upload-size_example :
    (r : DocumentResponse) × ((Handlers.upload counter letter_body empty_world).0
      ≡ write_json 201 (document r))
    × (r.size_bytes ≡ min 104857600 2)
upload-size_example =
    upload-size counter counter-Answers empty_world (λ key content size type x. tt) letter_body
      letter (b'a' ∷ b'b' ∷ []) (unfold find_document find_where in refl) letter-IsFile
