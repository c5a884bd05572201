-- ===== src/Infra/Pages.antt =====
-- Pages of text: infra/extract/pdf_extractor.go, and what infra/ocr/vision.go decides of a document
-- and how it joins the pages.
use superkb.Base.{ℕ, Bool, ◌||◌, not, List, [], ◌∷◌, ◌++◌, ◌==◌, exists_where, if◌then◌else◌}
use superkb.Base.Text.{Text, lit}
use superkb.Base.Text.Strings.{contains, has_prefix, has_suffix, is_blank, to_lower, trim_space}
use superkb.Domain.Errors.{Result, ok, err, wrap}

-- the byte "\f"
abbrev pub form_feed : ℕ
form_feed = 12

-- the first of the pages, and the others
abbrev pub into_first : ℕ → List Text → List Text
into_first c [] = (c ∷ []) ∷ []
into_first c (p ∷ ps) = (c ∷ p) ∷ ps

-- `strings.Split(s, "\f")`
unfoldable pub split_pages : Text → List Text
split_pages [] = [] ∷ []
split_pages (c ∷ s) =
    let rest = split_pages s in if c == form_feed then [] ∷ rest else into_first c rest

-- `pages[:n-1]` where the last page is blank
unfoldable pub drop_blank_end : List Text → List Text
drop_blank_end [] = []
drop_blank_end (p ∷ []) = if is_blank p then [] else p ∷ []
drop_blank_end (p ∷ q ∷ ps) = p ∷ drop_blank_end (q ∷ ps)

-- `isPDF`
unfoldable pub is_pdf : Text → Text → Bool
is_pdf content_type content =
    contains (to_lower content_type) (lit "pdf") || has_prefix content (lit "%PDF-")

-- a document without pages has one that is empty
abbrev at_least_one : List Text → List Text
at_least_one [] = [] ∷ []
at_least_one (p ∷ ps) = p ∷ ps

-- what the program's output becomes, or its error with what it wrote to the standard error
abbrev paged : Result Text × Text → Result (List Text)
paged (ok out, stderr) = ok (at_least_one (drop_blank_end (split_pages out)))
paged (err e, stderr) = err (wrap (lit "extract: pdftotext: ") e (lit ": " ++ trim_space stderr))

-- `ExtractPages`, where `run` is the program pdftotext
unfoldable pub extract_pages_with : (Text → Result Text × Text) → Text → Text → Result (List Text)
extract_pages_with run content content_type =
    if not (is_pdf content_type content) then ok (content ∷ []) else paged (run content)

pub data DocKind : Type 0 where
  unsupported pdf image : DocKind

abbrev pub image_extensions : List Text
image_extensions =
    lit ".png"
    ∷ lit ".jpg"
    ∷ lit ".jpeg"
    ∷ lit ".gif"
    ∷ lit ".bmp"
    ∷ lit ".tiff"
    ∷ lit ".tif"
    ∷ lit ".webp"
    ∷ []

-- `documentKind`; its second result is whether the kind is supported
unfoldable pub document_kind : Text → Text → DocKind
document_kind content_type filename =
    let ct = to_lower content_type in
    let name = to_lower filename in
    if contains ct (lit "pdf") || has_suffix name (lit ".pdf")
    then pdf
    else if exists_where (has_suffix name) image_extensions
    then image
    else if has_prefix ct (lit "image/")
    then image
    else unsupported

-- the text that the loop of `Convert` builds of the texts of the pages
unfoldable pub join_pages : List Text → Text
join_pages [] = []
join_pages (p ∷ []) = p
join_pages (p ∷ q ∷ ps) = p ++ (form_feed ∷ join_pages (q ∷ ps))
