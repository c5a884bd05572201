-- ===== src/Usecase/References.antt =====
-- usecase/references.go, and `ocrTextFilename` of usecase/knowledge_base.go
use superkb.Base.{
  ℕ, zero, suc, ◌+◌, ◌||◌, not, ◌&&◌, none, some, List, [], ◌∷◌, ◌++◌, is_nil, take, if◌then◌else◌,
}
use superkb.Base.Text.{Text, lit}
use superkb.Base.Text.Strings.{
  trim_left, trim_right, to_lower, contains, last_index, fields, join_words,
}
use superkb.Domain.{Document}
use superkb.Domain.Rag.{SearchResult}

-- `fileURL`
unfoldable pub file_url : Text → Text → Text
file_url base key =
    if is_nil base || is_nil key then [] else trim_right b'/' base ++ (b'/' ∷ trim_left b'/' key)

-- `normalizeForMatch`
unfoldable pub normalize_for_match : Text → Text
normalize_for_match s = join_words (fields (to_lower s))

-- the loop of `findPage`, at page index `i`
unfoldable pub find_page_from : ℕ → Text → List Text → ℕ
find_page_from i needle [] = 0
find_page_from i needle (p ∷ ps) =
    if contains (normalize_for_match p) needle then i + 1 else find_page_from (i + 1) needle ps

-- `findPage`: `take 80` leaves a shorter needle as it is
unfoldable pub find_page : List Text → Text → ℕ
unfolding find_page_from
find_page pages chunk_text =
    let needle = normalize_for_match chunk_text in
    if is_nil needle then 0 else find_page_from 0 (take 80 needle) pages

-- `enrichReference`
unfoldable pub enrich_reference : SearchResult → Document → List Text → Text → SearchResult
enrich_reference r doc pages base = record r {
  file_url = file_url base doc.storage_key;
  filename = if is_nil doc.filename then doc.title else doc.filename;
  page =
      if not (is_nil pages) && not (is_nil r.chunk_text)
      then find_page pages r.chunk_text
      else r.page;
}

-- the part before the last dot, if that dot is not the first byte
unfoldable pub strip_extension : Text → Text
strip_extension s = elim (last_index b'.' s) [
  | none ↦ s
  | some zero ↦ s
  | some (suc i) ↦ take (suc i) s
]

-- `ocrTextFilename`
unfoldable pub ocr_text_filename : Text → Text
unfolding strip_extension
ocr_text_filename filename =
    let stem = strip_extension filename in
    (if is_nil stem then lit "document" else stem) ++ lit ".md"
