-- ===== src/Infra/Vision/Rasterizing.antt =====
-- infra/ocr/vision.go: the pages of a PDF as images.
use superkb.Base.{ℕ, zero, suc, Option, none, some, List, [], ◌∷◌, ◌++◌, if◌then◌else◌, ltb}
use superkb.Base.Int.{ℤ, pos, negsuc}
use superkb.Base.Text.{Text, lit}
use superkb.Base.Text.Decimal.{decimal}
use superkb.Base.Text.Strings.{trim_space, has_prefix, split_on, without_prefix}
use superkb.Domain.Errors.{Error, Result, ok, err, opaque, wrap}
use superkb.Exec.{Exec, pure, fail, observe, annotate, ◌>>=◌, ◌>>◌}
use superkb.Infra.Vision.{Vision, Tools}

-- a number of pages, if it is positive
abbrev pub positive : Option ℤ → Option ℕ
positive none = none
positive (some (negsuc n)) = none
positive (some (pos zero)) = none
positive (some (pos (suc n))) = some (suc n)

-- the bound `maxPages`, where it is positive
unfoldable pub capped : ℤ → ℕ → ℕ
capped (negsuc n) count = count
capped (pos zero) count = count
capped (pos (suc n)) count = if ltb (suc n) count then suc n else count

-- `defer`: what is done behind a method, whatever its outcome
abbrev pub finally : {E A : Type 0} → (E → E) → Exec E A → Exec E A
finally f m x = let (r, y) = m x in (r, f y)

module _ {E : Type 0} (T : Tools E) (V : Vision) where
  -- the loop over the lines of `pdfinfo`
  unfoldable pub find_count : List Text → Option ℕ
  find_count [] = none
  find_count (line ∷ lines) =
      let rest = find_count lines in
      if has_prefix line (lit "Pages:")
      then (elim (positive (T.scan_int (trim_space (without_prefix line (lit "Pages:"))))) [
        | some n ↦ some n
        | none ↦ rest
      ])
      else rest

  abbrev pub counted_pages : Option ℕ → Exec E ℕ
  counted_pages none = fail (opaque (lit "ocr: could not determine PDF page count"))
  counted_pages (some n) = pure n

  abbrev pub page_info : Result Text × Text → Exec E ℕ
  page_info (ok out, stderr) = counted_pages (find_count (split_on b'\n' out))
  page_info (err e, stderr) = fail (wrap (lit "ocr: pdfinfo: ") e (lit ": " ++ trim_space stderr))

  -- `pdfPageCount`
  unfoldable pub pdf_page_count : Text → Exec E ℕ
  pdf_page_count pdf = observe (T.pdfinfo pdf) >>= page_info

  abbrev pub rendered : ℕ → Option (Error × Text) → Exec E (Unit {0})
  rendered p none = pure tt
  rendered p (some (e, stderr)) = fail (
      wrap (lit "ocr: pdftoppm page " ++ (decimal p ++ lit ": ")) e (lit ": " ++ trim_space stderr))

  -- a round of the loop of `rasterizePDF`: the image of page `p`
  unfoldable pub rasterize_page : Text → Text → ℕ → Exec E Text
  rasterize_page dir path p =
      let prefix = T.join_path dir (lit "page-" ++ decimal p) in
      observe (
        T.pdftoppm (
          lit "-png"
          ∷ lit "-r"
          ∷ lit "150"
          ∷ lit "-f"
          ∷ decimal p
          ∷ lit "-l"
          ∷ decimal p
          ∷ lit "-singlefile"
          ∷ path
          ∷ prefix
          ∷ []))
      >>= rendered p
      >> annotate (lit "ocr: read rasterized page " ++ decimal p)
          (T.read_file (prefix ++ lit ".png"))

  -- the loop of `rasterizePDF`: so many pages from page `p` on
  unfoldable pub rasterize_pages : Text → Text → ℕ → ℕ → Exec E (List Text)
  rasterize_pages dir path zero p = pure []
  rasterize_pages dir path (suc n) p = rasterize_page dir path p >>= λ png.
      rasterize_pages dir path n (suc p) >>= λ others. pure (png ∷ others)

  -- `rasterizePDF` in its temporary directory
  abbrev pub rasterize_in : Text → ℕ → Text → Exec E (List Text)
  rasterize_in pdf count dir =
      annotate (lit "ocr: write temp pdf") (T.write_file (T.join_path dir (lit "in.pdf")) pdf)
      >> rasterize_pages dir (T.join_path dir (lit "in.pdf")) (capped V.max_pages count) 1

  -- `rasterizePDF`
  unfoldable pub rasterize_pdf : Text → Exec E (List Text)
  rasterize_pdf pdf = pdf_page_count pdf >>= λ count.
      annotate (lit "ocr: temp dir") T.make_dir >>= λ dir.
      finally (T.remove_all dir) (rasterize_in pdf count dir)
