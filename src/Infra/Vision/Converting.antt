-- ===== src/Infra/Vision/Converting.antt =====
-- infra/ocr/vision.go: `Convert`.
use superkb.Base.{ℕ, suc, Option, none, some, List, [], ◌∷◌, ◌++◌, length, if◌then◌else◌}
use superkb.Base.Text.{Text, lit}
use superkb.Base.Text.Decimal.{decimal}
use superkb.Base.Text.Strings.{is_blank}
use superkb.Domain.Errors.{opaque}
use superkb.Exec.{Exec, pure, fail, annotate, ◌>>=◌}
use superkb.Infra.Pages.{DocKind, unsupported, pdf, image, document_kind, join_pages}
use superkb.Infra.Vision.{Vision, Tools, ocr_image}
use superkb.Infra.Vision.Rasterizing.{rasterize_pdf}

module _ {E : Type 0} (T : Tools E) (V : Vision) where
  -- the loop of `Convert` over the pages, from page `i` of `total` on
  unfoldable pub ocr_pages : ℕ → ℕ → List Text → Exec E (List Text)
  ocr_pages total i [] = pure []
  ocr_pages total i (png ∷ pngs) =
      annotate (lit "ocr page " ++ (decimal i ++ (lit "/" ++ decimal total))) (ocr_image T V png)
      >>= λ text. ocr_pages total (suc i) pngs >>= λ texts. pure (text ∷ texts)

  -- `Convert` behind the pages
  unfoldable pub convert_pages : Text → List Text → Exec E (Option Text)
  convert_pages filename pngs = ocr_pages (length pngs) 1 pngs >>= λ texts.
      if is_blank (join_pages texts)
      then fail (opaque (lit "ocr: empty extraction for " ++ T.quoted filename))
      else pure (some (join_pages texts))

  abbrev pub convert_kind : DocKind → Text → Text → Exec E (Option Text)
  convert_kind unsupported content filename = pure none
  convert_kind image content filename = convert_pages filename (content ∷ [])
  convert_kind pdf content filename = rasterize_pdf T V content >>= convert_pages filename

  -- `Convert`, whose value is nothing where it returns `ok = false` and no error
  unfoldable pub convert : Text → Text → Text → Exec E (Option Text)
  convert content content_type filename =
      convert_kind (document_kind content_type filename) content filename
