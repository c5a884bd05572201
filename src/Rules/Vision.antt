-- ===== src/Rules/Vision.antt =====
-- infra/ocr/vision.go: what a conversion that succeeds has done, and how many pages it reads.
use superkb.Base.{◌≡◌, false, Option, none, some, List, [], ◌∷◌}
use superkb.Base.Text.{Text}
use superkb.Base.Text.Strings.{is_blank}
use superkb.Domain.Errors.{ok}
use superkb.Infra.Pages.{DocKind, unsupported, pdf, image, join_pages}
use superkb.Infra.Vision.{Vision, Tools, ocr_image}
use superkb.Infra.Vision.Rasterizing.{rasterize_pdf}

blank-nil : (text : Text) → [] ≡ text → ¬ (is_blank text ≡ false)
unfolding is_blank
blank-nil [] h k = cc
blank-nil (c ∷ text) h k = cc

module _ {E : Type 0} (T : Tools E) (V : Vision) where
  -- The model was asked for the text of each image, in their order, and these are its answers.
  pub data Transcribed : List Text → List Text → E → E → Type 0 where
    all_read : {x : E} → Transcribed [] [] x x
    page_read :
        {png text : Text} {pngs texts : List Text} {x y z : E}
        → ocr_image T V png x ≡ (ok text, y)
        → Transcribed pngs texts y z
        → Transcribed (png ∷ pngs) (text ∷ texts) x z

  -- the images of a document: itself, or the pages that are rendered of a PDF
  pub data Paged (content : Text) : DocKind → List Text → E → E → Type 0 where
    as_image : {x : E} → Paged content image (content ∷ []) x x
    as_pdf :
        {pngs : List Text} {x y : E}
        → rasterize_pdf T V content x ≡ (ok pngs, y)
        → Paged content pdf pngs x y

  -- the history of a conversion that succeeds
  pub record Converted (kind : DocKind) (content text : Text) (x y : E) : Type 0 where
    pub pngs : List Text
    pub texts : List Text
    pub paged_at : E
    pub paged : Paged content kind pngs x paged_at
    pub read : Transcribed pngs texts paged_at y
    pub joined : join_pages texts ≡ text
    pub not_blank : is_blank text ≡ false

  -- what a conversion that returns no error has done: nothing, or all of it
  pub data Outcome (content : Text) (x : E) : DocKind → Option Text → E → Type 0 where
    skipped : Outcome content x unsupported none x
    converted :
        {kind : DocKind} {text : Text} {y : E}
        → Converted kind content text x y
        → Outcome content x kind (some text) y
