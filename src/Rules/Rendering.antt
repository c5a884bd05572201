-- ===== src/Rules/Rendering.antt =====
-- infra/ocr/vision.go: how many pages of a PDF are rendered.
use superkb.Base.{
  ℕ, zero, suc, ◌≤◌, ◌≡◌, refl, sym, ap, ◌∙◌, subst, arith, Option, none, some, List, [], ◌∷◌,
  length, Bool, true, false, if◌then◌else◌,
}
use superkb.Base.Int.{ℤ, pos, negsuc}
use superkb.Base.Text.{Text, lit}
use superkb.Base.Text.Strings.{has_prefix, trim_space, without_prefix}
use superkb.Domain.Errors.{Result, ok, err}
use superkb.Exec.{Exec}
use superkb.Exec.Successes.{pure-ok, fail-never, halfway, bind-ok}
use superkb.Infra.Vision.{Vision, Tools}
use superkb.Infra.Vision.Rasterizing.{
  positive, capped, finally, find_count, counted_pages, page_info, pdf_page_count, rasterize_pages,
  rasterize_in, rasterize_pdf,
}

-- a bound that is positive
abbrev pub Within : ℤ → ℕ → Type 0
Within (negsuc n) k = Unit {0}
Within (pos zero) k = Unit {0}
Within (pos (suc n)) k = k ≤ suc n

capped-Within : (m : ℤ) (count : ℕ) → 1 ≤ count → (1 ≤ capped m count) × Within m (capped m count)
unfolding capped
capped-Within (negsuc n) count h = (h, tt)
capped-Within (pos zero) count h = (h, tt)
capped-Within (pos (suc n)) count h = ground arith

positive-some : (o : Option ℤ) (n : ℕ) → positive o ≡ some n → 1 ≤ n
positive-some none n h = cc
positive-some (some (negsuc m)) n h = cc
positive-some (some (pos zero)) n h = cc
positive-some (some (pos (suc m))) n h = ground arith

-- the count of a line, or of the lines behind it
line_count-positive :
    (is_count : Bool) (here behind : Option ℕ) (n : ℕ)
    → ((n : ℕ) → here ≡ some n → 1 ≤ n)
    → ((n : ℕ) → behind ≡ some n → 1 ≤ n)
    → (if is_count then (elim here [ some n ↦ some n | none ↦ behind ]) else behind) ≡ some n
    → 1 ≤ n
line_count-positive true (some m) behind n f g h = f n h
line_count-positive true none behind n f g h = g n h
line_count-positive false here behind n f g h = g n h

module _ {E : Type 0} (T : Tools E) (V : Vision) where
  find_count-positive : (lines : List Text) (n : ℕ) → find_count T V lines ≡ some n → 1 ≤ n
  unfolding find_count
  find_count-positive [] n h = cc
  find_count-positive (line ∷ lines) n h =
      line_count-positive (has_prefix line (lit "Pages:"))
        (positive (T.scan_int (trim_space (without_prefix line (lit "Pages:")))))
        (find_count T V lines) n (positive-some _) (λ n. find_count-positive lines n) h

  counted_pages-positive :
      (o : Option ℕ) (x y : E) (n : ℕ)
      → ((n : ℕ) → o ≡ some n → 1 ≤ n)
      → counted_pages T V o x ≡ (ok n, y)
      → 1 ≤ n
  counted_pages-positive none x y n f h = absurd (fail-never _ x y n h)
  counted_pages-positive (some m) x y n f h = subst (λ k. 1 ≤ k) (pure-ok m n x y h).0 (f m refl)

  page_info-positive :
      (r : Result Text × Text) (x y : E) (n : ℕ) → page_info T V r x ≡ (ok n, y) → 1 ≤ n
  page_info-positive (ok out, stderr) x y n h =
      counted_pages-positive _ x y n (λ n. find_count-positive _ n) h
  page_info-positive (err e, stderr) x y n h = absurd (fail-never _ x y n h)

  pdf_page_count-positive :
      (content : Text) (x y : E) (n : ℕ) → pdf_page_count T V content x ≡ (ok n, y) → 1 ≤ n
  unfolding pdf_page_count
  pdf_page_count-positive content x y n h = elim (bind-ok _ _ x n y h) [
    | halfway info z asked rest ↦ page_info-positive info z y n rest
  ]

  length-rasterize_pages :
      (dir path : Text) (n p : ℕ) (pngs : List Text) (x y : E)
      → rasterize_pages T V dir path n p x ≡ (ok pngs, y)
      → length pngs ≡ n
  unfolding rasterize_pages
  length-rasterize_pages dir path zero p pngs x y h = ap length (sym (pure-ok [] pngs x y h).0)
  length-rasterize_pages dir path (suc n) p pngs x y h = elim (bind-ok _ _ x pngs y h) [
    | halfway png x1 rendered rest ↦ elim (bind-ok _ _ x1 pngs y rest) [
      | halfway others x2 more end ↦
          ap length (sym (pure-ok (png ∷ others) pngs x2 y end).0)
          ∙ ap suc (length-rasterize_pages dir path n (suc p) others x1 x2 more)
    ]
  ]

  finally-ok :
      {A : Type 0} (f : E → E) (m : Exec E A) (x y : E) (a : A)
      → finally f m x ≡ (ok a, y)
      → (m x ≡ (ok a, (m x).1)) × (f (m x).1 ≡ y)
  finally-ok f m x y a h = (ap (λ r. (r, (m x).1)) (ap (λ p. p.0) h), ap (λ p. p.1) h)

  length-written :
      (content dir : Text) (count : ℕ) (pngs : List Text) (x y : E)
      → rasterize_in T V content count dir x ≡ (ok pngs, y)
      → length pngs ≡ capped V.max_pages count
  length-written content dir count pngs x y h = elim (bind-ok _ _ x pngs y h) [
    | halfway _ x1 written rendered ↦ length-rasterize_pages _ _ _ 1 pngs x1 y rendered
  ]

  -- Rendering a PDF gives at least one page, and no more than the configured bound if that is
  -- positive, whatever number of pages the document claims to have.
  pub rasterize_pdf-Within :
      (content : Text) (pngs : List Text) (x y : E)
      → rasterize_pdf T V content x ≡ (ok pngs, y)
      → (1 ≤ length pngs) × Within V.max_pages (length pngs)
  unfolding rasterize_pdf
  rasterize_pdf-Within content pngs x y h = elim (bind-ok _ _ x pngs y h) [
    | halfway count x1 counted rest ↦ elim (bind-ok _ _ x1 pngs y rest) [
      | halfway dir x2 made rest' ↦
          subst (λ k. (1 ≤ k) × Within V.max_pages k)
            (sym (
              length-written content dir count pngs x2 _
                (finally-ok (T.remove_all dir) (rasterize_in T V content count dir) x2 y pngs
                  rest').0))
            (capped-Within V.max_pages count (pdf_page_count-positive content x x1 count counted))
    ]
  ]
