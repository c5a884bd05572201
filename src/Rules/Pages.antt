-- ===== src/Rules/Pages.antt =====
-- `findPage` of usecase/references.go: the page that a chunk is attributed to.
use superkb.Base.{
  ℕ, suc, ◌+◌, ◌≡◌, ◌⊎◌, refl, sym, subst, ◌∙◌, true, false, List, [], ◌∷◌, arith, is_nil, take,
  Bool-cases, inl, inr,
}
use superkb.Base.Text.{Text}
use superkb.Base.Text.Strings.{contains}
use superkb.Usecase.References.{normalize_for_match, find_page_from, find_page}

-- `n` is the 1-based number of the first page that contains the needle; the pages before it
-- do not.
pub data IsFirst (needle : Text) : ℕ → List Text → Type 0 where
  first :
      {p : Text} {ps : List Text}
      → contains (normalize_for_match p) needle ≡ true
      → IsFirst needle 1 (p ∷ ps)
  later :
      {n : ℕ} {p : Text} {ps : List Text}
      → contains (normalize_for_match p) needle ≡ false
      → IsFirst needle n ps
      → IsFirst needle (suc n) (p ∷ ps)

-- no page contains the needle
abbrev pub Nowhere : Text → List Text → Type 0
Nowhere needle [] = Unit {0}
Nowhere needle (p ∷ ps) = (contains (normalize_for_match p) needle ≡ false) × Nowhere needle ps

-- what the loop answers from page index `i` on
find_page_from-verdict :
    (i : ℕ) (needle : Text) (pages : List Text)
    → ((n : ℕ) × (find_page_from i needle pages ≡ i + n) × IsFirst needle n pages)
      ⊎ ((find_page_from i needle pages ≡ 0) × Nowhere needle pages)
unfolding find_page_from
find_page_from-verdict i needle [] = inr (refl, tt)
find_page_from-verdict i needle (p ∷ ps) =
    elim (Bool-cases (contains (normalize_for_match p) needle)) [
      | inl here ↦ rw here (inl (1, refl, first here))
      | inr not_here ↦ rw not_here (elim (find_page_from-verdict (i + 1) needle ps) [
        | inl (n, e, h) ↦ inl (suc n, (e ∙ omega arith), later not_here h)
        | inr (e, h) ↦ inr (e, (refl, h))
      ])
    ]

-- For a chunk that is not blank, `findPage` returns the number of the first page that contains
-- the first 80 bytes of the chunk, both in lower case with white space collapsed, and 0 only if
-- no page contains them.
pub find_page-IsFirst :
    (pages : List Text) (chunk : Text)
    → is_nil (normalize_for_match chunk) ≡ false
    → IsFirst (take 80 (normalize_for_match chunk)) (find_page pages chunk) pages
      ⊎ ((find_page pages chunk ≡ 0) × Nowhere (take 80 (normalize_for_match chunk)) pages)
unfolding find_page
find_page-IsFirst pages chunk h =
    rw h (elim (find_page_from-verdict 0 (take 80 (normalize_for_match chunk)) pages) [
      | inl (n, e, first_at) ↦ inl (
          subst (λ k. IsFirst (take 80 (normalize_for_match chunk)) k pages) (sym (e ∙ omega arith))
            first_at)
      | inr (e, nowhere) ↦ inr (e, nowhere)
    ])
