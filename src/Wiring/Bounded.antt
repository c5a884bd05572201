-- ===== src/Wiring/Bounded.antt =====
-- A search of a knowledge base, from the use case over the client of the indexer, as
-- cmd/api/main.go wires them.
use superkb.Base.{ℕ, ◌≡◌, ◌≤◌, ◌∙◌, refl, sym, ap, List, [], ◌∷◌, arith, map, length}
use superkb.Base.Int.{pos}
use superkb.Base.Text.{Text}
use superkb.Domain.Errors.{Result, ok, err}
use superkb.Domain.Rag.{SearchResult}
use superkb.Exec.{Exec}
use superkb.Exec.Returns.{
  Returns, Returns-pure, Returns-fail, Returns-annotate, Returns-if, Returns-option, Returns-bind,
  Returns-any,
}
use superkb.Infra.Hindsight.{Indexer, Services}
use superkb.Infra.Hindsight.Calls as Client
use superkb.Infra.Recall.{effective_top_k}
use superkb.Infra.Vision.{Tools}
use superkb.Rules.Indexer.{recall_results-first}
use superkb.Rules.References.{uncited, add_references-uncited}
use superkb.Usecase.Memories.{serving}
use superkb.Usecase.Parts.{new_knowledge_base_use_case, with_converter}
use superkb.Usecase.Search.{SearchOptions, add_references, search_bank, search_kb}
use superkb.Wiring.{App, Process, wired}
use superkb.World.{World, Ports}
use superkb.World.Calls.{call, put_ext}

-- at most `n` results
abbrev AtMost : ℕ → List SearchResult → Type 0
AtMost n rs = length rs ≤ n

length-map : {A B : Type 0} (f : A → B) (xs : List A) → length (map f xs) ≡ length xs
length-map f [] = refl
length-map f (x ∷ xs) = rw (length-map f xs) refl

module _ {E A : Type 0} where
  put_ext-value :
      (w : World E) (r : Result A × E) (v : World E) (a : A)
      → put_ext w r ≡ (ok a, v)
      → r ≡ (ok a, r.1)
  put_ext-value w (ok b, x) v a h = ap (λ p. (p.0, x)) h
  put_ext-value w (err e, x) v a h = cc

  Returns-call : {Q : A → Type 0} (f : Exec E A) → Returns Q f → Returns Q (call f)
  unfolding call
  Returns-call f q = record {
    run = λ w v a h. q.run w.ext (f w.ext).1 a (put_ext-value w (f w.ext) v a h);
  }

module _ {E : Type 0} (S : Services E) (C : Indexer) where
  recall-AtMost :
      (bank query : Text) (k : ℕ)
      → Returns (AtMost (effective_top_k (pos k))) (Client.recall S C bank query k)
  unfolding Client.recall
  recall-AtMost bank query k =
      Returns-bind (Returns-any _) λ resp _. Returns-pure _ (recall_results-first (pos k) resp).0

module _ {E : Type 0} (P : Ports E) where
  add_references-AtMost :
      (n : ℕ) (rs : List SearchResult) → AtMost n rs → Returns (AtMost n) (add_references P [] rs)
  add_references-AtMost n rs few = record {
    run = λ x y a h.
        let (out, found, same) = add_references-uncited P rs x in
        let whole : a ≡ out = cc (h, found) in
        let all : length a ≡ length rs =
          sym (length-map uncited a)
          ∙ ap length (ap (map uncited) whole ∙ same)
          ∙ length-map uncited rs in
        ground (arith, all, few);
  }

  search_kb-AtMost :
      (n kb : ℕ) (query : Text) (opts : SearchOptions)
      → ((bank text : Text) → Returns (AtMost n) (P.indexer.recall bank text opts.top_k))
      → Returns (AtMost n) (search_kb P kb query opts)
  unfolding search_kb search_bank
  search_kb-AtMost n kb query opts few = Returns-if _ (Returns-fail _) (
      Returns-bind (Returns-any _) λ k _. Returns-option (serving k) (Returns-fail _) λ build_id.
        Returns-bind (Returns-any _) λ b _.
          Returns-bind (Returns-annotate _ (Returns-call _ (few _ _))) λ rs bounded.
            Returns-if _ (add_references-AtMost n rs bounded) (Returns-pure _ bounded))

module _ {E : Type 0} (R : Process E) (P : Ports E) (S : Services E) (T : Tools E)
    (pdftotext : Text → Result Text × Text) (app : App) where
  -- A search of the wired program that returns results returns at most as many as were asked for,
  -- and at most 5 where none were asked for, with references or without.
  pub search_kb-bounded :
      (kb : ℕ) (query : Text) (opts : SearchOptions) (w w' : World E) (rs : List SearchResult)
      → search_kb (wired R P S T pdftotext app) kb query opts w ≡ (ok rs, w')
      → length rs ≤ effective_top_k (pos opts.top_k)
  unfolding wired new_knowledge_base_use_case with_converter
  search_kb-bounded kb query opts w w' rs h =
      (search_kb-AtMost _ _ kb query opts
          (λ bank text. recall-AtMost S app.indexer bank text opts.top_k)).run
        w w' rs h
