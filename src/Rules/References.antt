-- ===== src/Rules/References.antt =====
-- `addReferences` of usecase/knowledge_base.go: what it may change of the results.
use superkb.Base.{◌≡◌, refl, Option, none, some, List, [], ◌∷◌, is_nil, map}
use superkb.Base.Text.{Text}
use superkb.Domain.{Document}
use superkb.Domain.Errors.{Result, ok, err}
use superkb.Domain.Rag.{SearchResult}
use superkb.Healthy.Totals.{
  Given, Total, Total-pure, Total-bind, Total-if, Total-either, Total-known,
}
use superkb.Lifecycle.Ends.{Any}
use superkb.Postgres.Tables.{Db}
use superkb.Usecase.References.{enrich_reference}
use superkb.Usecase.Search.{
  Cache, CacheEntry, cached, extract_pages, resolve, look_up, enriched, add_reference,
  add_references,
}
use superkb.World.{World, Ports}
use superkb.World.Calls.{M}

-- a result without the fields that a reference sets
abbrev pub uncited : SearchResult → SearchResult
uncited r = record r { file_url = []; filename = []; page = 0 }

module _ {E A B : Type 0} {Q : B → Db → Type 0} where
  Total-option :
      (o : Option A) (m : M E B) (f : A → M E B)
      → Total Any m Q
      → ((a : A) → Total Any (f a) Q)
      → Total Any (elim o [ none ↦ m | some a ↦ f a ]) Q
  Total-option none m f hm hf = hm
  Total-option (some a) m f hm hf = hf a

-- nothing that the caller relies on
abbrev Anything : {A : Type 0} → A → Db → Type 0
Anything a db = Unit {0}

module _ {E : Type 0} (P : Ports E) where
  extract_pages-Total : (d : Document) → Total Any (extract_pages P d) Anything
  unfolding extract_pages
  extract_pages-Total d = Total-option P.extractor _ _ (Total-pure _ (λ _ _. tt)) λ extract.
      Total-either Anything _
        (λ content.
          Total-either Anything _ (λ pages. Total-pure _ (λ _ _. tt))
            (λ _. Total-pure _ (λ _ _. tt)))
        (λ _. Total-pure _ (λ _ _. tt))

  resolve-Total : (id : Text) → Total Any (resolve P id) Anything
  unfolding resolve
  resolve-Total id = Total-option (P.parse_uuid id) _ _ (Total-pure _ (λ _ _. tt)) λ i.
      Total-either Anything _
        (λ d. Total-bind (extract_pages-Total d) (λ pages. Total-pure _ (λ _ _. tt)))
        (λ _. Total-pure _ (λ _ _. tt))

  look_up-Total : (cache : Cache) (id : Text) → Total Any (look_up P cache id) Anything
  unfolding look_up
  look_up-Total cache id =
      Total-option (cached id cache) _ _
        (Total-bind (resolve-Total id) (λ entry. Total-pure _ (λ _ _. tt)))
        (λ entry. Total-pure _ (λ _ _. tt))

  uncited-enriched :
      (entry : CacheEntry) (r : SearchResult) → uncited (enriched P entry r) ≡ uncited r
  unfolding enrich_reference
  uncited-enriched none r = refl
  uncited-enriched (some (d, pages)) r = refl

  add_reference-Total :
      (cache : Cache) (r : SearchResult)
      → Total Any (add_reference P cache r) (λ step _. uncited step.0 ≡ uncited r)
  unfolding add_reference
  add_reference-Total cache r =
      Total-if (is_nil r.document_id) (λ _. Total-pure _ (λ _ _. refl))
        λ _.
          Total-bind (look_up-Total cache r.document_id)
            (λ found. Total-pure _ (λ _ _. uncited-enriched found.0 r))

  add_references-Total :
      (cache : Cache) (rs : List SearchResult)
      → Total Any (add_references P cache rs) (λ out _. map uncited out ≡ map uncited rs)
  unfolding add_references
  add_references-Total cache [] = Total-pure [] (λ _ _. refl)
  add_references-Total cache (r ∷ rs) = Total-bind (add_reference-Total cache r) λ step.
      Total-known {F = uncited step.0 ≡ uncited r} (λ _ e. e)
        λ same. Total-bind (add_references-Total step.1 rs) λ rest.
          Total-known {F = map uncited rest ≡ map uncited rs} (λ _ e. e)
            λ others. Total-pure _ (λ _ _. cc (same, others))

  Given-ok :
      {A : Type 0} (Q : A → Type 0) (r : Result A × World E)
      → Given (λ a _. Q a) r
      → (a : A) × (r.0 ≡ ok a) × Q a
  Given-ok Q (ok a, w) h = (a, refl, h)
  Given-ok Q (err e, w) h = absurd h

  -- Whatever fails on the way, `addReferences` returns every result, in the order of the recall,
  -- and changes no field of any but the file's URL, the filename and the page.
  pub add_references-uncited :
      (rs : List SearchResult) (w : World E)
      → (out : List SearchResult) × ((add_references P [] rs w).0 ≡ ok out)
        × (map uncited out ≡ map uncited rs)
  add_references-uncited rs w =
      Given-ok (λ out. map uncited out ≡ map uncited rs) (add_references P [] rs w)
        ((add_references-Total [] rs).run w tt)
