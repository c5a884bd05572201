-- ===== src/Usecase/Search.antt =====
-- usecase/knowledge_base.go: `Search` and the references of its results.
use superkb.Base.{ℕ, Bool, Option, none, some, List, [], ◌∷◌, is_nil, if◌then◌else◌}
use superkb.Base.Text.{Text, lit, text_eq}
use superkb.Domain.{Document}
use superkb.Domain.Errors.{refusal, invalid_input, conflict}
use superkb.Domain.Rag.{SearchResult}
use superkb.Exec.{pure, fail, annotate, branch, ◌>>=◌}
use superkb.Postgres.Documents
use superkb.Postgres.KnowledgeBases
use superkb.Postgres.Builds
use superkb.Usecase.Builds.{read_content}
use superkb.Usecase.Memories.{serving}
use superkb.Usecase.References.{enrich_reference}
use superkb.World.{Ports}
use superkb.World.Calls.{M, call}

-- `TopK` is handed to the indexer as it is; a negative one is not modelled
pub record SearchOptions : Type 0 where
  pub top_k : ℕ
  pub include_references : Bool

-- `cacheEntry`: a document with its pages, or nothing
abbrev pub CacheEntry : Type 0
CacheEntry = Option (Document × List Text)

abbrev pub Cache : Type 0
Cache = List (Text × CacheEntry)

-- `cache[docID]`
unfoldable pub cached : Text → Cache → Option CacheEntry
cached key [] = none
cached key ((k, entry) ∷ cache) = if text_eq k key then some entry else cached key cache

module _ {E : Type 0} (P : Ports E) where
  -- `extractPages`: nil on any failure
  unfoldable pub extract_pages : Document → M E (List Text)
  extract_pages doc = elim P.extractor [
    | none ↦ pure []
    | some extract ↦
        branch (read_content P doc.storage_key)
          (λ content. branch (call (extract content doc.content_type)) pure (λ _. pure []))
          (λ _. pure [])
  ]

  -- a cache entry for a document that is not cached yet
  unfoldable pub resolve : Text → M E CacheEntry
  resolve doc_id = elim (P.parse_uuid doc_id) [
    | none ↦ pure none
    | some id ↦
        branch (Documents.get_by_id P id)
          (λ doc. do pages ← extract_pages doc; pure (some (doc, pages))) (λ _. pure none)
  ]

  unfoldable pub look_up : Cache → Text → M E (CacheEntry × Cache)
  look_up cache doc_id = elim (cached doc_id cache) [
    | some entry ↦ pure (entry, cache)
    | none ↦ do entry ← resolve doc_id; pure (entry, (doc_id, entry) ∷ cache)
  ]

  abbrev pub enriched : CacheEntry → SearchResult → SearchResult
  enriched none r = r
  enriched (some (doc, pages)) r = enrich_reference r doc pages P.public_base_url

  -- one round of the loop of `addReferences`
  unfoldable pub add_reference : Cache → SearchResult → M E (SearchResult × Cache)
  add_reference cache r =
      if is_nil r.document_id
      then pure (r, cache)
      else do found ← look_up cache r.document_id; pure (enriched found.0 r, found.1)

  unfoldable pub add_references : Cache → List SearchResult → M E (List SearchResult)
  add_references cache [] = pure []
  add_references cache (r ∷ rs) = do
    step ← add_reference cache r
    rest ← add_references step.1 rs
    pure (step.0 ∷ rest)

  -- `Search` once the build is known
  unfoldable pub search_bank : Text → Text → SearchOptions → M E (List SearchResult)
  search_bank bank_id query opts = do
    results ← annotate (lit "search: recall") (call (P.indexer.recall bank_id query opts.top_k))
    if opts.include_references then add_references [] results else pure results

  unfoldable pub search_kb : ℕ → Text → SearchOptions → M E (List SearchResult)
  search_kb kb_id query opts =
      if is_nil query
      then fail (refusal (lit "search: ") invalid_input (lit ": query required"))
      else do
        kb ← annotate (lit "search: kb") (KnowledgeBases.get_by_id P kb_id)
        elim (serving kb) [
          | none ↦ fail (
              refusal (lit "search: ") conflict
                (lit ": knowledge base is not enabled or has no active build"))
          | some build_id ↦ do
            build ← annotate (lit "search: active build") (Builds.get_by_id P build_id)
            search_bank build.bank_id query opts
        ]
