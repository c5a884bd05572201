-- ===== src/Infra/Recall.antt =====
-- infra/hindsight/indexer.go: `bankPath`, the results of `Recall`, and `RetainMemories`.
use superkb.Base.{
  ℕ, zero, suc, Option, none, some, List, [], ◌∷◌, ◌++◌, is_nil, map, take, if◌then◌else◌,
}
use superkb.Base.Int.{ℤ, pos, negsuc}
use superkb.Base.Text.{Text, lit, text_eq}
use superkb.Domain.Rag.{SearchResult}

-- the parts of a path, each behind a slash
abbrev slashed : List Text → Text
slashed [] = []
slashed (part ∷ parts) = b'/' ∷ (part ++ slashed parts)

-- `bankPath`
unfoldable pub bank_path : Text → Text → List Text → Text
bank_path base_url profile parts =
    base_url ++ (lit "/v1/" ++ (profile ++ (lit "/banks" ++ slashed parts)))

pub record RecallResult : Type 0 where
  pub id : Text
  pub text : Text
  pub document_id : Text
  pub context : Text
  pub entities : List Text
  pub chunk_id : Text

pub record RecallChunk : Type 0 where
  pub id : Text
  pub text : Text
  pub chunk_index : ℕ

pub record RecallResponse : Type 0 where
  pub results : List RecallResult
  -- a map by the chunk's id, one entry for a key
  pub chunks : List (Text × RecallChunk)

-- `resp.Chunks[id]`
unfoldable pub find_chunk : Text → List (Text × RecallChunk) → Option RecallChunk
find_chunk id [] = none
find_chunk id ((key, c) ∷ cs) = if text_eq key id then some c else find_chunk id cs

-- `topK`, 5 if it is not positive
unfoldable pub effective_top_k : ℤ → ℕ
effective_top_k (negsuc n) = 5
effective_top_k (pos zero) = 5
effective_top_k (pos (suc n)) = suc n

abbrev pub with_chunk : Option RecallChunk → SearchResult → SearchResult
with_chunk none r = r
with_chunk (some c) r = record r { chunk_text = c.text; chunk_index = c.chunk_index }

-- one round of the loop of `Recall`
unfoldable pub to_search_result : List (Text × RecallChunk) → RecallResult → SearchResult
unfolding find_chunk
to_search_result chunks r =
    with_chunk (if is_nil r.chunk_id then none else find_chunk r.chunk_id chunks) (record {
      memory_id = r.id;
      document_id = r.document_id;
      content = r.text;
      context = r.context;
      entities = r.entities;
      chunk_id = r.chunk_id;
      chunk_index = 0;
      chunk_text = [];
      file_url = [];
      filename = [];
      page = 0;
    })

-- `Recall` on the response: the loop stops before the result of index `topK`
unfoldable pub recall_results : ℤ → RecallResponse → List SearchResult
unfolding effective_top_k to_search_result
recall_results top_k resp =
    map (to_search_result resp.chunks) (take (effective_top_k top_k) resp.results)
