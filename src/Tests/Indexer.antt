-- ===== src/Tests/Indexer.antt =====
-- Replies of the indexer.
use superkb.Base.{◌≡◌, ◌≤◌, [], ◌∷◌, map, take, length}
use superkb.Base.Int.{pos}
use superkb.Base.Text.{Text}
use superkb.Domain.Rag.{SearchResult}
use superkb.Infra.Recall.{RecallResult, RecallResponse, effective_top_k, recall_results}
use superkb.Rules.Indexer.{recall_results-first}

abbrev found : Text → RecallResult
found id = record {
  id = id;
  text = [];
  document_id = [];
  context = [];
  entities = [];
  chunk_id = [];
}

abbrev pub response : RecallResponse
response = record { results = found (1 ∷ []) ∷ found (2 ∷ []) ∷ []; chunks = [] }

one_found :
    (length (recall_results (pos 1) response) ≤ effective_top_k (pos 1))
    × ((1 ≤ effective_top_k (pos 1))
        × (map (λ (r : SearchResult). r.memory_id) (recall_results (pos 1) response)
            ≡ map (λ (r : RecallResult). r.id) (take (effective_top_k (pos 1)) response.results)))
one_found = recall_results-first (pos 1) response
