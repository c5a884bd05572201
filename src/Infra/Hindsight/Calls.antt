-- ===== src/Infra/Hindsight/Calls.antt =====
-- infra/hindsight/indexer.go: the methods that make one request.
use superkb.Base.{ℕ, List, [], ◌∷◌, is_nil, map, if◌then◌else◌}
use superkb.Base.Int.{pos}
use superkb.Base.Text.{Text, lit}
use superkb.Domain.Rag.{Memory, MemoryCuration, SearchResult}
use superkb.Exec.{Exec, pure, ◌>>=◌}
use superkb.Infra.Hindsight.Messages.{
  empty_object, memory_items, curation_of, recall_of, retain_memory_request, curate_memory_request,
  recall_request, to_domain_memory,
}
use superkb.Infra.Recall.{effective_top_k, recall_results}
use superkb.Infra.Hindsight.{Indexer, Services, path, undecoded, send_json, send_plain}

module _ {E : Type 0} (S : Services E) (C : Indexer) where
  -- `CreateBank`
  unfoldable pub create_bank : Text → Exec E (Unit {0})
  create_bank bank = send_json S C (lit "PUT") (path C (bank ∷ [])) empty_object (undecoded S C)

  -- `DeleteBank`
  unfoldable pub delete_bank : Text → Exec E (Unit {0})
  delete_bank bank = send_plain S C (lit "DELETE") (path C (bank ∷ [])) (undecoded S C)

  -- `RetainMemories`
  unfoldable pub retain_memories : Text → List Memory → Exec E (List Memory)
  retain_memories bank memories =
      if is_nil memories
      then pure []
      else (send_json S C (lit "POST") (path C (bank ∷ lit "memories" ∷ []))
            (memory_items (map retain_memory_request memories)) S.decode_memories
          >>= λ _. pure memories)

  -- `CurateMemory`
  unfoldable pub curate_memory : Text → Text → MemoryCuration → Exec E Memory
  curate_memory bank memory curation =
      send_json S C (lit "PATCH") (path C (bank ∷ lit "memories" ∷ memory ∷ []))
        (curation_of (curate_memory_request curation)) S.decode_memory
      >>= λ resp. pure (to_domain_memory resp)

  -- `Recall`
  unfoldable pub recall : Text → Text → ℕ → Exec E (List SearchResult)
  recall bank query top_k =
      send_json S C (lit "POST") (path C (bank ∷ lit "memories" ∷ lit "recall" ∷ []))
        (recall_of (recall_request query (effective_top_k (pos top_k)))) S.decode_recall
      >>= λ resp. pure (recall_results (pos top_k) resp)
