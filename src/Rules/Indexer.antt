-- ===== src/Rules/Indexer.antt =====
-- infra/hindsight/indexer.go: what a recall returns.
use superkb.Base.{
  ℕ, zero, suc, ◌≤◌, ◌≡◌, refl, Option, none, some, List, [], ◌∷◌, arith, map, take, length,
}
use superkb.Base.Int.{ℤ, pos, negsuc}
use superkb.Base.Text.{Text}
use superkb.Domain.Rag.{SearchResult}
use superkb.Infra.Recall.{
  RecallResult, RecallResponse, RecallChunk, with_chunk, to_search_result, effective_top_k,
  recall_results,
}

length-map-take :
    (n : ℕ) (f : RecallResult → SearchResult) (rs : List RecallResult)
    → length (map f (take n rs)) ≤ n
length-map-take zero f rs = omega arith
length-map-take (suc n) f [] = omega arith
length-map-take (suc n) f (r ∷ rs) = omega (arith, length-map-take n f rs)

id-with_chunk :
    (c : Option RecallChunk) (r : SearchResult) → (with_chunk c r).memory_id ≡ r.memory_id
id-with_chunk none r = refl
id-with_chunk (some c) r = refl

id-to_search_result :
    (chunks : List (Text × RecallChunk)) (r : RecallResult)
    → (to_search_result chunks r).memory_id ≡ r.id
unfolding to_search_result
id-to_search_result chunks r = id-with_chunk _ _

map-ids :
    (chunks : List (Text × RecallChunk)) (rs : List RecallResult)
    → map (λ (r : SearchResult). r.memory_id) (map (to_search_result chunks) rs)
      ≡ map (λ (r : RecallResult). r.id) rs
map-ids chunks [] = refl
map-ids chunks (r ∷ rs) = rw (id-to_search_result, map-ids chunks rs) refl

effective_top_k-positive : (z : ℤ) → 1 ≤ effective_top_k z
unfolding effective_top_k
effective_top_k-positive (negsuc n) = omega arith
effective_top_k-positive (pos zero) = omega arith
effective_top_k-positive (pos (suc n)) = omega arith

-- A recall returns at most as many results as were asked for, 5 where that number is not positive,
-- and they are the first of the response, in its order.
pub recall_results-first :
    (top_k : ℤ) (resp : RecallResponse)
    → (length (recall_results top_k resp) ≤ effective_top_k top_k)
      × ((1 ≤ effective_top_k top_k)
          × (map (λ (r : SearchResult). r.memory_id) (recall_results top_k resp)
              ≡ map (λ (r : RecallResult). r.id) (take (effective_top_k top_k) resp.results)))
unfolding recall_results
recall_results-first top_k resp = (
  length-map-take (effective_top_k top_k) _ resp.results,
  (effective_top_k-positive top_k, map-ids resp.chunks (take (effective_top_k top_k) resp.results)),
)
