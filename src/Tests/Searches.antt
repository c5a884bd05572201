-- ===== src/Tests/Searches.antt =====
-- A search of the wired program, where the indexer sends two results and one is asked for.
use superkb.Base.{ℕ, ◌≡◌, ◌≤◌, refl, false, [], ◌∷◌, length, find_where}
use superkb.Base.Int.{pos}
use superkb.Domain.{is_searchable}
use superkb.Domain.Errors.{ok}
use superkb.Exec.{pure, lift, observe, annotate, branch, ◌>>=◌}
use superkb.Infra.Hindsight.{Services, exchange, answered, send_json}
use superkb.Infra.Hindsight.Calls as Client
use superkb.Infra.Http.{is_refusal}
use superkb.Infra.Recall.{effective_top_k, recall_results}
use superkb.Postgres.Builds
use superkb.Postgres.KnowledgeBases
use superkb.Postgres.Tables.{find_kb, find_build}
use superkb.Tests.Client.{stalled}
use superkb.Tests.Converter.{tools}
use superkb.Tests.Fixtures.{counter, served_world}
use superkb.Tests.Indexer.{response}
use superkb.Tests.Missing.{process, app}
use superkb.Usecase.Search.{SearchOptions, search_bank, search_kb}
use superkb.Usecase.Parts.{new_knowledge_base_use_case, with_converter}
use superkb.Wiring.{wired}
use superkb.Wiring.Bounded.{search_kb-bounded}
use superkb.World.{Ports}
use superkb.World.Calls.{call, query}

abbrev answering : Services ℕ
answering = record stalled { decode_recall = λ body n. (ok response, n) }

abbrev program : Ports ℕ
program = wired process counter answering tools (λ s. (ok [], [])) app

abbrev one : SearchOptions
one = record { top_k = 1; include_references = false }

searched :
    search_kb program 1 (b'q' ∷ []) one served_world
    ≡ (ok (recall_results (pos 1) response), record served_world { ext = 11 })
unfolding search_kb search_bank KnowledgeBases.get_by_id Builds.get_by_id find_kb find_build
    find_where query call annotate lift observe pure branch ◌>>=◌ Client.recall send_json exchange
    answered is_refusal is_searchable wired new_knowledge_base_use_case with_converter
searched = refl

search_kb-bounded_example : length (recall_results (pos 1) response) ≤ effective_top_k (pos 1)
search_kb-bounded_example =
    search_kb-bounded process counter answering tools (λ s. (ok [], [])) app 1 (b'q' ∷ []) one
      served_world (record served_world { ext = 11 }) (recall_results (pos 1) response) searched
