-- ===== src/Tests/Failures.antt =====
-- Builds in an outside world whose bucket has lost every object.
use mathlib.Core.List.Memᴰ.{head, tail}
use superkb.Base.{
  arith, ℕ, ◌≡◌, refl, find_where, exists_where, update_where, select_where, sort_by, ◌++◌, [], ◌∷◌,
}
use superkb.Base.Text.{lit}
use superkb.Domain.{pending}
use superkb.Domain.Errors.{ok, err, sentinel, not_found, annotated}
use superkb.Healthy.Draining.{HasEnded, serve-HasEnded}
use superkb.Healthy.Failing.{Settled, process_build-Settled}
use superkb.Postgres.Tables.{find_build, update_build}
use superkb.Tests.Fixtures.{counter, waiting_world, build_of}
use superkb.Postgres.Builds as Repository
use superkb.Postgres.KnowledgeBases as Rows
use superkb.Postgres.KnowledgeBases.{members}
use superkb.Exec.{pure, fail, annotate, attempt, branch, ◌>>=◌}
use superkb.Usecase.Builds.{
  process_build, process_pending, run_build, mark_processing, index_documents, rag_documents,
  rag_document, read_content, fail_build,
}
use superkb.World.Calls.{call, ask, query, execute}
use superkb.Usecase.Worker.{serve}
use superkb.World.{World, Ports}

abbrev emptied : Ports ℕ
emptied = record counter {
  storage = record {
    put = λ key content size type n. (ok tt, n);
    get = λ key n. (err (sentinel not_found), n);
    delete = λ key n. (ok tt, n);
  };
}

process_build-Settled_example :
    Settled (build_of 3 pending) waiting_world.db (process_build emptied 3 waiting_world)
process_build-Settled_example =
    process_build-Settled emptied (λ x. refl) waiting_world 3 (build_of 3 pending)
      (unfold find_build find_where in refl) refl

lost :
    (process_build emptied 3 waiting_world).0
    ≡ err (annotated (lit "read " ++ (7 ∷ [])) (sentinel not_found))
unfolding process_build process_pending run_build mark_processing index_documents rag_documents
    rag_document read_content fail_build call ask query execute pure fail annotate attempt branch
    ◌>>=◌ Rows.list_documents Repository.get_by_id Repository.update update_build find_build
    find_where exists_where update_where members select_where sort_by
lost = refl

-- the build 3 waits, and a build that has no row
abbrev queued_world : World ℕ
queued_world = record waiting_world { queue = record { size = 4; items = 9 ∷ 3 ∷ [] } }

serve-HasEnded_example : HasEnded 3 (build_of 3 pending) (serve emptied 2 queued_world).db
serve-HasEnded_example =
    serve-HasEnded emptied (λ x. refl) queued_world 2 3 (build_of 3 pending) (omega arith)
      (tail (head refl)) (unfold find_build find_where in refl) refl
