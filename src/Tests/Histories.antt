-- ===== src/Tests/Histories.antt =====
-- Concrete histories.
use superkb.Base.{ℕ, ◌≡◌, refl, true, false, some, List, [], ◌∷◌, find_where}
use superkb.Base.Text.{lit, text_eq}
use superkb.Domain.{ready, validate_document}
use superkb.Domain.Errors.{ok}
use superkb.Exec.{◌>>=◌, branch, attempt}
use superkb.Lifecycle.History.{
  Operation, request, removal, enable_kb, build_kb, add_document, work, delete_document, upload,
  create_kb, disable_kb, perform_all, perform_all-IsConsistent, perform_all-Reach, answer_all,
  perform, answer,
}
use superkb.Lifecycle.Invariant.{IsConsistent}
use superkb.Lifecycle.Steps.{Reach, Step}
use superkb.Lifecycle.Searches.{Searched, perform_all-Searched}
use superkb.Usecase.Search.{SearchOptions, search_kb, search_bank}
use superkb.Base.{select_where, exists_where, sort_by, update_where}
use superkb.Postgres.Documents as Docs
use superkb.Postgres.Tables.{
  find_kb, find_build, find_document, update_kb, update_build, insert_document, insert_kb,
  insert_build, insert_member,
}
use superkb.Postgres.Builds
use superkb.Postgres.KnowledgeBases
use superkb.Usecase.KnowledgeBases as Usecase
use superkb.Usecase.Builds as Building
use superkb.Usecase.Documents as Uploading
use superkb.Usecase.Queue.{enqueue, receive, send}
use superkb.Usecase.Worker.{serve_next}
use superkb.Usecase.Memories.{active_bank_id}
use superkb.World.Calls.{ask, query, execute, call}
use superkb.World.{World}
use superkb.Base.{count_where}
use superkb.Base.Text.Strings.{is_blank}
use superkb.Domain.{is_searchable}
use superkb.Lifecycle.History.{vote}
use superkb.Lifecycle.Outcomes.{answer_all-Persists}
use superkb.Lifecycle.Snapshot.{Persists}
use superkb.Lifecycle.Reviewers.{TwoApprovals, consensus_of_two}
use superkb.Postgres.Feedback
use superkb.Postgres.Feedback.{consensus_of, votes}
use superkb.Postgres.Tables.{upsert_feedback}
use superkb.Usecase.Memories.{
  submit_memory_feedback, record_vote, apply_consensus, curate_memory, reaches_consensus,
}
use superkb.Tests.Fixtures.{counter, served_world, idle_world, empty_world, build_of, leaflet, hit}

pub empty_world-IsConsistent : IsConsistent empty_world.db
empty_world-IsConsistent = record { active = λ i j k h a. absurd (unfold find_kb in cc h) }

-- a document is uploaded, joined to a new knowledge base, built, and enabled
abbrev day : List Operation
day =
    request (upload leaflet)
    ∷ request (create_kb (b'n' ∷ []) [])
    ∷ request (add_document 13 10)
    ∷ request (build_kb 13)
    ∷ request work
    ∷ request (enable_kb 13 15)
    ∷ []

abbrev evening : World ℕ
evening = perform_all counter day empty_world

perform_all-IsConsistent_example :
    IsConsistent (perform_all counter (removal (delete_document 7) ∷ day) empty_world).db
perform_all-IsConsistent_example =
    perform_all-IsConsistent counter (removal (delete_document 7) ∷ day) empty_world
      empty_world-IsConsistent

perform_all-Reach_example : Reach Step empty_world.db evening.db
perform_all-Reach_example = perform_all-Reach counter day empty_world

abbrev plain : SearchOptions
plain = record { top_k = 3; include_references = false }

evening-searched :
    search_kb counter 13 (b'q' ∷ []) plain evening
    ≡ (ok (hit ∷ []), (search_kb counter 13 (b'q' ∷ []) plain evening).1)
unfolding search_kb search_bank is_searchable find_kb perform_all perform answer Usecase.create
    Usecase.add_document Usecase.enable Usecase.activate Building.build Building.schedule
    Building.process_build Building.process_pending Building.run_build Building.mark_processing
    Building.index_documents Building.rag_documents Building.rag_document Building.read_content
    Building.finalize Uploading.upload Uploading.store validate_document ◌>>=◌ branch attempt ask
    call query execute KnowledgeBases.create KnowledgeBases.get_by_id KnowledgeBases.update
    KnowledgeBases.add_document KnowledgeBases.list_documents KnowledgeBases.members Builds.create
    Builds.get_by_id Builds.update Docs.create Docs.get_by_id insert_document insert_kb insert_build
    insert_member update_kb update_build find_build find_document enqueue receive send serve_next
    select_where exists_where sort_by update_where find_where lit
evening-searched = refl

perform_all-Searched_example :
    Searched counter 13
      (b'q' ∷ [])
      plain
      evening
      (hit ∷ [])
      (search_kb counter 13 (b'q' ∷ []) plain evening).1
perform_all-Searched_example =
    perform_all-Searched counter day empty_world (search_kb counter 13 (b'q' ∷ []) plain evening).1
      13 (b'q' ∷ []) plain (hit ∷ []) empty_world-IsConsistent evening-searched

-- the build 2 is ready when the requests come
build-found : find_build 2 served_world.db.kb_builds ≡ some (build_of 2 ready)
unfolding find_build
build-found = refl

answer_all-Persists_example :
    Persists 2
      (build_of 2 ready)
      (answer_all counter (build_kb 1 ∷ work ∷ disable_kb 1 ∷ enable_kb 1 2 ∷ []) served_world).db
answer_all-Persists_example =
    answer_all-Persists counter served_world (build_kb 1 ∷ work ∷ disable_kb 1 ∷ enable_kb 1 2 ∷ [])
      2 (build_of 2 ready) build-found

-- two reviewers approve a correction while nothing serves, so that it cannot be applied yet
abbrev approval : ℕ → Operation
approval reviewer = request (
    vote 1 (b'm' ∷ []) (record {
      reviewer = reviewer ∷ [];
      vote = b'a' ∷ b'p' ∷ b'p' ∷ b'r' ∷ b'o' ∷ b'v' ∷ b'e' ∷ [];
      proposed_text = b'x' ∷ [];
    }))

abbrev approved : World ℕ
approved = perform_all counter (approval b'c' ∷ approval b'd' ∷ []) idle_world

agreed :
    reaches_consensus counter (lit "approve") (consensus_of 1 (b'm' ∷ []) (b'x' ∷ []) approved.db)
    ≡ true
unfolding perform_all perform answer submit_memory_feedback record_vote apply_consensus
    curate_memory active_bank_id is_searchable Feedback.add_memory_feedback Feedback.consensus
    consensus_of votes count_where exists_where update_where upsert_feedback find_kb find_where
    KnowledgeBases.get_by_id is_blank text_eq lit ◌>>=◌ call query execute
agreed = refl

consensus_of_two_example : TwoApprovals 1 (b'm' ∷ []) (b'x' ∷ []) approved.db.memory_feedback
consensus_of_two_example =
    consensus_of_two counter (approval b'c' ∷ approval b'd' ∷ []) idle_world 1 (b'm' ∷ [])
      (b'x' ∷ []) (lit "approve") tt agreed
