-- ===== src/Postgres/Feedback.antt =====
-- postgres/memory_feedback_repository.go
use superkb.Base.{ℕ, Bool, ◌&&◌, ◌==◌, count_where, exists_where, if◌then◌else◌}
use superkb.Base.Text.{Text, lit, text_eq}
use superkb.Domain.Rag.{MemoryFeedback, MemoryConsensus}
use superkb.Domain.Errors.{ok, err, opaque, annotated}
use superkb.Exec.{◌>>◌}
use superkb.Postgres.Tables.{Db, has_kb, is_applied, upsert_feedback, insert_applied}
use superkb.World.{Ports}
use superkb.World.Calls.{M, query, execute}

-- the WHERE of the consensus query
abbrev pub concerns : ℕ → Text → Text → MemoryFeedback → Bool
concerns kb memory text f =
    (f.knowledge_base_id == kb) && text_eq f.memory_id memory && text_eq f.proposed_text text

-- COUNT(*) FILTER (WHERE vote = …) over those rows
unfoldable pub votes : Text → ℕ → Text → Text → Db → ℕ
votes vote kb memory text db =
    count_where (λ f. concerns kb memory text f && text_eq f.vote vote) db.memory_feedback

-- the row that the query returns, with the status that the code derives from it
unfoldable pub consensus_of : ℕ → Text → Text → Db → MemoryConsensus
consensus_of kb memory text db =
    let applied = exists_where (is_applied kb memory text) db.memory_consensus_applied in
    record {
      memory_id = memory;
      proposed_text = text;
      approvals = votes (lit "approve") kb memory text db;
      rejections = votes (lit "reject") kb memory text db;
      status = if applied then lit "applied" else lit "pending_consensus";
      applied = applied;
    }

module _ {E : Type 0} (P : Ports E) where
  unfoldable pub consensus : ℕ → Text → Text → M E MemoryConsensus
  consensus kb memory text =
      query P (lit "postgres: memory consensus") λ db. ok (consensus_of kb memory text db)

  unfoldable pub add_memory_feedback : MemoryFeedback → M E MemoryConsensus
  add_memory_feedback f = do
    execute P (lit "postgres: add memory feedback") λ db.
        if has_kb f.knowledge_base_id db
        then ok (upsert_feedback f db)
        else err
            (annotated (lit "postgres: add memory feedback") (opaque (lit "memory_feedback_fkey")))
    consensus f.knowledge_base_id f.memory_id f.proposed_text

  unfoldable pub mark_memory_consensus_applied : ℕ → Text → Text → M E (Unit {0})
  mark_memory_consensus_applied kb memory text =
      execute P (lit "postgres: mark memory consensus applied") λ db.
        if has_kb kb db
        then ok (insert_applied kb memory text db)
        else err (
            annotated (lit "postgres: mark memory consensus applied")
              (opaque (lit "memory_consensus_applied_fkey")))
