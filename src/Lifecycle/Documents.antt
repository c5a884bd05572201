-- ===== src/Lifecycle/Documents.antt =====
-- The operations of usecase/document.go, and the votes of usecase/knowledge_base.go, against the
-- specification of the tables.
use superkb.Base.{ℕ, ◌≡◌, not, ◌&&◌, ◌||◌, is_nil}
use superkb.Base.Text.{Text, lit, text_eq}
use superkb.Base.Text.Strings.{is_blank}
use superkb.Domain.{Document}
use superkb.Lifecycle.Ends.{Any}
use superkb.Lifecycle.Frames.{curate_memory-Runs}
use superkb.Lifecycle.Runs.{
  Runs, Runs-pure, Runs-fail, Runs-if, Runs-lift, Runs-weaken, Runs-annotate, Runs-ask, Runs-call,
  Runs-bind,
}
use superkb.Lifecycle.Statements.{
  get_document-Runs, create_document-Runs, delete_document-Runs, add_memory_feedback-Runs,
  mark_memory_consensus_applied-Runs,
}
use superkb.Lifecycle.Steps.{Grow, Step}
use superkb.Postgres.Documents as Rows
use superkb.Postgres.Tables.{Db, find_document, insert_document}
use superkb.Postgres.Tables.Laws.{find_document-insert_new, find_document-delete_document}
use superkb.Base.{none, some, ==_refl}
use superkb.Usecase.Documents as Documents
use superkb.Usecase.Documents.{UploadInput}
use superkb.Usecase.Memories as Memories
use superkb.World.{Ports}
use superkb.Domain.Rag.{MemoryConsensus}

-- A document that is returned is in its table, with the times that the table keeps.
abbrev pub Kept : {E : Type 0} → Ports E → Document → Db → Type 0
Kept Pt d db = find_document d.id db.documents ≡ some (Rows.kept Pt d)

Kept-insert_document :
    {E : Type 0} (Pt : Ports E) (d : Document) (db : Db)
    → find_document d.id db.documents ≡ none
    → Kept Pt d (insert_document (Rows.kept Pt d) db)
Kept-insert_document Pt d db fresh =
    rw (find_document-insert_new db d.id (Rows.kept Pt d) fresh, ==_refl)

module _ {E : Type 0} (Pt : Ports E) where
  store-Runs : (i : UploadInput) → Runs Grow Any (Documents.store Pt i) (Kept Pt) Any
  unfolding Documents.store
  store-Runs i = Runs-bind (Runs-ask Pt.new_uuid) λ id.
      Runs-bind (Runs-annotate _ (Runs-call _ (λ _ _. tt))) λ _. Runs-bind (Runs-ask Pt.now) λ now.
        Runs-bind (Runs-lift _ (λ _ _ p. p) (λ _ _. tt)) λ _.
          Runs-bind
            (Runs-annotate _ (
              create_document-Runs Pt (λ _ _. tt) {Q = λ db. Kept Pt _ db} _
                (λ db _ fresh. Kept-insert_document Pt _ db fresh)))
            (λ _. Runs-pure _ (λ _ h. h))

  pub upload-Runs : (i : UploadInput) → Runs Grow Any (Documents.upload Pt i) (Kept Pt) Any
  unfolding Documents.upload
  upload-Runs i =
      Runs-if (is_nil i.title) (λ _. Runs-fail _ (λ _ _. tt))
        λ _. Runs-if (is_nil i.content) (λ _. Runs-fail _ (λ _ _. tt)) (λ _. store-Runs i)

  -- after a deletion that succeeds the document is gone
  pub delete-Runs :
      (id : ℕ)
      → Runs Step Any (Documents.delete Pt id) (λ _ db. find_document id db.documents ≡ none) Any
  unfolding Documents.delete
  delete-Runs id = Runs-bind (Runs-annotate _ (get_document-Runs Pt (λ _ _. tt) id)) λ d.
      Runs-bind (Runs-annotate _ (Runs-call _ (λ _ _. tt))) λ _. Runs-annotate _ (
        delete_document-Runs Pt (λ _ _. tt) id
          (λ db _. rw (find_document-delete_document, ==_refl)))

  apply_consensus-Runs :
      (kb_id : ℕ) (memory_id : Text) (c : MemoryConsensus)
      → Runs Grow Any (Memories.apply_consensus Pt kb_id memory_id c) (λ _. Any) Any
  unfolding Memories.apply_consensus
  apply_consensus-Runs kb_id memory_id c =
      Runs-bind (Runs-annotate _ (curate_memory-Runs Pt kb_id memory_id _)) λ _.
        Runs-bind
          (Runs-annotate _ (
            mark_memory_consensus_applied-Runs Pt (λ _ _. tt) {Q = Any} kb_id memory_id
              c.proposed_text (λ _ _. tt)))
          (λ _. Runs-pure _ (λ _ _. tt))

  record_vote-Runs :
      (kb_id : ℕ) (memory_id : Text) (i : Memories.MemoryFeedbackInput)
      → Runs Grow Any (Memories.record_vote Pt kb_id memory_id i) (λ _. Any) Any
  unfolding Memories.record_vote
  record_vote-Runs kb_id memory_id i =
      Runs-bind {Q = λ _. Any}
        (Runs-annotate _ (
          Runs-weaken (add_memory_feedback-Runs Pt {P = Any} {X = Any} _ (λ _ _. tt) (λ _ _. tt))
            (λ _ _. tt) (λ _ _ _. tt) (λ _ _. tt)))
        λ c.
          Runs-bind {Q = λ _. Any}
            (Runs-if (Memories.reaches_consensus Pt i.vote c)
              (λ _. apply_consensus-Runs kb_id memory_id c) (λ _. Runs-pure _ (λ _ _. tt)))
            (λ _. Runs-pure _ (λ _ _. tt))

  pub submit_memory_feedback-Runs :
      (kb_id : ℕ) (memory_id : Text) (i : Memories.MemoryFeedbackInput)
      → Runs Grow Any (Memories.submit_memory_feedback Pt kb_id memory_id i) (λ _. Any) Any
  unfolding Memories.submit_memory_feedback
  submit_memory_feedback-Runs kb_id memory_id i =
      Runs-if (not Pt.has_feedback) (λ _. Runs-fail _ (λ _ _. tt))
        λ _.
          Runs-if (is_blank memory_id || is_blank i.reviewer || is_blank i.vote)
            (λ _. Runs-fail _ (λ _ _. tt))
            λ _.
              Runs-if (not (text_eq i.vote (lit "approve")) && not (text_eq i.vote (lit "reject")))
                (λ _. Runs-fail _ (λ _ _. tt)) (λ _. record_vote-Runs kb_id memory_id i)
