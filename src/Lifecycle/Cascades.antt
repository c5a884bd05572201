-- ===== src/Lifecycle/Cascades.antt =====
-- What the constraints of the schema say of whole histories, and of the deletions of
-- internal/usecase.
use superkb.Base.{ℕ, ◌≡◌, ◌≢◌, ap, ◌∙◌, false, Option, none, true, List}
use superkb.Base.Rows.{All, All-weaken}
use superkb.Domain.{is_some}
use superkb.Domain.Errors.{ok}
use superkb.Lifecycle.History.{
  Operation, Removal, removal, remove, perform, delete_document, delete_kb, perform_all,
  perform_all-Reach, perform-Reach,
}
use superkb.Lifecycle.Outcomes.{find_document-delete, find_kb-delete}
use superkb.Lifecycle.Schema.{HoldsSchema}
use superkb.Lifecycle.Schema.Reached.{Reach-HoldsSchema}
use superkb.Postgres.Tables.{Db, find_document, find_kb}
use superkb.Usecase.Documents as UsecaseDocuments
use superkb.Usecase.KnowledgeBases as UsecaseKbs
use superkb.World.{World, Ports}

-- No row of any table has anything of the knowledge base of id `i`.
pub record KbGone (i : ℕ) (db : Db) : Type 0 where
  pub row : find_kb i db.knowledge_bases ≡ none
  pub members : All (λ m. m.knowledge_base_id ≢ i) db.kb_documents
  pub builds : All (λ b. b.knowledge_base_id ≢ i) db.kb_builds
  pub feedback : All (λ f. f.knowledge_base_id ≢ i) db.memory_feedback
  pub applied : All (λ a. a.knowledge_base_id ≢ i) db.memory_consensus_applied

pub record DocumentGone (i : ℕ) (db : Db) : Type 0 where
  pub row : find_document i db.documents ≡ none
  pub members : All (λ m. m.document_id ≢ i) db.kb_documents

-- an id that has a row is another than one that has none
has-other :
    {A : Type 0} (find : ℕ → Option A) (i j : ℕ) → find i ≡ none → is_some (find j) ≡ true → j ≢ i
has-other find i j gone has e =
    let lost : is_some (find j) ≡ false = ap (λ n. is_some (find n)) e ∙ ap is_some gone in
    cc (lost, has)

HoldsSchema-KbGone :
    (i : ℕ) (db : Db) → HoldsSchema db → find_kb i db.knowledge_bases ≡ none → KbGone i db
HoldsSchema-KbGone i db h gone =
    let other = has-other (λ n. find_kb n db.knowledge_bases) i in
    record {
      row = gone;
      members = All-weaken _ _ db.kb_documents (λ m. other m.knowledge_base_id gone) h.members.1;
      builds = All-weaken _ _ db.kb_builds (λ b. other b.knowledge_base_id gone) h.builds.1;
      feedback =
          All-weaken _ _ db.memory_feedback (λ f. other f.knowledge_base_id gone) h.feedback.1;
      applied =
          All-weaken _ _ db.memory_consensus_applied (λ a. other a.knowledge_base_id gone)
            h.applied.1;
    }

module _ {E : Type 0} (P : Ports E) where
  -- Any sequence of operations and turns of the worker, whatever fails in it, keeps the primary
  -- keys and the foreign keys of the schema.
  pub perform_all-HoldsSchema :
      (os : List Operation) (w : World E) → HoldsSchema w.db → HoldsSchema (perform_all P os w).db
  perform_all-HoldsSchema os w = Reach-HoldsSchema (perform_all-Reach P os w)

  remove-HoldsSchema :
      (r : Removal) (w : World E) → HoldsSchema w.db → HoldsSchema (remove P r w).db
  unfolding perform
  remove-HoldsSchema r w = Reach-HoldsSchema (perform-Reach P (removal r) w)

  -- Where the tables meet the schema, a Delete of a knowledge base that returns no error leaves no
  -- row of any table that belongs to it.
  pub delete-KbGone :
      (w : World E) (i : ℕ)
      → HoldsSchema w.db
      → (UsecaseKbs.delete P i w).0 ≡ ok tt
      → KbGone i (UsecaseKbs.delete P i w).1.db
  unfolding remove
  delete-KbGone w i h e =
      HoldsSchema-KbGone i _ (remove-HoldsSchema (delete_kb i) w h) (find_kb-delete P w i e)

  -- Where the tables meet the schema, a Delete of a document that returns no error leaves neither
  -- its row nor a membership of it.
  pub delete-DocumentGone :
      (w : World E) (i : ℕ)
      → HoldsSchema w.db
      → (UsecaseDocuments.delete P i w).0 ≡ ok tt
      → DocumentGone i (UsecaseDocuments.delete P i w).1.db
  unfolding remove
  delete-DocumentGone w i h e =
      let after = remove-HoldsSchema (delete_document i) w h in
      let gone = find_document-delete P w i e in
      record {
        row = gone;
        members =
            All-weaken _ _ _ (λ m. has-other (λ n. find_document n _) i m.document_id gone)
              after.members_documents;
      }
