-- ===== src/Healthy/Building.antt =====
-- `ProcessBuild` where the database answers and the services that it calls succeed.
use superkb.Base.{ℕ, ◌≡◌, refl, ap, true, Option, none, some, List, [], ◌∷◌, ==_refl}
use superkb.Base.Text.{Text}
use superkb.Domain.{Build, Document, pending, ready, is_pending}
use superkb.Domain.Errors.{Result, ok, err}
use superkb.Domain.Rag.{RagDocument}
use superkb.Exec.{annotate, ◌>>=◌}
use superkb.Healthy.Statements.{Answers, get_build-found, update_build-found, after_sql}
use superkb.Healthy.Totals.{
  Succeeds, Given, Given-pair, Total, Total-pure, Total-annotate, Total-bind, Total-branch,
  Total-ask, Total-call, Total-query, Total-weaken,
}
use superkb.Lifecycle.Builds.{HasStatus}
use superkb.Lifecycle.Outcomes.{process_build_ready}
use superkb.Postgres.Tables.{Db, find_build, set_build, update_build}
use superkb.Postgres.Tables.Laws.{find_build_self, find_build-update_build}
use superkb.Postgres.KnowledgeBases
use superkb.Postgres.KnowledgeBases.{members}
use superkb.Postgres.Builds as Repository
use superkb.Usecase.Builds.{
  read_content, rag_document, rag_documents, mark_processing, index_documents, run_build, finalize,
  process_pending, process_build,
}
use superkb.World.{World, Ports, DocumentConverter}
use superkb.World.Calls.{M, call}

-- a converter, if one is wired, converts everything
abbrev pub Converts : {E : Type 0} → Option (DocumentConverter E) → Type 0
Converts none = Unit {0}
Converts {E} (some convert) =
    (content type name : Text) (x : E) → Succeeds (convert content type name x).0

-- the services that a build calls succeed
pub record Works {E : Type 0} (P : Ports E) : Type 0 where
  pub fetches : (key : Text) (x : E) → Succeeds (P.storage.get key x).0
  pub reads : (body : ℕ) (x : E) → Succeeds (P.read_all body x).0
  pub converts : Converts P.converter
  pub creates : (bank : Text) (x : E) → Succeeds (P.indexer.create_bank bank x).0
  pub retains :
      (bank : Text) (docs : List RagDocument) (x : E) → Succeeds (P.indexer.retain bank docs x).0

-- the build has a row
abbrev Row : ℕ → Db → Type 0
Row i db = (b : Build) × (find_build i db.kb_builds ≡ some b)

Row-update_build : (new : Build) (db : Db) → Row new.id db → Row new.id (update_build new db)
Row-update_build new db (b, e) = (set_build new b, rw (find_build-update_build, ==_refl, e))

module _ {E : Type 0} (P : Ports E) (up : Answers P) where
  update-Total : (b : Build) → Total (Row b.id) (Repository.update P b) (λ _. Row b.id)
  update-Total b = record {
    run = λ w i.
        Given-pair (λ _. Row b.id) _ tt _ (update_build-found P up w b i.1)
          (Row-update_build (Repository.kept P b) w.db i);
  }

  module _ (works : Works P) {I : Db → Type 0} where
    read_content-Total : (key : Text) → Total I (read_content P key) (λ _. I)
    unfolding read_content
    read_content-Total key =
        Total-bind (Total-call _ (works.fetches key)) (λ body. Total-call _ (works.reads body))

    Total-converter :
        {B : Type 0} {Q : B → Db → Type 0} (name : Text) (content : Text) (type : Text)
        (before : Text) (o : Option (DocumentConverter E)) (m : M E B) (f : Option Text → M E B)
        → Converts o
        → Total I m Q
        → ((text : Option Text) → Total I (f text) Q)
        → Total I
            (elim o [
              | none ↦ m
              | some convert ↦ annotate before (call (convert content type name)) >>= f
            ])
            Q
    Total-converter name content type before none m f c hm hf = hm
    Total-converter name content type before (some convert) m f c hm hf =
        Total-bind (Total-annotate _ (Total-call _ (c content type name))) hf

    rag_document-Total : (d : Document) → Total I (rag_document P d) (λ _. I)
    unfolding rag_document
    rag_document-Total d =
        Total-bind (Total-annotate _ (read_content-Total d.storage_key)) λ content.
          Total-converter _ content d.content_type _ P.converter _ _ works.converts
            (Total-pure _ (λ _ i. i)) (λ text. Total-pure _ (λ _ i. i))

    rag_documents-Total : (ds : List Document) → Total I (rag_documents P ds) (λ _. I)
    unfolding rag_documents
    rag_documents-Total [] = Total-pure _ (λ _ i. i)
    rag_documents-Total (d ∷ ds) =
        Total-bind (rag_document-Total d)
          λ rd. Total-bind (rag_documents-Total ds) (λ rest. Total-pure _ (λ _ i. i))

    index_documents-Total :
        (b : Build) (ds : List Document) → Total I (index_documents P b ds) (λ _. I)
    unfolding index_documents
    index_documents-Total b ds =
        Total-bind (Total-annotate _ (Total-call _ (works.creates b.bank_id))) λ _.
          Total-bind (rag_documents-Total ds)
            λ rag_docs. Total-annotate _ (Total-call _ (works.retains b.bank_id rag_docs))

  -- the build that is handed on has the id of the row
  abbrev Same : Build → Build → Db → Type 0
  Same b b' db = Row b'.id db

  mark_processing-Total : (b : Build) → Total (Row b.id) (mark_processing P b) (Same b)
  unfolding mark_processing
  mark_processing-Total b =
      Total-bind (Total-ask P.now)
        λ now. Total-bind (Total-annotate _ (update-Total _)) (λ _. Total-pure _ (λ _ i. i))

  finalize-Total : (b : Build) → Total (Row b.id) (finalize P b) (λ _. Row b.id)
  unfolding finalize
  finalize-Total b = Total-bind (Total-ask P.now) (λ now. Total-annotate _ (update-Total _))

  list_documents-Total :
      {I : Db → Type 0} (kb : ℕ) → Total I (KnowledgeBases.list_documents P kb) (λ _. I)
  unfolding KnowledgeBases.list_documents
  list_documents-Total kb = Total-query P up _ (members kb)

  process_pending-Total :
      (works : Works P) (b : Build) → Total (Row b.id) (process_pending P b) (λ _ _. Unit {0})
  unfolding process_pending run_build
  process_pending-Total works b =
      Total-branch _ (Total-annotate _ (list_documents-Total b.knowledge_base_id)) λ docs.
        Total-branch _
          (Total-bind (mark_processing-Total b)
            λ b'. Total-bind (index_documents-Total works b' docs) (λ _. Total-pure b' (λ _ i. i)))
          (λ b'. Total-weaken (finalize-Total b') (λ _ _ _. tt))

  Given-ok : (r : Result (Unit {0}) × World E) → Given (λ _ _. Unit {0}) r → r.0 ≡ ok tt
  Given-ok (ok tt, w) h = refl
  Given-ok (err e, w) h = absurd h

  process_build-ok :
      (works : Works P) (w : World E) (i : ℕ) (b : Build)
      → find_build i w.db.kb_builds ≡ some b
      → b.status ≡ pending
      → (process_build P i w).0 ≡ ok tt
  unfolding process_build ◌>>=◌
  process_build-ok works w i b h waits =
      let is_waiting : is_pending b.status ≡ true = ap is_pending waits in
      rw (get_build-found P up w i b h, is_waiting)
        (Given-ok _
          ((process_pending-Total works b).run (after_sql P up w) (b, find_build_self w.db i b h)))

  -- Where the database answers, and the storage, the converter and the indexer succeed, a build
  -- that is pending is processed without an error and is then ready, with as many documents.
  pub process_build_completes :
      (works : Works P) (w : World E) (i : ℕ) (b : Build)
      → find_build i w.db.kb_builds ≡ some b
      → b.status ≡ pending
      → ((process_build P i w).0 ≡ ok tt)
        × HasStatus i b.document_count ready (process_build P i w).1.db
  process_build_completes works w i b h waits =
      let done = process_build-ok works w i b h waits in
      (done, process_build_ready P w i b h waits done)
