-- ===== src/Lifecycle/Statements.antt =====
-- The repositories' statements as triples: what a read tells, and which step a write is.
use superkb.Base.{ℕ, ◌≡◌, refl, sym, subst, Bool, true, false, ◌&&◌, Option, none, some, arith}
use superkb.Base.{not, if◌then◌else◌}
use superkb.Domain.{Document, KnowledgeBase, Build, pending, is_some}
use superkb.Domain.Errors.{Error, ok, err}
use superkb.Domain.Rag.{MemoryFeedback}
use superkb.Base.Text.{Text}
use superkb.Postgres.Tables.{
  Db, find_document, find_kb, find_build, insert_document, insert_kb, insert_build, insert_member,
  delete_document, delete_kb, delete_member, update_kb, update_build, upsert_feedback,
  insert_applied, has_document, has_kb, has_build,
}
use superkb.Postgres.Documents
use superkb.Postgres.Documents.{or_not_found}
use superkb.Postgres.KnowledgeBases
use superkb.Postgres.KnowledgeBases.{members}
use superkb.Postgres.Builds
use superkb.Postgres.Feedback
use superkb.Postgres.Feedback.{consensus_of}
use superkb.Lifecycle.Steps.{
  Grow, new_document, new_kb, new_build, new_member, vote, applied, Step, drop_document, drop_kb,
  drop_member,
}
use superkb.Lifecycle.Guarded.{Runs-row, Runs-if_met, Runs-unless}
use superkb.Lifecycle.Ends.{Written}
use superkb.Lifecycle.Runs.{Runs, Runs-query, Runs-execute, Runs-bind}
use superkb.World.{Ports}
use superkb.World.Calls.{execute}

pub is_some-true : {A : Type 0} (o : Option A) → is_some o ≡ true → (a : A) × (o ≡ some a)
is_some-true none h = cc
is_some-true (some a) h = (a, refl)

is_some-false : {A : Type 0} (o : Option A) → is_some o ≡ false → o ≡ none
is_some-false none h = refl
is_some-false (some a) h = cc

and-true : (s t : Bool) → (s && t) ≡ true → (s ≡ true) × (t ≡ true)
and-true s t h = ground arith

module _ {E : Type 0} (Pt : Ports E) {S : Db → Db → Type 0} {P X : Db → Type 0}
    (hx : (db : Db) → P db → X db) where
  pub get_document-Runs :
      (id : ℕ)
      → Runs S P
          (Documents.get_by_id Pt id)
          (λ d db. P db × (find_document id db.documents ≡ some d))
          X
  unfolding Documents.get_by_id
  get_document-Runs id = Runs-row Pt hx _ (λ db. find_document id db.documents)

  pub get_kb-Runs :
      (id : ℕ)
      → Runs S P
          (KnowledgeBases.get_by_id Pt id)
          (λ k db. P db × (find_kb id db.knowledge_bases ≡ some k))
          X
  unfolding KnowledgeBases.get_by_id
  get_kb-Runs id = Runs-row Pt hx _ (λ db. find_kb id db.knowledge_bases)

  pub get_build-Runs :
      (id : ℕ)
      → Runs S P (Builds.get_by_id Pt id) (λ b db. P db × (find_build id db.kb_builds ≡ some b)) X
  unfolding Builds.get_by_id
  get_build-Runs id = Runs-row Pt hx _ (λ db. find_build id db.kb_builds)

  pub list_documents-Runs :
      (id : ℕ)
      → Runs S P (KnowledgeBases.list_documents Pt id) (λ ds db. P db × (ds ≡ members id db)) X
  unfolding KnowledgeBases.list_documents
  list_documents-Runs id = Runs-query Pt _ _ (λ db p. (p, refl)) hx

  pub list_builds-Runs : (id : ℕ) → Runs S P (Builds.list Pt id) (λ bs. P) X
  unfolding Builds.list
  list_builds-Runs id = Runs-query Pt _ _ (λ db p. p) hx

  pub consensus-Runs :
      (kb : ℕ) (memory text : Text)
      → Runs S P
          (Feedback.consensus Pt kb memory text)
          (λ c db. P db × (c ≡ consensus_of kb memory text db))
          X
  unfolding Feedback.consensus
  consensus-Runs kb memory text = Runs-query Pt _ _ (λ db p. (p, refl)) hx

  -- an UPDATE, where the condition in which it runs makes it a step
  pub update_kb-Runs :
      {Q : Db → Type 0} (k : KnowledgeBase)
      → ((db : Db)
          → P db
          → S db (update_kb (KnowledgeBases.kept Pt k) db)
            × Q (update_kb (KnowledgeBases.kept Pt k) db))
      → Runs S P (KnowledgeBases.update Pt k) (λ _. Q) X
  unfolding KnowledgeBases.update
  update_kb-Runs k h =
      Runs-if_met Pt hx _ (has_kb k.id) (update_kb (KnowledgeBases.kept Pt k)) _ (λ db p _. h db p)

  pub update_build-Runs :
      {Q : Db → Type 0} (b : Build)
      → ((db : Db)
          → P db
          → S db (update_build (Builds.kept Pt b) db) × Q (update_build (Builds.kept Pt b) db))
      → Runs S P (Builds.update Pt b) (λ _. Q) X
  unfolding Builds.update
  update_build-Runs b h =
      Runs-if_met Pt hx _ (has_build b.id) (update_build (Builds.kept Pt b)) _ (λ db p _. h db p)

module _ {E : Type 0} (Pt : Ports E) {P X : Db → Type 0} (hx : (db : Db) → P db → X db) where
  pub create_document-Runs :
      {Q : Db → Type 0} (d : Document)
      → ((db : Db)
          → P db
          → find_document d.id db.documents ≡ none
          → Q (insert_document (Documents.kept Pt d) db))
      → Runs Grow P (Documents.create Pt d) (λ _. Q) X
  unfolding Documents.create
  create_document-Runs d h =
      Runs-unless Pt hx _ (has_document d.id) (insert_document (Documents.kept Pt d)) _
        (λ db p t. let e = is_some-false _ t in (new_document (Documents.kept Pt d) e, h db p e))

  pub create_kb-Runs :
      {Q : Db → Type 0} (k : KnowledgeBase)
      → k.enabled ≡ false
      → k.active_build_id ≡ none
      → ((db : Db)
          → P db
          → find_kb k.id db.knowledge_bases ≡ none
          → Q (insert_kb (KnowledgeBases.kept Pt k) db))
      → Runs Grow P (KnowledgeBases.create Pt k) (λ _. Q) X
  unfolding KnowledgeBases.create
  create_kb-Runs k off idle h =
      Runs-unless Pt hx _ (has_kb k.id) (insert_kb (KnowledgeBases.kept Pt k)) _ (λ db p t.
        let e = is_some-false _ t in (new_kb (KnowledgeBases.kept Pt k) e off idle, h db p e))

  pub add_document-Runs :
      {Q : Db → Type 0} (kb doc : ℕ)
      → ((db : Db) → P db → Q (insert_member kb doc db))
      → Runs Grow P (KnowledgeBases.add_document Pt kb doc) (λ _. Q) X
  unfolding KnowledgeBases.add_document
  add_document-Runs kb doc h =
      Runs-if_met Pt hx _ (λ db. has_kb kb db && has_document doc db) (insert_member kb doc) _
        (λ db p t.
          let both = and-true _ _ t in
          (new_member kb doc (is_some-true _ both.0).1 (is_some-true _ both.1).1, h db p))

  build-Written :
      (Q : Db → Type 0) (b : Build) (db : Db) (d e : Error) (o : Option Build)
      (k : Option KnowledgeBase)
      → find_build b.id db.kb_builds ≡ o
      → find_kb b.knowledge_base_id db.knowledge_bases ≡ k
      → P db
      → b.status ≡ pending
      → (o ≡ none → Q (insert_build (Builds.kept Pt b) db))
      → Written Grow Q X db (
          if is_some o
          then err d
          else if not (is_some k)
          then err e
          else ok (insert_build (Builds.kept Pt b) db))
  build-Written Q b db d e (some c) k eo ek p s h = hx db p
  build-Written Q b db d e none none eo ek p s h = hx db p
  build-Written Q b db d e none (some k) eo ek p s h =
      (new_build (Builds.kept Pt b) eo ek s, h refl)

  pub create_build-Runs :
      {Q : Db → Type 0} (b : Build)
      → b.status ≡ pending
      → ((db : Db)
          → P db
          → find_build b.id db.kb_builds ≡ none
          → Q (insert_build (Builds.kept Pt b) db))
      → Runs Grow P (Builds.create Pt b) (λ _. Q) X
  unfolding Builds.create
  create_build-Runs {Q} b s h =
      Runs-execute Pt _ _ (λ db p. build-Written Q b db _ _ _ _ refl refl p s (h db p)) hx

  pub mark_memory_consensus_applied-Runs :
      {Q : Db → Type 0} (kb : ℕ) (memory text : Text)
      → ((db : Db) → P db → Q (insert_applied kb memory text db))
      → Runs Grow P (Feedback.mark_memory_consensus_applied Pt kb memory text) (λ _. Q) X
  unfolding Feedback.mark_memory_consensus_applied
  mark_memory_consensus_applied-Runs kb memory text h =
      Runs-if_met Pt hx _ (has_kb kb) (insert_applied kb memory text) _
        (λ db p t. (applied kb memory text (is_some-true _ t).1, h db p))

  upsert_feedback-Runs :
      {Q : Db → Type 0} (before : Text) (f : MemoryFeedback) (e : Error)
      → ((db : Db) → P db → Q (upsert_feedback f db))
      → Runs Grow P
          (execute Pt before
            (λ db. if has_kb f.knowledge_base_id db then ok (upsert_feedback f db) else err e))
          (λ _. Q)
          X
  upsert_feedback-Runs before f e h =
      Runs-if_met Pt hx before (has_kb f.knowledge_base_id) (upsert_feedback f) e
        (λ db p t. (vote f (is_some-true _ t).1, h db p))

-- The two statements of `AddMemoryFeedback`: the vote, and the consensus that it leads to.
pub add_memory_feedback-Runs :
    {E : Type 0} (Pt : Ports E) {P X : Db → Type 0} (f : MemoryFeedback)
    → ((db : Db) → P db → X db)
    → ((db : Db) → P db → X (upsert_feedback f db))
    → Runs Grow P
        (Feedback.add_memory_feedback Pt f)
        (λ c db.
          ((old : Db) × P old × (db ≡ upsert_feedback f old))
          × (c ≡ consensus_of f.knowledge_base_id f.memory_id f.proposed_text db))
        X
unfolding Feedback.add_memory_feedback
add_memory_feedback-Runs Pt {P} {X} f hx hy =
    Runs-bind
      (upsert_feedback-Runs Pt {P = P} {X = X} hx
        {Q = λ db. (old : Db) × P old × (db ≡ upsert_feedback f old)} _ f _ (λ db p. (db, p, refl)))
      λ _. consensus-Runs Pt (λ db (old, p, e). subst X (sym e) (hy old p)) _ _ _

module _ {E : Type 0} (Pt : Ports E) {P X : Db → Type 0} (hx : (db : Db) → P db → X db) where
  pub delete_document-Runs :
      {Q : Db → Type 0} (id : ℕ)
      → ((db : Db) → P db → Q (delete_document id db))
      → Runs Step P (Documents.delete Pt id) (λ _. Q) X
  unfolding Documents.delete
  delete_document-Runs id h =
      Runs-if_met Pt hx _ (has_document id) (delete_document id) _
        (λ db p _. (drop_document id, h db p))

  pub delete_kb-Runs :
      {Q : Db → Type 0} (id : ℕ)
      → ((db : Db) → P db → Q (delete_kb id db))
      → Runs Step P (KnowledgeBases.delete Pt id) (λ _. Q) X
  unfolding KnowledgeBases.delete
  delete_kb-Runs id h =
      Runs-if_met Pt hx _ (has_kb id) (delete_kb id) _ (λ db p _. (drop_kb id, h db p))

  pub remove_document-Runs :
      {Q : Db → Type 0} (kb doc : ℕ)
      → ((db : Db) → P db → Q (delete_member kb doc db))
      → Runs Step P (KnowledgeBases.remove_document Pt kb doc) (λ _. Q) X
  unfolding KnowledgeBases.remove_document
  remove_document-Runs kb doc h = Runs-execute Pt _ _ (λ db p. (drop_member kb doc, h db p)) hx
