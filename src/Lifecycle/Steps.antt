-- ===== src/Lifecycle/Steps.antt =====
-- The abstract specification of the tables: the statuses a build goes through, and the changes
-- that an operation may make in one statement.
use superkb.Base.{ℕ, ◌≡◌, false, none, some}
use superkb.Base.Text.{Text}
use superkb.Domain.{Document, KnowledgeBase, Build, BuildStatus, pending, processing, ready, failed}
use superkb.Domain.Rag.{MemoryFeedback}
use superkb.Postgres.Tables.{
  Db, find_document, find_kb, find_build, insert_document, insert_kb, insert_build, delete_document,
  delete_kb, update_kb, update_build, insert_member, delete_member, upsert_feedback, insert_applied,
}

-- a build is started once and ends once
infix 40 ◌⟶◌
pub data ◌⟶◌ : BuildStatus → BuildStatus → Type 0 where
  start : pending ⟶ processing
  finish : processing ⟶ ready
  reject : pending ⟶ failed
  break : processing ⟶ failed

-- nothing follows `ready`
pub not-⟶-ready : (s t : BuildStatus) → s ≡ ready → s ⟶ t → ⊥
not-⟶-ready s t e start = cc
not-⟶-ready s t e finish = cc
not-⟶-ready s t e reject = cc
not-⟶-ready s t e break = cc

-- One statement that deletes nothing.
pub data Grow (db : Db) : Db → Type 0 where
  new_document :
      (d : Document) → find_document d.id db.documents ≡ none → Grow db (insert_document d db)
  new_kb :
      (k : KnowledgeBase)
      → find_kb k.id db.knowledge_bases ≡ none
      → k.enabled ≡ false
      → k.active_build_id ≡ none
      → Grow db (insert_kb k db)
  new_build :
      (b : Build) {k : KnowledgeBase}
      → find_build b.id db.kb_builds ≡ none
      → find_kb b.knowledge_base_id db.knowledge_bases ≡ some k
      → b.status ≡ pending
      → Grow db (insert_build b db)
  new_member :
      (kb doc : ℕ) {k : KnowledgeBase} {d : Document}
      → find_kb kb db.knowledge_bases ≡ some k
      → find_document doc db.documents ≡ some d
      → Grow db (insert_member kb doc db)
  -- a ready build of the knowledge base begins to serve search
  enable :
      (new : KnowledgeBase) {old : KnowledgeBase} {b : Build}
      → find_kb new.id db.knowledge_bases ≡ some old
      → find_build b.id db.kb_builds ≡ some b
      → b.knowledge_base_id ≡ new.id
      → b.status ≡ ready
      → new.active_build_id ≡ some b.id
      → Grow db (update_kb new db)
  disable :
      (new : KnowledgeBase) {old : KnowledgeBase}
      → find_kb new.id db.knowledge_bases ≡ some old
      → new.enabled ≡ false
      → new.active_build_id ≡ old.active_build_id
      → Grow db (update_kb new db)
  -- a build goes on to its next status; its documents stay as many
  advance :
      (new : Build) {old : Build}
      → find_build new.id db.kb_builds ≡ some old
      → old.status ⟶ new.status
      → new.document_count ≡ old.document_count
      → Grow db (update_build new db)
  vote :
      (f : MemoryFeedback) {k : KnowledgeBase}
      → find_kb f.knowledge_base_id db.knowledge_bases ≡ some k
      → Grow db (upsert_feedback f db)
  applied :
      (kb : ℕ) (memory text : Text) {k : KnowledgeBase}
      → find_kb kb db.knowledge_bases ≡ some k
      → Grow db (insert_applied kb memory text db)

-- One statement of any operation.
pub data Step (db : Db) : Db → Type 0 where
  grow : {db' : Db} → Grow db db' → Step db db'
  drop_document : (i : ℕ) → Step db (delete_document i db)
  drop_kb : (i : ℕ) → Step db (delete_kb i db)
  drop_member : (kb doc : ℕ) → Step db (delete_member kb doc db)

-- Any number of steps.
pub data Reach (S : Db → Db → Type 0) (a : Db) : Db → Type 0 where
  here : Reach S a a
  next : {b c : Db} → Reach S a b → S b c → Reach S a c

module _ {S : Db → Db → Type 0} where
  pub Reach-trans : {a b c : Db} → Reach S a b → Reach S b c → Reach S a c
  Reach-trans p here = p
  Reach-trans p (next q s) = next (Reach-trans p q) s

  -- What one step keeps, every sequence keeps.
  pub Reach-keeps :
      (I : Db → Type 0) → ((a b : Db) → S a b → I a → I b) → {a b : Db} → Reach S a b → I a → I b
  Reach-keeps I keep here h = h
  Reach-keeps I keep (next {b = b} {c = c} r s) h = keep b c s (Reach-keeps I keep r h)

pub Reach-grow : {a b : Db} → Reach Grow a b → Reach Step a b
Reach-grow here = here
Reach-grow (next r s) = next (Reach-grow r) (grow s)
