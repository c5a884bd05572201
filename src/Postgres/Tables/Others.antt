-- ===== src/Postgres/Tables/Others.antt =====
-- The tables that a statement leaves alone.
use superkb.Base.{ℕ, ◌≡◌, refl, arith}
use superkb.Base.Text.{Text}
use superkb.Domain.{KnowledgeBase}
use superkb.Domain.Rag.{MemoryFeedback}
use superkb.Postgres.Tables.{
  Db, insert_kb, update_kb, insert_member, upsert_feedback, insert_applied,
}

-- the statements on the other tables
module _ (db : Db) where
  pub member_same :
      (kb doc : ℕ)
      → ((insert_member kb doc db).knowledge_bases ≡ db.knowledge_bases)
        × ((insert_member kb doc db).kb_builds ≡ db.kb_builds)
  unfolding insert_member
  member_same kb doc = ground arith

  pub vote_same :
      (f : MemoryFeedback)
      → ((upsert_feedback f db).knowledge_bases ≡ db.knowledge_bases)
        × ((upsert_feedback f db).kb_builds ≡ db.kb_builds)
  unfolding upsert_feedback
  vote_same f = ground arith

  pub applied_same :
      (kb : ℕ) (memory text : Text)
      → ((insert_applied kb memory text db).knowledge_bases ≡ db.knowledge_bases)
        × ((insert_applied kb memory text db).kb_builds ≡ db.kb_builds)
  unfolding insert_applied
  applied_same kb memory text = ground arith

  pub builds-insert_kb : (k : KnowledgeBase) → (insert_kb k db).kb_builds ≡ db.kb_builds
  unfolding insert_kb
  builds-insert_kb k = refl

  pub builds-update_kb : (k : KnowledgeBase) → (update_kb k db).kb_builds ≡ db.kb_builds
  unfolding update_kb
  builds-update_kb k = refl

  pub applied-insert_member :
      (kb doc : ℕ)
      → (insert_member kb doc db).memory_consensus_applied ≡ db.memory_consensus_applied
  unfolding insert_member
  applied-insert_member kb doc = ground arith

  pub applied-upsert_feedback :
      (f : MemoryFeedback)
      → (upsert_feedback f db).memory_consensus_applied ≡ db.memory_consensus_applied
  unfolding upsert_feedback
  applied-upsert_feedback f = ground arith
