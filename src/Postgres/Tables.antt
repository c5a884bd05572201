-- ===== src/Postgres/Tables.antt =====
-- The tables, and the row changes that the statements make: the primary keys, the foreign keys
-- with ON DELETE CASCADE, and the columns that each UPDATE sets.
pub mod Laws
pub mod Others
use superkb.Base.{ℕ, Bool, true, ◌&&◌, not, Option, none, some, List, [], ◌∷◌, ◌++◌, ◌==◌}
use superkb.Base.{find_where, select_where, update_where, exists_where, if◌then◌else◌}
use superkb.Base.Text.{Text, text_eq}
use superkb.Domain.{Document, KnowledgeBase, Build, is_some}
use superkb.Domain.Rag.{MemoryFeedback}

-- a row of kb_documents
pub record Member : Type 0 where
  pub knowledge_base_id : ℕ
  pub document_id : ℕ

-- a row of memory_consensus_applied
pub record Applied : Type 0 where
  pub knowledge_base_id : ℕ
  pub memory_id : Text
  pub proposed_text : Text

-- The columns `created_at` of memory_feedback and `applied_at` are read by no statement.
pub record Db : Type 0 where
  pub documents : List Document
  pub knowledge_bases : List KnowledgeBase
  pub kb_documents : List Member
  pub kb_builds : List Build
  pub memory_feedback : List MemoryFeedback
  pub memory_consensus_applied : List Applied

-- WHERE id = $1
unfoldable pub find_document : ℕ → List Document → Option Document
unfolding find_where
find_document i = find_where (λ d. d.id == i)

unfoldable pub find_kb : ℕ → List KnowledgeBase → Option KnowledgeBase
unfolding find_where
find_kb i = find_where (λ k. k.id == i)

unfoldable pub find_build : ℕ → List Build → Option Build
unfolding find_where
find_build i = find_where (λ b. b.id == i)

abbrev pub has_document : ℕ → Db → Bool
has_document i db = is_some (find_document i db.documents)

abbrev pub has_kb : ℕ → Db → Bool
has_kb i db = is_some (find_kb i db.knowledge_bases)

abbrev pub has_build : ℕ → Db → Bool
has_build i db = is_some (find_build i db.kb_builds)

-- INSERT: the new row goes behind the others
unfoldable pub insert_document : Document → Db → Db
insert_document d db = record db { documents = db.documents ++ (d ∷ []) }

unfoldable pub insert_kb : KnowledgeBase → Db → Db
insert_kb k db = record db { knowledge_bases = db.knowledge_bases ++ (k ∷ []) }

unfoldable pub insert_build : Build → Db → Db
insert_build b db = record db { kb_builds = db.kb_builds ++ (b ∷ []) }

-- DELETE FROM documents WHERE id = $1, with its cascade
unfoldable pub delete_document : ℕ → Db → Db
unfolding select_where
delete_document i db = record db {
  documents = select_where (λ d. not (d.id == i)) db.documents;
  kb_documents = select_where (λ m. not (m.document_id == i)) db.kb_documents;
}

-- DELETE FROM knowledge_bases WHERE id = $1, with its cascade
unfoldable pub delete_kb : ℕ → Db → Db
unfolding select_where
delete_kb i db = record db {
  knowledge_bases = select_where (λ k. not (k.id == i)) db.knowledge_bases;
  kb_documents = select_where (λ m. not (m.knowledge_base_id == i)) db.kb_documents;
  kb_builds = select_where (λ b. not (b.knowledge_base_id == i)) db.kb_builds;
  memory_feedback = select_where (λ f. not (f.knowledge_base_id == i)) db.memory_feedback;
  memory_consensus_applied =
      select_where (λ a. not (a.knowledge_base_id == i)) db.memory_consensus_applied;
}

-- the columns of the UPDATE of knowledge_bases
abbrev pub set_kb : KnowledgeBase → KnowledgeBase → KnowledgeBase
set_kb new old = record old {
  name = new.name;
  description = new.description;
  enabled = new.enabled;
  active_build_id = new.active_build_id;
  updated_at = new.updated_at;
}

unfoldable pub update_kb : KnowledgeBase → Db → Db
unfolding update_where
update_kb new db = record db {
  knowledge_bases = update_where (λ k. k.id == new.id) (set_kb new) db.knowledge_bases;
}

-- the columns of the UPDATE of kb_builds
abbrev pub set_build : Build → Build → Build
set_build new old = record old {
  status = new.status;
  document_count = new.document_count;
  error = new.error;
  updated_at = new.updated_at;
}

unfoldable pub update_build : Build → Db → Db
unfolding update_where
update_build new db = record db {
  kb_builds = update_where (λ b. b.id == new.id) (set_build new) db.kb_builds;
}

abbrev pub is_member : ℕ → ℕ → Member → Bool
is_member kb doc m = (m.knowledge_base_id == kb) && (m.document_id == doc)

-- INSERT INTO kb_documents … ON CONFLICT DO NOTHING
unfoldable pub insert_member : ℕ → ℕ → Db → Db
unfolding exists_where
insert_member kb doc db =
    if exists_where (is_member kb doc) db.kb_documents then db else record db {
      kb_documents = db.kb_documents ++ (record { knowledge_base_id = kb; document_id = doc } ∷ []);
    }

-- DELETE FROM kb_documents WHERE knowledge_base_id = $1 AND document_id = $2
unfoldable pub delete_member : ℕ → ℕ → Db → Db
unfolding select_where
delete_member kb doc db = record db {
  kb_documents = select_where (λ m. not (is_member kb doc m)) db.kb_documents;
}

-- the primary key of memory_feedback
abbrev pub same_feedback : MemoryFeedback → MemoryFeedback → Bool
same_feedback f g =
    (f.knowledge_base_id == g.knowledge_base_id)
    && text_eq f.memory_id g.memory_id
    && text_eq f.reviewer g.reviewer
    && text_eq f.proposed_text g.proposed_text

-- INSERT INTO memory_feedback … ON CONFLICT … DO UPDATE SET vote = EXCLUDED.vote
unfoldable pub upsert_feedback : MemoryFeedback → Db → Db
unfolding exists_where update_where
upsert_feedback f db =
    if exists_where (same_feedback f) db.memory_feedback
    then record db {
      memory_feedback =
          update_where (same_feedback f) (λ g. record g { vote = f.vote }) db.memory_feedback;
    }
    else record db { memory_feedback = db.memory_feedback ++ (f ∷ []) }

-- the primary key of memory_consensus_applied
abbrev pub is_applied : ℕ → Text → Text → Applied → Bool
is_applied kb memory text a =
    (a.knowledge_base_id == kb) && text_eq a.memory_id memory && text_eq a.proposed_text text

-- INSERT INTO memory_consensus_applied … ON CONFLICT DO NOTHING
unfoldable pub insert_applied : ℕ → Text → Text → Db → Db
unfolding exists_where
insert_applied kb memory text db =
    if exists_where (is_applied kb memory text) db.memory_consensus_applied then db else record db {
      memory_consensus_applied =
          db.memory_consensus_applied
          ++ (record { knowledge_base_id = kb; memory_id = memory; proposed_text = text } ∷ []);
    }
