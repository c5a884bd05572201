-- ===== src/Lifecycle/Schema/Reached.antt =====
-- Every sequence of statements of the specification keeps the constraints of the schema.
use superkb.Base.{subst, ℕ, ◌≡◌, sym, not, List, ◌==◌}
use superkb.Base.Rows.{All-select, Unique-select}
use superkb.Domain.{Document, KnowledgeBase}
use superkb.Lifecycle.Schema.{HasKb, HoldsSchema, Owned-delete, Owned-select, has-delete}
use superkb.Lifecycle.Schema.Kept.{
  has-append_kb, has-update_kb, insert_document-HoldsSchema, insert_kb-HoldsSchema,
  update_kb-HoldsSchema, insert_build-HoldsSchema, update_build-HoldsSchema,
  insert_member-HoldsSchema, upsert_feedback-HoldsSchema, insert_applied-HoldsSchema,
}
use superkb.Lifecycle.Steps.{
  Grow, new_document, new_kb, new_build, new_member, enable, disable, advance, vote, applied, Step,
  grow, drop_document, drop_kb, drop_member, Reach, Reach-keeps,
}
use superkb.Postgres.Tables.Others.{member_same, vote_same, applied_same}
use superkb.Postgres.Tables.{
  Db, Member, find_document, insert_document, insert_kb, insert_build, delete_document, delete_kb,
  update_kb, update_build, delete_member,
}

Grow-HoldsSchema : (a b : Db) → Grow a b → HoldsSchema a → HoldsSchema b
Grow-HoldsSchema a b (new_document d fresh) h = insert_document-HoldsSchema d a fresh h
Grow-HoldsSchema a b (new_kb k fresh _ _) h = insert_kb-HoldsSchema k a fresh h
Grow-HoldsSchema a b (new_build c {k} fresh owner _) h =
    insert_build-HoldsSchema c k a fresh owner h
Grow-HoldsSchema a b (new_member kb doc {k} {d} hk hd) h =
    insert_member-HoldsSchema kb doc k d a hk hd h
Grow-HoldsSchema a b (enable new _ _ _ _ _) h = update_kb-HoldsSchema new a h
Grow-HoldsSchema a b (disable new _ _ _) h = update_kb-HoldsSchema new a h
Grow-HoldsSchema a b (advance new _ _ _) h = update_build-HoldsSchema new a h
Grow-HoldsSchema a b (vote f {k} hk) h = upsert_feedback-HoldsSchema f k a hk h
Grow-HoldsSchema a b (applied kb memory text {k} hk) h =
    insert_applied-HoldsSchema kb memory text k a hk h

delete_document-HoldsSchema :
    (i : ℕ) (db : Db) → HoldsSchema db → HoldsSchema (delete_document i db)
unfolding delete_document find_document
delete_document-HoldsSchema i db h = record {
  documents = Unique-select _ _ db.documents h.documents;
  kbs = h.kbs;
  members_documents =
      All-select _ _ (λ m. not (m.document_id == i)) db.kb_documents
        (λ m. has-delete (λ (d : Document). d.id) i m.document_id db.documents) h.members_documents;
  members = Owned-select _ (λ (m : Member). m.knowledge_base_id) _ _ db.kb_documents h.members;
  builds = h.builds;
  feedback = h.feedback;
  applied = h.applied;
}

delete_kb-HoldsSchema : (i : ℕ) (db : Db) → HoldsSchema db → HoldsSchema (delete_kb i db)
unfolding delete_kb
delete_kb-HoldsSchema i db h = record {
  documents = h.documents;
  kbs = Unique-select _ _ db.knowledge_bases h.kbs;
  members_documents = All-select _ _ _ db.kb_documents (λ m p _. p) h.members_documents;
  members = Owned-delete _ _ db.knowledge_bases i db.kb_documents h.members;
  builds = Owned-delete _ _ db.knowledge_bases i db.kb_builds h.builds;
  feedback = Owned-delete _ _ db.knowledge_bases i db.memory_feedback h.feedback;
  applied = Owned-delete _ _ db.knowledge_bases i db.memory_consensus_applied h.applied;
}

delete_member-HoldsSchema :
    (kb doc : ℕ) (db : Db) → HoldsSchema db → HoldsSchema (delete_member kb doc db)
unfolding delete_member
delete_member-HoldsSchema kb doc db h = record {
  documents = h.documents;
  kbs = h.kbs;
  members_documents = All-select _ _ _ db.kb_documents (λ m p _. p) h.members_documents;
  members = Owned-select _ (λ (m : Member). m.knowledge_base_id) _ _ db.kb_documents h.members;
  builds = h.builds;
  feedback = h.feedback;
  applied = h.applied;
}

Step-HoldsSchema : (a b : Db) → Step a b → HoldsSchema a → HoldsSchema b
Step-HoldsSchema a b (grow s) h = Grow-HoldsSchema a b s h
Step-HoldsSchema a b (drop_document i) h = delete_document-HoldsSchema i a h
Step-HoldsSchema a b (drop_kb i) h = delete_kb-HoldsSchema i a h
Step-HoldsSchema a b (drop_member kb doc) h = delete_member-HoldsSchema kb doc a h

pub Reach-HoldsSchema : {a b : Db} → Reach Step a b → HoldsSchema a → HoldsSchema b
Reach-HoldsSchema = Reach-keeps HoldsSchema Step-HoldsSchema

-- While no row is deleted, a knowledge base stays.
abbrev Stays : ℕ → Db → Type 0
Stays i db = HasKb db.knowledge_bases i

HasKb-same : (i : ℕ) {ks ls : List KnowledgeBase} → ls ≡ ks → HasKb ks i → HasKb ls i
HasKb-same i e = subst (λ ks. HasKb ks i) (sym e)

Grow-Stays : (i : ℕ) (a b : Db) → Grow a b → Stays i a → Stays i b
Grow-Stays i a b (new_document d _) h = unfold insert_document in h
Grow-Stays i a b (new_kb k _ _ _) h = unfold insert_kb in has-append_kb k i a.knowledge_bases h
Grow-Stays i a b (new_build c _ _ _) h = unfold insert_build in h
Grow-Stays i a b (new_member kb doc _ _) h = HasKb-same i (member_same a kb doc).0 h
Grow-Stays i a b (enable new _ _ _ _ _) h =
    unfold update_kb in has-update_kb new i a.knowledge_bases h
Grow-Stays i a b (disable new _ _ _) h = unfold update_kb in has-update_kb new i a.knowledge_bases h
Grow-Stays i a b (advance new _ _ _) h = unfold update_build in h
Grow-Stays i a b (vote f _) h = HasKb-same i (vote_same a f).0 h
Grow-Stays i a b (applied kb memory text _) h = HasKb-same i (applied_same a kb memory text).0 h

pub Reach-Stays : (i : ℕ) {a b : Db} → Reach Grow a b → Stays i a → Stays i b
Reach-Stays i = Reach-keeps (Stays i) (Grow-Stays i)
