-- ===== src/Lifecycle/Schema/Kept.antt =====
-- The statements that insert or update rows keep the constraints of the schema.
use mathlib.Core.Option
use superkb.Base.{
  ℕ, ◌≡◌, refl, ap, Bool, true, false, Option, none, some, List, [], ◌∷◌, ◌++◌, ◌==◌, arith,
  exists_where, update_where, Bool-cases, inl, inr, if◌then◌else◌,
}
use superkb.Base.Keyed.{find_key, find_key-append_found, find_key-update}
use superkb.Base.Rows.{
  All-weaken, All-append, Unique-append, Unique-update, same_key-sym, find-exists,
}
use superkb.Base.Text.{Text}
use superkb.Domain.{Document, KnowledgeBase, Build, is_some}
use superkb.Domain.Rag.{MemoryFeedback}
use superkb.Lifecycle.Schema.{
  HasKb, HoldsSchema, Owned, Owned-append, Owned-update, with_kbs, same_member, same_applied,
}
use superkb.Lifecycle.Statements.{is_some-true}
use superkb.Lifecycle.Votes.{text_eq_sym, same_feedback_sym}
use superkb.Postgres.Tables.{
  Db, Member, Applied, find_document, find_kb, find_build, is_member, is_applied, same_feedback,
  set_kb, set_build, insert_document, insert_kb, insert_build, update_kb, update_build,
  insert_member, upsert_feedback, insert_applied,
}

has-append :
    {A : Type 0} (key : A → ℕ) (x : A) (i : ℕ) (xs : List A)
    → is_some (find_key key i xs) ≡ true
    → is_some (find_key key i (xs ++ (x ∷ []))) ≡ true
has-append key x i xs h =
    let (y, e) = is_some-true _ h in ap is_some (find_key-append_found key i y x xs e)

is_some-if_map :
    {A : Type 0} (t : Bool) (f : A → A) (o : Option A)
    → is_some (if t then Option.map f o else o) ≡ is_some o
is_some-if_map true f none = refl
is_some-if_map true f (some a) = refl
is_some-if_map false f o = refl

pub has-append_kb :
    (k : KnowledgeBase) (i : ℕ) (ks : List KnowledgeBase) → HasKb ks i → HasKb (ks ++ (k ∷ [])) i
unfolding find_kb
has-append_kb k i ks = has-append (λ (e : KnowledgeBase). e.id) k i ks

pub has-update_kb :
    (new : KnowledgeBase) (i : ℕ) (ks : List KnowledgeBase)
    → HasKb ks i
    → HasKb (update_where (λ k. k.id == new.id) (set_kb new) ks) i
unfolding find_kb
has-update_kb new i ks h =
    rw
      (
        find_key-update (λ (k : KnowledgeBase). k.id) i new.id (set_kb new) ks (λ x. refl),
        is_some-if_map,
      )
      h

same_member_sym : (m n : Member) → same_member m n ≡ same_member n m
same_member_sym m n = ground arith

same_applied_sym : (a b : Applied) → same_applied a b ≡ same_applied b a
same_applied_sym a b =
    ground (arith, text_eq_sym a.memory_id b.memory_id, text_eq_sym a.proposed_text b.proposed_text)

pub insert_document-HoldsSchema :
    (d : Document) (db : Db)
    → find_document d.id db.documents ≡ none
    → HoldsSchema db
    → HoldsSchema (insert_document d db)
unfolding insert_document find_document
insert_document-HoldsSchema d db fresh h = record {
  documents =
      Unique-append _ (same_key-sym (λ (e : Document). e.id)) d db.documents
        (find-exists (λ (e : Document). e.id) d db.documents fresh) h.documents;
  kbs = h.kbs;
  members_documents =
      All-weaken _ _ db.kb_documents
        (λ m. has-append (λ (e : Document). e.id) d m.document_id db.documents) h.members_documents;
  members = h.members;
  builds = h.builds;
  feedback = h.feedback;
  applied = h.applied;
}

pub insert_kb-HoldsSchema :
    (k : KnowledgeBase) (db : Db)
    → find_kb k.id db.knowledge_bases ≡ none
    → HoldsSchema db
    → HoldsSchema (insert_kb k db)
unfolding insert_kb find_kb
insert_kb-HoldsSchema k db fresh h =
    with_kbs db _
      (Unique-append _ (same_key-sym (λ (e : KnowledgeBase). e.id)) k db.knowledge_bases
        (find-exists (λ (e : KnowledgeBase). e.id) k db.knowledge_bases fresh) h.kbs)
      (λ i. has-append_kb k i db.knowledge_bases) h

pub update_kb-HoldsSchema :
    (k : KnowledgeBase) (db : Db) → HoldsSchema db → HoldsSchema (update_kb k db)
unfolding update_kb
update_kb-HoldsSchema k db h =
    with_kbs db _ (Unique-update _ _ (set_kb k) (λ x y. (refl, refl)) db.knowledge_bases h.kbs)
      (λ i. has-update_kb k i db.knowledge_bases) h

-- the tables whose rows belong to a knowledge base
pub insert_build-HoldsSchema :
    (b : Build) (k : KnowledgeBase) (db : Db)
    → find_build b.id db.kb_builds ≡ none
    → find_kb b.knowledge_base_id db.knowledge_bases ≡ some k
    → HoldsSchema db
    → HoldsSchema (insert_build b db)
unfolding insert_build find_build
insert_build-HoldsSchema b k db fresh owner h = record {
  documents = h.documents;
  kbs = h.kbs;
  members_documents = h.members_documents;
  members = h.members;
  builds =
      Owned-append _ (λ (c : Build). c.knowledge_base_id) _ b db.kb_builds
        (same_key-sym (λ (c : Build). c.id))
        (find-exists (λ (c : Build). c.id) b db.kb_builds fresh) (ap is_some owner) h.builds;
  feedback = h.feedback;
  applied = h.applied;
}

pub update_build-HoldsSchema :
    (b : Build) (db : Db) → HoldsSchema db → HoldsSchema (update_build b db)
unfolding update_build
update_build-HoldsSchema b db h = record {
  documents = h.documents;
  kbs = h.kbs;
  members_documents = h.members_documents;
  members = h.members;
  builds =
      Owned-update _ (λ (c : Build). c.knowledge_base_id) _ _ (set_build b) db.kb_builds
        (λ x y. (refl, refl)) (λ x. refl) h.builds;
  feedback = h.feedback;
  applied = h.applied;
}

pub insert_member-HoldsSchema :
    (kb doc : ℕ) (k : KnowledgeBase) (d : Document) (db : Db)
    → find_kb kb db.knowledge_bases ≡ some k
    → find_document doc db.documents ≡ some d
    → HoldsSchema db
    → HoldsSchema (insert_member kb doc db)
unfolding insert_member
insert_member-HoldsSchema kb doc k d db hk hd h =
    elim (Bool-cases (exists_where (is_member kb doc) db.kb_documents)) [
      | inl old ↦ rw old h
      | inr new ↦ rw new (record {
        documents = h.documents;
        kbs = h.kbs;
        members_documents = All-append _ _ db.kb_documents (ap is_some hd) h.members_documents;
        members =
            Owned-append same_member (λ (m : Member). m.knowledge_base_id) _ _ db.kb_documents
              same_member_sym new (ap is_some hk) h.members;
        builds = h.builds;
        feedback = h.feedback;
        applied = h.applied;
      })
    ]

with_feedback :
    (db : Db) (fs : List MemoryFeedback)
    → HoldsSchema db
    → Owned same_feedback (λ f. f.knowledge_base_id) db.knowledge_bases fs
    → HoldsSchema (record db { memory_feedback = fs })
with_feedback db fs h owned = record {
  documents = h.documents;
  kbs = h.kbs;
  members_documents = h.members_documents;
  members = h.members;
  builds = h.builds;
  feedback = owned;
  applied = h.applied;
}

pub upsert_feedback-HoldsSchema :
    (f : MemoryFeedback) (k : KnowledgeBase) (db : Db)
    → find_kb f.knowledge_base_id db.knowledge_bases ≡ some k
    → HoldsSchema db
    → HoldsSchema (upsert_feedback f db)
unfolding upsert_feedback
upsert_feedback-HoldsSchema f k db hk h =
    elim (Bool-cases (exists_where (same_feedback f) db.memory_feedback)) [
      | inl old ↦ rw old (
          with_feedback db _ h (
            Owned-update same_feedback (λ (g : MemoryFeedback). g.knowledge_base_id) _ _
              (λ g. record g { vote = f.vote }) db.memory_feedback (λ x y. (refl, refl)) (λ x. refl)
              h.feedback))
      | inr new ↦ rw new (
          with_feedback db _ h (
            Owned-append same_feedback (λ (g : MemoryFeedback). g.knowledge_base_id) _ f
              db.memory_feedback same_feedback_sym new (ap is_some hk) h.feedback))
    ]

pub insert_applied-HoldsSchema :
    (kb : ℕ) (memory text : Text) (k : KnowledgeBase) (db : Db)
    → find_kb kb db.knowledge_bases ≡ some k
    → HoldsSchema db
    → HoldsSchema (insert_applied kb memory text db)
unfolding insert_applied
insert_applied-HoldsSchema kb memory text k db hk h =
    elim (Bool-cases (exists_where (is_applied kb memory text) db.memory_consensus_applied)) [
      | inl old ↦ rw old h
      | inr new ↦ rw new (record {
        documents = h.documents;
        kbs = h.kbs;
        members_documents = h.members_documents;
        members = h.members;
        builds = h.builds;
        feedback = h.feedback;
        applied =
            Owned-append same_applied (λ (a : Applied). a.knowledge_base_id) _ _
              db.memory_consensus_applied same_applied_sym new (ap is_some hk) h.applied;
      })
    ]
