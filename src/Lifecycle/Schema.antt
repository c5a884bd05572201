-- ===== src/Lifecycle/Schema.antt =====
-- The constraints of the schema in internal/infra/postgres/pool.go: the primary keys, and the
-- foreign keys with their cascades, over sequences of steps of the specification.
pub mod Kept
pub mod Reached
use superkb.Base.{
  ℕ, ◌≡◌, sym, subst, Bool, true, false, not, List, [], ◌∷◌, ◌++◌, ◌==◌, arith, exists_where,
  select_where, update_where,
}
use superkb.Base.Keyed.{find_key, find_key-delete}
use superkb.Base.Rows.{
  All, All-weaken, All-append, All-select, All-update, Unique, Unique-append, Unique-select,
  Unique-update, same_key,
}
use superkb.Base.Text.{text_eq}
use superkb.Domain.{Document, KnowledgeBase, Build, is_some}
use superkb.Domain.Rag.{MemoryFeedback}
use superkb.Postgres.Tables.{
  Db, Member, Applied, find_document, find_kb, has_document, has_kb, is_member, is_applied,
  same_feedback,
}

-- the primary keys of kb_documents and memory_consensus_applied
abbrev pub same_member : Member → Member → Bool
same_member m = is_member m.knowledge_base_id m.document_id

abbrev pub same_applied : Applied → Applied → Bool
same_applied a = is_applied a.knowledge_base_id a.memory_id a.proposed_text

abbrev pub HasKb : List KnowledgeBase → ℕ → Type 0
HasKb ks i = is_some (find_kb i ks) ≡ true

abbrev pub HasDocument : List Document → ℕ → Type 0
HasDocument ds i = is_some (find_document i ds) ≡ true

-- a table with a primary key, each row of which belongs to a row of knowledge_bases
abbrev pub Owned : {A : Type 0} → (A → A → Bool) → (A → ℕ) → List KnowledgeBase → List A → Type 0
Owned same owner ks xs = Unique same xs × All (λ x. HasKb ks (owner x)) xs

-- The primary keys, REFERENCES knowledge_bases(id) and REFERENCES documents(id).
pub record HoldsSchema (db : Db) : Type 0 where
  pub documents : Unique (same_key (λ (d : Document). d.id)) db.documents
  pub kbs : Unique (same_key (λ (k : KnowledgeBase). k.id)) db.knowledge_bases
  pub members_documents : All (λ m. HasDocument db.documents m.document_id) db.kb_documents
  pub members : Owned same_member (λ m. m.knowledge_base_id) db.knowledge_bases db.kb_documents
  pub builds :
      Owned
        (same_key (λ (b : Build). b.id))
        (λ b. b.knowledge_base_id)
        db.knowledge_bases
        db.kb_builds
  pub feedback :
      Owned same_feedback (λ f. f.knowledge_base_id) db.knowledge_bases db.memory_feedback
  pub applied :
      Owned same_applied (λ a. a.knowledge_base_id) db.knowledge_bases db.memory_consensus_applied

-- while no row of knowledge_bases goes, every owner stays
Owned-kept :
    {A : Type 0} (same : A → A → Bool) (owner : A → ℕ) (ks ls : List KnowledgeBase) (xs : List A)
    → ((i : ℕ) → HasKb ks i → HasKb ls i)
    → Owned same owner ks xs
    → Owned same owner ls xs
Owned-kept same owner ks ls xs kept h = (h.0, All-weaken _ _ xs (λ x. kept (owner x)) h.1)

-- a row is inserted
pub Owned-append :
    {A : Type 0} (same : A → A → Bool) (owner : A → ℕ) (ks : List KnowledgeBase) (x : A)
    (xs : List A)
    → ((x y : A) → same x y ≡ same y x)
    → exists_where (same x) xs ≡ false
    → HasKb ks (owner x)
    → Owned same owner ks xs
    → Owned same owner ks (xs ++ (x ∷ []))
Owned-append same owner ks x xs sym_same new has h =
    (Unique-append same sym_same x xs new h.0, All-append _ x xs has h.1)

-- rows are deleted
pub Owned-select :
    {A : Type 0} (same : A → A → Bool) (owner : A → ℕ) (ks : List KnowledgeBase) (q : A → Bool)
    (xs : List A)
    → Owned same owner ks xs
    → Owned same owner ks (select_where q xs)
Owned-select same owner ks q xs h =
    (Unique-select same q xs h.0, All-select _ _ q xs (λ x p _. p) h.1)

-- the columns that are set are no part of a key
pub Owned-update :
    {A : Type 0} (same : A → A → Bool) (owner : A → ℕ) (ks : List KnowledgeBase) (p : A → Bool)
    (g : A → A) (xs : List A)
    → ((x y : A) → (same x (g y) ≡ same x y) × (same (g x) y ≡ same x y))
    → ((x : A) → owner (g x) ≡ owner x)
    → Owned same owner ks xs
    → Owned same owner ks (update_where p g xs)
Owned-update same owner ks p g xs keys owners h = (
  Unique-update same p g keys xs h.0,
  All-update _ _ p g xs (λ x e. e) (λ x e. subst (HasKb ks) (sym (owners x)) e) h.1,
)

not-true : (b : Bool) → not b ≡ true → b ≡ false
not-true b h = ground arith

-- a deletion by id leaves the rows of other ids
pub has-delete :
    {A : Type 0} (key : A → ℕ) (i j : ℕ) (xs : List A)
    → is_some (find_key key j xs) ≡ true
    → not (j == i) ≡ true
    → is_some (find_key key j (select_where (λ x. not (key x == i)) xs)) ≡ true
has-delete key i j xs has other = rw (find_key-delete key j i xs, not-true _ other) has

-- DELETE FROM knowledge_bases with the cascade
pub Owned-delete :
    {A : Type 0} (same : A → A → Bool) (owner : A → ℕ) (ks : List KnowledgeBase) (i : ℕ)
    (xs : List A)
    → Owned same owner ks xs
    → Owned same owner
        (select_where (λ k. not (k.id == i)) ks)
        (select_where (λ x. not (owner x == i)) xs)
unfolding find_kb
Owned-delete same owner ks i xs h = (
  Unique-select same _ xs h.0,
  All-select _ _ (λ x. not (owner x == i)) xs
      (λ x has other. has-delete (λ (k : KnowledgeBase). k.id) i (owner x) ks has other) h.1,
)

-- the changes of knowledge_bases that delete no row
pub with_kbs :
    (db : Db) (ks : List KnowledgeBase)
    → Unique (same_key (λ (k : KnowledgeBase). k.id)) ks
    → ((i : ℕ) → HasKb db.knowledge_bases i → HasKb ks i)
    → HoldsSchema db
    → HoldsSchema (record db { knowledge_bases = ks })
with_kbs db ks unique kept h = record {
  documents = h.documents;
  kbs = unique;
  members_documents = h.members_documents;
  members = Owned-kept _ _ _ _ db.kb_documents kept h.members;
  builds = Owned-kept _ _ _ _ db.kb_builds kept h.builds;
  feedback = Owned-kept _ _ _ _ db.memory_feedback kept h.feedback;
  applied = Owned-kept _ _ _ _ db.memory_consensus_applied kept h.applied;
}
