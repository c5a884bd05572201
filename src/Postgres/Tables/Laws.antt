-- ===== src/Postgres/Tables/Laws.antt =====
-- What each change of the tables does to the rows that are found by id.
use mathlib.Core.Option
use superkb.Base.{ℕ, ◌≡◌, refl, true, not, none, some, ◌==◌, if◌then◌else◌}
use superkb.Base.Keyed.{
  key-find_key, find_key-append_found, find_key-append_new, find_key-delete, find_key-select,
  find_key-update,
}
use superkb.Domain.{Document, KnowledgeBase, Build}
use superkb.Postgres.Tables.{
  Db, find_document, find_kb, find_build, insert_document, insert_kb, insert_build, delete_document,
  delete_kb, set_kb, update_kb, set_build, update_build,
}

module _ (db : Db) where
  pub id-find_document : (i : ℕ) (d : Document) → find_document i db.documents ≡ some d → d.id ≡ i
  unfolding find_document
  id-find_document i d = key-find_key (λ (x : Document). x.id) i d db.documents

  pub id-find_kb : (i : ℕ) (k : KnowledgeBase) → find_kb i db.knowledge_bases ≡ some k → k.id ≡ i
  unfolding find_kb
  id-find_kb i k = key-find_key (λ (x : KnowledgeBase). x.id) i k db.knowledge_bases

  pub id-find_build : (i : ℕ) (b : Build) → find_build i db.kb_builds ≡ some b → b.id ≡ i
  unfolding find_build
  id-find_build i b = key-find_key (λ (x : Build). x.id) i b db.kb_builds

  -- a row that was found by an id is found by its own
  pub find_kb_self :
      (i : ℕ) (k : KnowledgeBase)
      → find_kb i db.knowledge_bases ≡ some k
      → find_kb k.id db.knowledge_bases ≡ some k
  find_kb_self i k h = simp (id-find_kb i k h) h

  pub find_build_self :
      (i : ℕ) (b : Build)
      → find_build i db.kb_builds ≡ some b
      → find_build b.id db.kb_builds ≡ some b
  find_build_self i b h = simp (id-find_build i b h) h

  pub find_document-insert_new :
      (i : ℕ) (d : Document)
      → find_document i db.documents ≡ none
      → find_document i (insert_document d db).documents ≡ (if d.id == i then some d else none)
  unfolding find_document insert_document
  find_document-insert_new i d = find_key-append_new (λ (x : Document). x.id) i d db.documents

  pub find_document-insert_found :
      (i : ℕ) (d e : Document)
      → find_document i db.documents ≡ some e
      → find_document i (insert_document d db).documents ≡ some e
  unfolding find_document insert_document
  find_document-insert_found i d e =
      find_key-append_found (λ (x : Document). x.id) i e d db.documents

  pub find_document-delete_document :
      (i n : ℕ)
      → find_document i (delete_document n db).documents
        ≡ (if i == n then none else find_document i db.documents)
  unfolding find_document delete_document
  find_document-delete_document i n = find_key-delete (λ (x : Document). x.id) i n db.documents

  pub find_kb-insert_new :
      (i : ℕ) (k : KnowledgeBase)
      → find_kb i db.knowledge_bases ≡ none
      → find_kb i (insert_kb k db).knowledge_bases ≡ (if k.id == i then some k else none)
  unfolding find_kb insert_kb
  find_kb-insert_new i k = find_key-append_new (λ (x : KnowledgeBase). x.id) i k db.knowledge_bases

  pub find_kb-insert_found :
      (i : ℕ) (k j : KnowledgeBase)
      → find_kb i db.knowledge_bases ≡ some j
      → find_kb i (insert_kb k db).knowledge_bases ≡ some j
  unfolding find_kb insert_kb
  find_kb-insert_found i k j =
      find_key-append_found (λ (x : KnowledgeBase). x.id) i j k db.knowledge_bases

  pub find_kb-delete_kb :
      (i n : ℕ)
      → find_kb i (delete_kb n db).knowledge_bases
        ≡ (if i == n then none else find_kb i db.knowledge_bases)
  unfolding find_kb delete_kb
  find_kb-delete_kb i n = find_key-delete (λ (x : KnowledgeBase). x.id) i n db.knowledge_bases

  pub find_kb-update_kb :
      (i : ℕ) (new : KnowledgeBase)
      → find_kb i (update_kb new db).knowledge_bases ≡ (
          if i == new.id
          then Option.map (set_kb new) (find_kb i db.knowledge_bases)
          else find_kb i db.knowledge_bases)
  unfolding find_kb update_kb
  find_kb-update_kb i new =
      find_key-update (λ (x : KnowledgeBase). x.id) i new.id (set_kb new) db.knowledge_bases
        (λ x. refl)

  pub find_build-insert_new :
      (i : ℕ) (b : Build)
      → find_build i db.kb_builds ≡ none
      → find_build i (insert_build b db).kb_builds ≡ (if b.id == i then some b else none)
  unfolding find_build insert_build
  find_build-insert_new i b = find_key-append_new (λ (x : Build). x.id) i b db.kb_builds

  pub find_build-insert_found :
      (i : ℕ) (b c : Build)
      → find_build i db.kb_builds ≡ some c
      → find_build i (insert_build b db).kb_builds ≡ some c
  unfolding find_build insert_build
  find_build-insert_found i b c = find_key-append_found (λ (x : Build). x.id) i c b db.kb_builds

  pub find_build-delete_kb :
      (i n : ℕ) (b : Build)
      → find_build i db.kb_builds ≡ some b
      → not (b.knowledge_base_id == n) ≡ true
      → find_build i (delete_kb n db).kb_builds ≡ some b
  unfolding find_build delete_kb
  find_build-delete_kb i n b =
      find_key-select (λ (x : Build). x.id) i (λ x. not (x.knowledge_base_id == n)) b db.kb_builds

  pub find_build-update_build :
      (i : ℕ) (new : Build)
      → find_build i (update_build new db).kb_builds ≡ (
          if i == new.id
          then Option.map (set_build new) (find_build i db.kb_builds)
          else find_build i db.kb_builds)
  unfolding find_build update_build
  find_build-update_build i new =
      find_key-update (λ (x : Build). x.id) i new.id (set_build new) db.kb_builds (λ x. refl)
