-- ===== src/Healthy/Joining.antt =====
-- `AddDocument` of internal/usecase/knowledge_base.go where the database answers.
use superkb.Base.{
  ℕ, ◌≡◌, refl, true, Option, none, some, List, [], ◌∷◌, ◌++◌, ==_refl, exists_where, Bool-cases,
  inl, inr, arith,
}
use superkb.Delivery.Handlers.{done}
use superkb.Delivery.Response.{Response, write_domain_error}
use superkb.Delivery.Views.{Body}
use superkb.Domain.{KnowledgeBase, Document}
use superkb.Domain.Errors.{ok, err, sentinel, not_found, is}
use superkb.Exec.{annotate, ◌>>=◌}
use superkb.Healthy.Statements.{
  Answers, after_sql, query-up, execute-up, get_kb-found, get_kb-missing,
}
use superkb.Postgres.Documents
use superkb.Postgres.KnowledgeBases
use superkb.Postgres.Tables.{Db, Member, find_kb, find_document, insert_member, is_member}
use superkb.Usecase.KnowledgeBases.{add_document}
use superkb.World.{World, Ports}

-- what adding the document `doc` to the knowledge base `kb` is answered, and what it leaves
abbrev pub Joins :
    {E : Type 0}
    → ℕ
    → ℕ
    → Option KnowledgeBase
    → Option Document
    → Db
    → Response Body × World E
    → Type 0
Joins kb doc none o before (r, w) = (r.status ≡ 404) × (w.db ≡ before)
Joins kb doc (some k) none before (r, w) = (r.status ≡ 404) × (w.db ≡ before)
Joins kb doc (some k) (some d) before (r, w) =
    (r.status ≡ 204) × (exists_where (is_member kb doc) w.db.kb_documents ≡ true)

exists-append :
    (kb doc : ℕ) (ms : List Member)
    → exists_where
        (is_member kb doc)
        (ms ++ (record { knowledge_base_id = kb; document_id = doc } ∷ []))
      ≡ true
unfolding exists_where
exists-append kb doc [] = rw (==_refl kb, ==_refl doc) refl
exists-append kb doc (m ∷ ms) = ground (arith, exists-append kb doc ms)

exists-insert_member :
    (kb doc : ℕ) (db : Db)
    → exists_where (is_member kb doc) (insert_member kb doc db).kb_documents ≡ true
unfolding insert_member
exists-insert_member kb doc db =
    elim (Bool-cases (exists_where (is_member kb doc) db.kb_documents)) [
      | inl there ↦ rw (there) there
      | inr fresh ↦ rw (fresh) (exists-append kb doc db.kb_documents)
    ]

module _ {E : Type 0} (P : Ports E) (up : Answers P) (kb doc : ℕ) (w : World E) where
  get_by_id-missing :
      (v : World E)
      → find_document doc v.db.documents ≡ none
      → Documents.get_by_id P doc v ≡ (err (sentinel not_found), after_sql P up v)
  unfolding Documents.get_by_id
  get_by_id-missing v h = rw (query-up P up v, h)

  get_by_id-there :
      (d : Document) (v : World E)
      → find_document doc v.db.documents ≡ some d
      → Documents.get_by_id P doc v ≡ (ok d, after_sql P up v)
  unfolding Documents.get_by_id
  get_by_id-there d v h = rw (query-up P up v, h)

  add-found :
      (k : KnowledgeBase) (d : Document) (v : World E)
      → find_kb kb v.db.knowledge_bases ≡ some k
      → find_document doc v.db.documents ≡ some d
      → KnowledgeBases.add_document P kb doc v
        ≡ (ok tt, record v { db = insert_member kb doc v.db; ext = (P.sql_fault v.ext).1 })
  unfolding KnowledgeBases.add_document
  add-found k d v hk hd = execute-up P up v _ _ (insert_member kb doc v.db) (rw (hk, hd))

  joined :
      (o : Option KnowledgeBase) (p : Option Document)
      → find_kb kb w.db.knowledge_bases ≡ o
      → find_document doc w.db.documents ≡ p
      → Joins kb doc o p w.db (done (add_document P kb doc w))
  unfolding add_document ◌>>=◌ annotate write_domain_error is
  joined none p hk hd = rw (get_kb-missing P up w kb hk) (refl, refl)
  joined (some k) none hk hd =
      rw (get_kb-found P up w kb k hk, get_by_id-missing (after_sql P up w) hd) (refl, refl)
  joined (some k) (some d) hk hd =
      rw
        (
          get_kb-found P up w kb k hk,
          get_by_id-there d (after_sql P up w) hd,
          add-found k d (after_sql P up (after_sql P up w)) hk hd,
        )
        (refl, exists-insert_member kb doc w.db)

  -- Where the database answers, adding a document to a knowledge base is answered 404 and changes
  -- nothing where the knowledge base or the document is missing; otherwise it is answered 204, also
  -- where the document was a member before, and the document is a member.
  pub add_document-Joins :
      Joins kb doc
        (find_kb kb w.db.knowledge_bases)
        (find_document doc w.db.documents)
        w.db
        (done (add_document P kb doc w))
  add_document-Joins = joined _ _ refl refl
