-- ===== src/Lifecycle/KnowledgeBases.antt =====
-- The operations of usecase/knowledge_base.go on knowledge bases and members against the
-- specification of the tables.
use superkb.Base.{
  true, ℕ, ◌≡◌, refl, sym, ◌∙◌, false, not, none, some, List, [], ◌∷◌, arith, ◌==◌, ==_refl, is_nil,
}
use superkb.Base.Text.{Text}
use superkb.Domain.{KnowledgeBase, Build, BuildStatus, ready, is_ready}
use superkb.Lifecycle.Ends.{Any}
use superkb.Lifecycle.Runs.{
  Runs, Runs-pure, Runs-fail, Runs-if, Runs-weaken, Runs-annotate, Runs-ask, Runs-call,
  Runs-attempt, Runs-bind,
}
use superkb.Lifecycle.Statements.{
  get_document-Runs, get_kb-Runs, get_build-Runs, list_builds-Runs, update_kb-Runs, create_kb-Runs,
  add_document-Runs, delete_kb-Runs, remove_document-Runs,
}
use superkb.Lifecycle.Steps.{Grow, Step, enable, disable}
use superkb.Postgres.Tables.{Db, find_kb, find_build, insert_kb, update_kb}
use superkb.Postgres.Tables.Laws.{
  id-find_kb, find_kb_self, find_build_self, find_kb-insert_new, find_kb-update_kb,
  find_kb-delete_kb,
}
use superkb.Usecase.KnowledgeBases as Usecase
use superkb.World.{Ports}

-- `Enable` and `Disable` end with the row that they return, but for its times.
abbrev pub Stored : KnowledgeBase → Db → Type 0
Stored k db =
    (created : ℕ) × (updated : ℕ) × (find_kb k.id db.knowledge_bases
      ≡ some (record k { created_at = created; updated_at = updated }))

is_ready-ready : (s : BuildStatus) → not (is_ready s) ≡ false → s ≡ ready
is_ready-ready s h = ground arith

not-eq : (i j : ℕ) → not (i == j) ≡ false → i ≡ j
not-eq i j h = ground arith

-- an UPDATE by id leaves the new row, where only columns that it sets have changed
Stored-update_kb :
    (new old : KnowledgeBase) (created updated : ℕ) (db : Db)
    → find_kb new.id db.knowledge_bases ≡ some old
    → Stored new (update_kb (record new { created_at = created; updated_at = updated }) db)
Stored-update_kb new old created updated db h =
    let same = id-find_kb db new.id old h in
    (old.created_at, updated, rw (find_kb-update_kb, ==_refl, h) (ground arith))

Stored-insert_kb :
    (k : KnowledgeBase) (created updated : ℕ) (db : Db)
    → find_kb k.id db.knowledge_bases ≡ none
    → Stored k (insert_kb (record k { created_at = created; updated_at = updated }) db)
Stored-insert_kb k created updated db fresh =
    (created, updated, rw (find_kb-insert_new db k.id _ fresh, ==_refl))

-- what `Enable` has read when it writes
abbrev Enabling : KnowledgeBase → Build → Db → Type 0
Enabling kb b db =
    (find_kb kb.id db.knowledge_bases ≡ some kb)
    × (find_build b.id db.kb_builds ≡ some b)
    × (b.knowledge_base_id ≡ kb.id)
    × (b.status ≡ ready)

read-Enabling :
    (kb_id build_id : ℕ) (kb : KnowledgeBase) (b : Build) (db : Db)
    → not (b.knowledge_base_id == kb_id) ≡ false
    → not (is_ready b.status) ≡ false
    → find_kb kb_id db.knowledge_bases ≡ some kb
    → find_build build_id db.kb_builds ≡ some b
    → Enabling kb b db
read-Enabling kb_id build_id kb b db owned done hk hb =
    let k = id-find_kb db kb_id kb hk in
    (
      find_kb_self db kb_id kb hk,
      find_build_self db build_id b hb,
      not-eq _ _ owned ∙ sym k,
      is_ready-ready _ done,
    )

module _ {E : Type 0} (Pt : Ports E) where
  pub create-Runs :
      (name description : Text) → Runs Grow Any (Usecase.create Pt name description) Stored Any
  unfolding Usecase.create
  create-Runs name description =
      Runs-if (is_nil name) (λ _. Runs-fail _ (λ _ _. tt))
        λ _. Runs-bind (Runs-ask Pt.now) λ now. Runs-bind (Runs-ask Pt.new_uuid) λ id.
          let k : KnowledgeBase = record {
            id = id;
            name = name;
            description = description;
            enabled = false;
            active_build_id = none;
            created_at = now;
            updated_at = now;
          } in
          Runs-bind
            (Runs-annotate _ (
              create_kb-Runs Pt (λ _ _. tt) {Q = λ db. Stored k db} k refl refl
                (λ db p fresh. Stored-insert_kb k _ _ db fresh)))
            (λ _. Runs-pure _ (λ db h. h))

  activate-Runs :
      (kb : KnowledgeBase) (b : Build)
      → Runs Grow (Enabling kb b) (Usecase.activate Pt kb b) Stored Any
  unfolding Usecase.activate
  activate-Runs kb b = Runs-bind (Runs-ask Pt.now) λ now.
      let k : KnowledgeBase = record kb {
        enabled = true;
        active_build_id = some b.id;
        updated_at = now;
      } in
      Runs-bind
        (Runs-annotate _ (
          update_kb-Runs Pt (λ _ _. tt) {Q = λ db. Stored k db} k
            (λ db (hk, hb, owner, done).
              (enable _ hk hb owner done refl, Stored-update_kb k kb _ _ db hk))))
        (λ _. Runs-pure _ (λ db h. h))

  pub enable-Runs :
      (kb_id build_id : ℕ) → Runs Grow Any (Usecase.enable Pt kb_id build_id) Stored Any
  unfolding Usecase.enable
  enable-Runs kb_id build_id = Runs-bind (Runs-annotate _ (get_kb-Runs Pt (λ _ _. tt) kb_id)) λ kb.
      Runs-bind (Runs-annotate _ (get_build-Runs Pt (λ _ _. tt) build_id)) λ b.
        Runs-if (not (b.knowledge_base_id == kb_id)) (λ _. Runs-fail _ (λ _ _. tt))
          λ owned.
            Runs-if (not (is_ready b.status)) (λ _. Runs-fail _ (λ _ _. tt))
              λ done.
                Runs-weaken (activate-Runs kb b)
                  (λ db h. read-Enabling kb_id build_id kb b db owned done h.0.1 h.1) (λ a db h. h)
                  (λ _ _. tt)

  deactivate-Runs :
      (kb : KnowledgeBase)
      → Runs Grow
          (λ db. find_kb kb.id db.knowledge_bases ≡ some kb)
          (Usecase.deactivate Pt kb)
          Stored
          Any
  unfolding Usecase.deactivate
  deactivate-Runs kb = Runs-bind (Runs-ask Pt.now) λ now.
      let k : KnowledgeBase = record kb { enabled = false; updated_at = now } in
      Runs-bind
        (Runs-annotate _ (
          update_kb-Runs Pt (λ _ _. tt) {Q = λ db. Stored k db} k
            (λ db hk. (disable _ hk refl refl, Stored-update_kb k kb _ _ db hk))))
        (λ _. Runs-pure _ (λ db h. h))

  pub disable-Runs : (kb_id : ℕ) → Runs Grow Any (Usecase.disable Pt kb_id) Stored Any
  unfolding Usecase.disable
  disable-Runs kb_id = Runs-bind (Runs-annotate _ (get_kb-Runs Pt (λ _ _. tt) kb_id)) λ kb.
      Runs-weaken (deactivate-Runs kb) (λ db h. find_kb_self db kb_id kb h.1) (λ a db h. h)
        (λ _ _. tt)

  pub add_document-Grows :
      (kb doc : ℕ) → Runs Grow Any (Usecase.add_document Pt kb doc) (λ _. Any) Any
  unfolding Usecase.add_document
  add_document-Grows kb doc = Runs-bind (Runs-annotate _ (get_kb-Runs Pt (λ _ _. tt) kb)) λ _.
      Runs-bind (Runs-annotate _ (get_document-Runs Pt (λ _ _. tt) doc))
        λ _. Runs-annotate _ (add_document-Runs Pt (λ _ _. tt) kb doc (λ _ _. tt))

  pub remove_document-Steps :
      (kb doc : ℕ) → Runs Step Any (Usecase.remove_document Pt kb doc) (λ _. Any) Any
  unfolding Usecase.remove_document
  remove_document-Steps kb doc =
      Runs-annotate _ (remove_document-Runs Pt (λ _ _. tt) kb doc (λ _ _. tt))

  delete_banks-Runs :
      {S : Db → Db → Type 0} (bs : List Build)
      → Runs S Any (Usecase.delete_banks Pt bs) (λ _. Any) Any
  unfolding Usecase.delete_banks
  delete_banks-Runs [] = Runs-pure _ (λ _ _. tt)
  delete_banks-Runs (b ∷ bs) =
      Runs-bind (Runs-attempt (Runs-call _ (λ _ _. tt))) (λ _. delete_banks-Runs bs)

  -- after a deletion that succeeds the knowledge base is gone
  pub delete-Runs :
      (id : ℕ)
      → Runs Step Any (Usecase.delete Pt id) (λ _ db. find_kb id db.knowledge_bases ≡ none) Any
  unfolding Usecase.delete
  delete-Runs id = Runs-bind (Runs-annotate _ (list_builds-Runs Pt (λ _ _. tt) id)) λ bs.
      Runs-bind (delete_banks-Runs bs) λ _.
        Runs-annotate _ (delete_kb-Runs Pt (λ _ _. tt) id (λ db _. rw (find_kb-delete_kb, ==_refl)))
