-- ===== src/Usecase/KnowledgeBases.antt =====
-- usecase/knowledge_base.go: knowledge bases, their members, and which build serves search.
use superkb.Base.{ℕ, true, false, not, ◌==◌, none, some, List, [], ◌∷◌, ◌++◌}
use superkb.Base.{is_nil, if◌then◌else◌}
use superkb.Base.Int.{ℤ}
use superkb.Base.Text.{Text, lit}
use superkb.Domain.{KnowledgeBase, Build, is_ready, status_text}
use superkb.Domain.Errors.{refusal, invalid_input, conflict}
use superkb.Exec.{pure, fail, annotate, attempt, ◌>>=◌, ◌>>◌}
use superkb.Postgres.Documents
use superkb.Postgres.KnowledgeBases as Repository
use superkb.Postgres.Builds
use superkb.Usecase.Paging.{normalize_page}
use superkb.World.{Ports}
use superkb.World.Calls.{M, call, ask}

module _ {E : Type 0} (P : Ports E) where
  unfoldable pub create : Text → Text → M E KnowledgeBase
  create name description =
      if is_nil name
      then fail (refusal (lit "create kb: ") invalid_input (lit ": name required"))
      else do
        now ← ask P.now
        id ← ask P.new_uuid
        let kb : KnowledgeBase = record {
          id = id;
          name = name;
          description = description;
          enabled = false;
          active_build_id = none;
          created_at = now;
          updated_at = now;
        }
        annotate (lit "create kb") (Repository.create P kb)
        pure kb

  unfoldable pub get : ℕ → M E KnowledgeBase
  get id = annotate (lit "get kb") (Repository.get_by_id P id)

  unfoldable pub list : ℤ → ℤ → M E (List KnowledgeBase)
  list limit offset = let (l, o) = normalize_page limit offset in Repository.list P l o

  -- the loop of `Delete` over the builds: an error of one deletion is dropped
  unfoldable pub delete_banks : List Build → M E (Unit {0})
  delete_banks [] = pure tt
  delete_banks (b ∷ bs) = do attempt (call (P.indexer.delete_bank b.bank_id)); delete_banks bs

  unfoldable pub delete : ℕ → M E (Unit {0})
  delete id = do
    builds ← annotate (lit "delete kb: list builds") (Builds.list P id)
    delete_banks builds
    annotate (lit "delete kb") (Repository.delete P id)

  unfoldable pub add_document : ℕ → ℕ → M E (Unit {0})
  add_document kb_id document_id = do
    annotate (lit "add doc: kb") (Repository.get_by_id P kb_id)
    annotate (lit "add doc: document") (Documents.get_by_id P document_id)
    annotate (lit "add doc") (Repository.add_document P kb_id document_id)

  unfoldable pub remove_document : ℕ → ℕ → M E (Unit {0})
  remove_document kb_id document_id =
      annotate (lit "remove doc") (Repository.remove_document P kb_id document_id)

  -- `Enable` once both rows are read
  unfoldable pub activate : KnowledgeBase → Build → M E KnowledgeBase
  activate kb build = do
    now ← ask P.now
    let kb' : KnowledgeBase = record kb {
      enabled = true;
      active_build_id = some build.id;
      updated_at = now;
    }
    annotate (lit "enable: persist") (Repository.update P kb')
    pure kb'

  unfoldable pub enable : ℕ → ℕ → M E KnowledgeBase
  enable kb_id build_id = do
    kb ← annotate (lit "enable: kb") (Repository.get_by_id P kb_id)
    build ← annotate (lit "enable: build") (Builds.get_by_id P build_id)
    if not (build.knowledge_base_id == kb_id)
        then fail (
            refusal (lit "enable: ") invalid_input
              (lit ": build does not belong to knowledge base"))
        else if not (is_ready build.status)
        then fail (
            refusal (lit "enable: ") conflict
              (lit ": build is not ready (status " ++ (status_text build.status ++ lit ")")))
        else activate kb build

  -- `Disable` once the row is read
  unfoldable pub deactivate : KnowledgeBase → M E KnowledgeBase
  deactivate kb = do
    now ← ask P.now
    let kb' : KnowledgeBase = record kb { enabled = false; updated_at = now }
    annotate (lit "disable: persist") (Repository.update P kb')
    pure kb'

  unfoldable pub disable : ℕ → M E KnowledgeBase
  disable kb_id = do kb ← annotate (lit "disable: kb") (Repository.get_by_id P kb_id); deactivate kb

  unfoldable pub list_builds : ℕ → M E (List Build)
  list_builds kb_id = Builds.list P kb_id
