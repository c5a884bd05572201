-- ===== src/Usecase/Builds.antt =====
-- usecase/knowledge_base.go: `Build`, `ProcessBuild` and what they call.
use superkb.Base.{ℕ, Option, none, some, List, [], ◌∷◌, ◌++◌, is_nil, length, if◌then◌else◌}
use superkb.Base.Text.{Text, lit}
use superkb.Domain.{Document, Build, pending, processing, ready, failed, is_pending}
use superkb.Domain.Errors.{Error, refusal, invalid_input, annotated, error_text}
use superkb.Domain.Rag.{RagDocument}
use superkb.Exec.{pure, fail, annotate, attempt, branch, ◌>>=◌, ◌>>◌}
use superkb.Postgres.KnowledgeBases
use superkb.Postgres.Builds as Repository
use superkb.Usecase.Queue.{enqueue}
use superkb.Usecase.References.{ocr_text_filename}
use superkb.World.{Ports}
use superkb.World.Calls.{M, call, ask}

-- What `Build` returns with no error, or a build together with the error.
pub data Scheduled : Type 0 where
  queued : Build → Scheduled
  unqueued : Build → Error → Scheduled

module _ {E : Type 0} (P : Ports E) where
  -- the value of `newBank`
  abbrev pub new_bank : ℕ → Text
  new_bank build_id = lit "kb-build-" ++ P.uuid_text build_id

  -- The statements of a request whose context has ended with the error `e`: pgx refuses them before
  -- they reach the database.
  abbrev pub expired : Error → Ports E
  expired e = record P { sql_fault = λ x. (some e, x) }

  -- the failure of `Enqueue`, which is that of the context: the update that marks the build failed
  -- runs on the same context
  unfoldable pub unschedule : Build → Error → M E Scheduled
  unschedule build e = do
    now ← ask P.now
    let build' : Build = record build {
      status = failed;
      error = lit "enqueue: " ++ error_text e;
      updated_at = now;
    }
    attempt (Repository.update (expired e) build')
    pure (unqueued build' (annotated (lit "build: enqueue") e))

  -- `Build` once the members are known
  unfoldable pub schedule : ℕ → List Document → M E Scheduled
  schedule kb_id members = do
    now ← ask P.now
    id ← ask P.new_uuid
    let build : Build = record {
      id = id;
      knowledge_base_id = kb_id;
      bank_id = new_bank id;
      status = pending;
      document_count = length members;
      error = [];
      created_at = now;
      updated_at = now;
    }
    annotate (lit "build: persist build") (Repository.create P build)
    branch (enqueue P id) (λ _. pure (queued build)) (unschedule build)

  unfoldable pub build : ℕ → M E Scheduled
  build kb_id = do
    annotate (lit "build: kb") (KnowledgeBases.get_by_id P kb_id)
    members ← annotate (lit "build: list documents") (KnowledgeBases.list_documents P kb_id)
    if is_nil members
        then fail (refusal (lit "build: ") invalid_input (lit ": knowledge base has no documents"))
        else schedule kb_id members

  unfoldable pub read_content : Text → M E Text
  read_content key = do body ← call (P.storage.get key); call (P.read_all body)

  -- the text of the converter takes the place of the content
  abbrev converted : RagDocument → Text → Option Text → RagDocument
  converted rd filename none = rd
  converted rd filename (some text) = record rd {
    content = text;
    filename = ocr_text_filename filename;
  }

  -- one round of the loop of `runBuild`
  unfoldable pub rag_document : Document → M E RagDocument
  rag_document doc = do
    content ← annotate (lit "read " ++ P.uuid_text doc.id) (read_content doc.storage_key)
    let filename = if is_nil doc.filename then doc.title else doc.filename
    let rd : RagDocument = record {
      document_id = P.uuid_text doc.id;
      title = doc.title;
      filename = filename;
      content = content;
      metadata = doc.metadata;
    }
    elim P.converter [
      | none ↦ pure rd
      | some convert ↦ do
        text ←
            annotate (lit "ocr " ++ P.uuid_text doc.id)
              (call (convert content doc.content_type filename))
        pure (converted rd filename text)
    ]

  unfoldable pub rag_documents : List Document → M E (List RagDocument)
  rag_documents [] = pure []
  rag_documents (doc ∷ docs) = do rd ← rag_document doc; rest ← rag_documents docs; pure (rd ∷ rest)

  -- the pointer `build` is written through: the build comes back with its new fields
  unfoldable pub mark_processing : Build → M E Build
  mark_processing b = do
    now ← ask P.now
    let b' : Build = record b { status = processing; updated_at = now }
    annotate (lit "mark processing") (Repository.update P b')
    pure b'

  -- `runBuild` behind the first update
  unfoldable pub index_documents : Build → List Document → M E (Unit {0})
  index_documents b docs = do
    annotate (lit "create bank") (call (P.indexer.create_bank b.bank_id))
    rag_docs ← rag_documents docs
    annotate (lit "retain documents") (call (P.indexer.retain b.bank_id rag_docs))

  unfoldable pub run_build : Build → List Document → M E Build
  run_build b docs = do b' ← mark_processing b; index_documents b' docs; pure b'

  -- `failBuild` writes every field of the UPDATE that the code can have changed by then
  unfoldable pub fail_build : Build → Error → M E (Unit {0})
  fail_build b cause = do
    now ← ask P.now
    let b' : Build = record b { status = failed; error = error_text cause; updated_at = now }
    attempt (Repository.update P b')
    fail cause

  unfoldable pub finalize : Build → M E (Unit {0})
  finalize b = do
    now ← ask P.now
    let b' : Build = record b { status = ready; updated_at = now }
    annotate (lit "process build: finalize") (Repository.update P b')

  -- `ProcessBuild` on a pending build
  unfoldable pub process_pending : Build → M E (Unit {0})
  process_pending b =
      branch (annotate (lit "list documents") (KnowledgeBases.list_documents P b.knowledge_base_id))
        (λ docs. branch (run_build b docs) finalize (fail_build b)) (fail_build b)

  unfoldable pub process_build : ℕ → M E (Unit {0})
  process_build build_id = do
    b ← annotate (lit "process build: load") (Repository.get_by_id P build_id)
    if is_pending b.status then process_pending b else pure tt
