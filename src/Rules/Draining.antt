-- ===== src/Rules/Draining.antt =====
-- `BuildWorker` of usecase/build_worker.go: what becomes of the builds in the queue.
use superkb.Base.{
  ℕ, zero, suc, ◌≡◌, ◌≤◌, arith, refl, sym, ◌∙◌, ap, subst, Option, none, some, List, [], ◌∷◌,
  length,
}
use superkb.Base.Text.{Text}
use superkb.Domain.{Build, Document}
use superkb.Domain.Errors.{Error}
use superkb.Exec.{annotate, ◌>>=◌}
use superkb.Postgres.Builds as Repository
use superkb.Postgres.KnowledgeBases
use superkb.Usecase.Builds.{
  read_content, rag_document, rag_documents, mark_processing, index_documents, run_build,
  fail_build, finalize, process_pending, process_build,
}
use superkb.Usecase.Queue.{receive, pop}
use superkb.Usecase.Worker.{serve_next, serve, process}
use superkb.Rules.Quiet.{
  Quiet, Quiet-pure, Quiet-fail, Quiet-call, Quiet-ask, Quiet-query, Quiet-annotate, Quiet-attempt,
  Quiet-if, Quiet-execute, Quiet-bind, Quiet-branch,
}
use superkb.World.{World, Ports, DocumentConverter}
use superkb.World.Calls.{M, call}

module _ {E : Type 0} (P : Ports E) where
  read_content-Quiet : (key : Text) → Quiet (read_content P key)
  unfolding read_content
  read_content-Quiet key = Quiet-bind (Quiet-call _) (λ body. Quiet-call _)

  converter-Quiet :
      {A : Type 0} (before content type name : Text) (o : Option (DocumentConverter E)) (m : M E A)
      (f : Option Text → M E A)
      → Quiet m
      → ((text : Option Text) → Quiet (f text))
      → Quiet (elim o [
        | none ↦ m
        | some convert ↦ annotate before (call (convert content type name)) >>= f
      ])
  converter-Quiet before content type name none m f q r = q
  converter-Quiet before content type name (some convert) m f q r =
      Quiet-bind (Quiet-annotate _ (Quiet-call _)) r

  rag_document-Quiet : (d : Document) → Quiet (rag_document P d)
  unfolding rag_document
  rag_document-Quiet d = Quiet-bind (Quiet-annotate _ (read_content-Quiet d.storage_key)) λ content.
      converter-Quiet _ content d.content_type _ P.converter _ _ (Quiet-pure _)
        (λ text. Quiet-pure _)

  rag_documents-Quiet : (ds : List Document) → Quiet (rag_documents P ds)
  unfolding rag_documents
  rag_documents-Quiet [] = Quiet-pure _
  rag_documents-Quiet (d ∷ ds) =
      Quiet-bind (rag_document-Quiet d)
        λ rd. Quiet-bind (rag_documents-Quiet ds) (λ rest. Quiet-pure _)

  update-Quiet : (b : Build) → Quiet (Repository.update P b)
  unfolding Repository.update
  update-Quiet b = Quiet-execute P _ _

  run_build-Quiet : (b : Build) (ds : List Document) → Quiet (run_build P b ds)
  unfolding run_build mark_processing index_documents
  run_build-Quiet b ds =
      Quiet-bind
        (Quiet-bind (Quiet-ask _)
          λ now. Quiet-bind (Quiet-annotate _ (update-Quiet _)) (λ _. Quiet-pure _))
        λ b'.
          Quiet-bind
            (Quiet-bind (Quiet-annotate _ (Quiet-call _))
              λ _. Quiet-bind (rag_documents-Quiet ds) (λ docs. Quiet-annotate _ (Quiet-call _)))
            (λ _. Quiet-pure _)

  fail_build-Quiet : (b : Build) (e : Error) → Quiet (fail_build P b e)
  unfolding fail_build
  fail_build-Quiet b e =
      Quiet-bind (Quiet-ask _)
        λ now. Quiet-bind (Quiet-attempt (update-Quiet _)) (λ _. Quiet-fail e)

  finalize-Quiet : (b : Build) → Quiet (finalize P b)
  unfolding finalize
  finalize-Quiet b = Quiet-bind (Quiet-ask _) (λ now. Quiet-annotate _ (update-Quiet _))

  pub process_build-Quiet : (i : ℕ) → Quiet (process_build P i)
  unfolding process_build process_pending Repository.get_by_id KnowledgeBases.list_documents
  process_build-Quiet i = Quiet-bind (Quiet-annotate _ (Quiet-query P _ _)) λ b.
      Quiet-if _
        (Quiet-branch (Quiet-annotate _ (Quiet-query P _ _))
          (λ docs. Quiet-branch (run_build-Quiet b docs) finalize-Quiet (fail_build-Quiet b))
          (fail_build-Quiet b))
        (Quiet-pure tt)

  -- a world whose queue holds these builds
  abbrev pub holding : List ℕ → World E → World E
  holding ids w = record w { queue = record w.queue { items = ids } }

  -- `Served ids w w'`: the builds were taken from the queue in this order, each processed before the
  -- next was taken, which led from `w` to `w'`.
  pub data Served : List ℕ → World E → World E → Type 0 where
    none_waits : {w : World E} → Served [] w w
    one_served :
        {i : ℕ} {ids : List ℕ} {w w' : World E}
        → Served ids (process_build P i (holding ids w)).1 w'
        → Served (i ∷ ids) w w'

  serve_next-waiting :
      (i : ℕ) (ids : List ℕ) (w : World E)
      → w.queue.items ≡ i ∷ ids
      → (serve_next P w).1 ≡ (process_build P i (holding ids w)).1
  unfolding serve_next receive
  serve_next-waiting i ids w e = ap (λ items. (process P (pop P items w)).1) e

  serve-idle : (n : ℕ) (w : World E) → w.queue.items ≡ [] → serve P n w ≡ w
  unfolding serve serve_next receive
  serve-idle zero w e = refl
  serve-idle (suc n) w e =
      ap (λ items. serve P n (process P (pop P items w)).1) e ∙ serve-idle n w e

  -- A worker that makes at least as many rounds as builds wait takes every build from the queue, in
  -- the order in which they were put there, and processes it before it takes the next, whatever
  -- becomes of the builds; and then the queue is empty.
  pub serve-Served :
      (ids : List ℕ) (n : ℕ) (w : World E)
      → w.queue.items ≡ ids
      → length ids ≤ n
      → Served ids w (serve P n w) × ((serve P n w).queue.items ≡ [])
  unfolding serve
  serve-Served [] n w e enough = rw (serve-idle n w e) (none_waits, e)
  serve-Served (i ∷ ids) zero w e enough = absurd (omega arith)
  serve-Served (i ∷ ids) (suc n) w e enough =
      let quiet = (process_build-Quiet i).run (holding ids w) in
      let next = serve_next-waiting i ids w e in
      let (served, empty) =
        serve-Served ids n (process_build P i (holding ids w)).1 (ap (λ q. q.items) quiet)
          (omega arith) in
      subst (λ v. Served (i ∷ ids) w (serve P n v) × ((serve P n v).queue.items ≡ [])) (sym next)
        (one_served served, empty)
