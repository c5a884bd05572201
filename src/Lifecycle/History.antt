-- ===== src/Lifecycle/History.antt =====
-- Whole histories: any operations of the service, one after another, with turns of the build
-- worker between them. Failures of the database and of the ports may strike at any call.
use superkb.Base.{ℕ, ◌≡◌, refl, sym, subst, Option, none, some, List, [], ◌∷◌}
use superkb.Base.Text.{Text}
use superkb.Lifecycle.Builds.{build-Runs, process_build-Runs}
use superkb.Lifecycle.Documents as Documents
use superkb.Lifecycle.Ends.{Any}
use superkb.Lifecycle.Frames.{search_kb-Runs, retain_experience-Runs, curate_memory-Runs}
use superkb.Lifecycle.Invariant.{IsConsistent, Reach-IsConsistent}
use superkb.Lifecycle.KnowledgeBases as KnowledgeBases
use superkb.Lifecycle.Runs.{Runs}
use superkb.Lifecycle.Steps.{Grow, Step, Reach, here, Reach-trans, Reach-grow}
use superkb.Postgres.Tables.{Db}
use superkb.Usecase.Builds.{build, process_build}
use superkb.Usecase.Documents.{UploadInput}
use superkb.Usecase.Documents as UsecaseDocuments
use superkb.Usecase.KnowledgeBases as UsecaseKbs
use superkb.Usecase.Memories.{
  RetainMemoryInput, CurateMemoryInput, MemoryFeedbackInput, retain_experience, curate_memory,
  submit_memory_feedback,
}
use superkb.Usecase.Search.{SearchOptions, search_kb}
use superkb.Usecase.Queue.{receive, pop}
use superkb.Usecase.Worker.{serve_next, process}
use superkb.World.{World, Ports}
use superkb.World.Calls.{M}

-- the operations that delete no row
pub data Request : Type 0 where
  upload : UploadInput → Request
  create_kb : Text → Text → Request
  add_document : ℕ → ℕ → Request
  build_kb : ℕ → Request
  enable_kb : ℕ → ℕ → Request
  disable_kb : ℕ → Request
  search : ℕ → Text → SearchOptions → Request
  retain : ℕ → RetainMemoryInput → Request
  curate : ℕ → Text → CurateMemoryInput → Request
  vote : ℕ → Text → MemoryFeedbackInput → Request
  -- a turn of a worker
  work : Request

-- the operations that delete rows
pub data Removal : Type 0 where
  delete_document : ℕ → Removal
  delete_kb : ℕ → Removal
  remove_document : ℕ → ℕ → Removal

pub data Operation : Type 0 where
  request : Request → Operation
  removal : Removal → Operation

module _ {E : Type 0} (P : Ports E) where
  -- the world that a request leaves
  unfoldable pub answer : Request → World E → World E
  answer (upload i) w = (UsecaseDocuments.upload P i w).1
  answer (create_kb name description) w = (UsecaseKbs.create P name description w).1
  answer (add_document kb doc) w = (UsecaseKbs.add_document P kb doc w).1
  answer (build_kb kb) w = (build P kb w).1
  answer (enable_kb kb b) w = (UsecaseKbs.enable P kb b w).1
  answer (disable_kb kb) w = (UsecaseKbs.disable P kb w).1
  answer (search kb query opts) w = (search_kb P kb query opts w).1
  answer (retain kb i) w = (retain_experience P kb i w).1
  answer (curate kb memory i) w = (curate_memory P kb memory i w).1
  answer (vote kb memory i) w = (submit_memory_feedback P kb memory i w).1
  answer work w = (serve_next P w).1

  unfoldable pub remove : Removal → World E → World E
  remove (delete_document id) w = (UsecaseDocuments.delete P id w).1
  remove (delete_kb id) w = (UsecaseKbs.delete P id w).1
  remove (remove_document kb doc) w = (UsecaseKbs.remove_document P kb doc w).1

  unfoldable pub perform : Operation → World E → World E
  perform (request r) w = answer r w
  perform (removal r) w = remove r w

  unfoldable pub answer_all : List Request → World E → World E
  answer_all [] w = w
  answer_all (r ∷ rs) w = answer_all rs (answer r w)

  unfoldable pub perform_all : List Operation → World E → World E
  perform_all [] w = w
  perform_all (o ∷ os) w = perform_all os (perform o w)

  pub runs-Reach :
      {A : Type 0} {S : Db → Db → Type 0} {Q : A → Db → Type 0} {m : M E A} (w : World E)
      → Runs S Any m Q Any
      → Reach S w.db (m w).1.db
  runs-Reach w h = (h.run w tt).0

  process-Reach : (a : Db) (r : Option ℕ × World E) → r.1.db ≡ a → Reach Grow a (process P r).1.db
  process-Reach a (none, w) e = subst (λ b. Reach Grow a b) (sym e) here
  process-Reach a (some id, w) e =
      subst (λ b. Reach Grow b (process_build P id w).1.db) e
        (runs-Reach w (process_build-Runs P id))

  db-pop : (ids : List ℕ) (w : World E) → (pop P ids w).1.db ≡ w.db
  db-pop [] w = refl
  db-pop (id ∷ ids) w = refl

  work-Reach : (w : World E) → Reach Grow w.db (serve_next P w).1.db
  unfolding serve_next receive
  work-Reach w = process-Reach w.db _ (db-pop w.queue.items w)

  -- A request makes only steps of the specification, and deletes nothing.
  pub answer-Reach : (r : Request) (w : World E) → Reach Grow w.db (answer r w).db
  unfolding answer
  answer-Reach (upload i) w = runs-Reach w (Documents.upload-Runs P i)
  answer-Reach (create_kb name description) w =
      runs-Reach w (KnowledgeBases.create-Runs P name description)
  answer-Reach (add_document kb doc) w = runs-Reach w (KnowledgeBases.add_document-Grows P kb doc)
  answer-Reach (build_kb kb) w = runs-Reach w (build-Runs P kb)
  answer-Reach (enable_kb kb b) w = runs-Reach w (KnowledgeBases.enable-Runs P kb b)
  answer-Reach (disable_kb kb) w = runs-Reach w (KnowledgeBases.disable-Runs P kb)
  answer-Reach (search kb query opts) w = runs-Reach w (search_kb-Runs P kb query opts)
  answer-Reach (retain kb i) w = runs-Reach w (retain_experience-Runs P kb i)
  answer-Reach (curate kb memory i) w = runs-Reach w (curate_memory-Runs P kb memory i)
  answer-Reach (vote kb memory i) w =
      runs-Reach w (Documents.submit_memory_feedback-Runs P kb memory i)
  answer-Reach work w = work-Reach w

  remove-Reach : (r : Removal) (w : World E) → Reach Step w.db (remove r w).db
  unfolding remove
  remove-Reach (delete_document id) w = runs-Reach w (Documents.delete-Runs P id)
  remove-Reach (delete_kb id) w = runs-Reach w (KnowledgeBases.delete-Runs P id)
  remove-Reach (remove_document kb doc) w =
      runs-Reach w (KnowledgeBases.remove_document-Steps P kb doc)

  pub perform-Reach : (o : Operation) (w : World E) → Reach Step w.db (perform o w).db
  unfolding perform
  perform-Reach (request r) w = Reach-grow (answer-Reach r w)
  perform-Reach (removal r) w = remove-Reach r w

  -- Any sequence of operations and turns of the worker, whatever fails in it, changes the tables
  -- only by steps of the abstract specification.
  pub perform_all-Reach :
      (os : List Operation) (w : World E) → Reach Step w.db (perform_all os w).db
  unfolding perform_all
  perform_all-Reach [] w = here
  perform_all-Reach (o ∷ os) w =
      Reach-trans (perform-Reach o w) (perform_all-Reach os (perform o w))

  pub answer_all-Reach : (rs : List Request) (w : World E) → Reach Grow w.db (answer_all rs w).db
  unfolding answer_all
  answer_all-Reach [] w = here
  answer_all-Reach (r ∷ rs) w = Reach-trans (answer-Reach r w) (answer_all-Reach rs (answer r w))

  -- Any sequence of operations and turns of the worker, whatever fails in it, keeps this: a
  -- knowledge base whose active build is set points at a row that is a ready build of its own.
  pub perform_all-IsConsistent :
      (os : List Operation) (w : World E) → IsConsistent w.db → IsConsistent (perform_all os w).db
  perform_all-IsConsistent os w = Reach-IsConsistent (perform_all-Reach os w)
