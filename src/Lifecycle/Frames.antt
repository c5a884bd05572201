-- ===== src/Lifecycle/Frames.antt =====
-- Methods of internal/usecase that issue no statement that writes.
use superkb.Base.{ℕ, Bool, true, false, Option, none, some, List, [], ◌∷◌, length, ltb, is_nil}
use superkb.Base.{if◌then◌else◌}
use superkb.Domain.{Document, Build}
use superkb.Domain.Errors.{Error, Result}
use superkb.Base.Text.{Text}
use superkb.Base.Text.Strings.{is_blank}
use superkb.Lifecycle.Ends.{Ends}
use superkb.Lifecycle.Runs.{
  Runs, Runs-pure, Runs-fail, Runs-weaken, Runs-annotate, Runs-ask, Runs-call, Runs-bind,
  Runs-branch, Runs-if,
}
use superkb.Lifecycle.Statements.{get_document-Runs, get_kb-Runs, get_build-Runs}
use superkb.Lifecycle.Steps.{here}
use superkb.Postgres.Tables.{Db}
use superkb.Usecase.Builds as Builds
use superkb.Usecase.Queue.{send, offer, enqueue}
use superkb.Usecase.Search as Search
use superkb.Usecase.Memories as Memories
use superkb.Domain.Rag.{SearchResult, Memory}
use superkb.World.{World, Ports}
use superkb.World.Calls.{M, ask}
use superkb.Exec.{fail, ◌>>=◌}

module _ {E : Type 0} (S : Db → Db → Type 0) (P X : Db → Type 0) where
  pub Runs-option :
      {A B : Type 0} {Q : B → Db → Type 0} (o : Option A) (m : M E B) (f : A → M E B)
      → Runs S P m Q X
      → ((a : A) → Runs S P (f a) Q X)
      → Runs S P (elim o [ none ↦ m | some a ↦ f a ]) Q X
  Runs-option none m f hm hf = hm
  Runs-option (some a) m f hm hf = hf a

if-Ends :
    {E A : Type 0} (S : Db → Db → Type 0) (P : Db → Type 0) (t : Bool) (r s : Result A × World E)
    (db : Db)
    → Ends S (λ _. P) P db r
    → Ends S (λ _. P) P db s
    → Ends S (λ _. P) P db (if t then r else s)
if-Ends S P true r s db hr hs = hr
if-Ends S P false r s db hr hs = hs

module _ {E : Type 0} (Pt : Ports E) {S : Db → Db → Type 0} {P : Db → Type 0} where
  full_queue-Runs : Runs S P (do e ← ask Pt.deadline; fail {A = Unit {0}} e) (λ _. P) P
  full_queue-Runs = Runs-bind (Runs-ask Pt.deadline) (λ e. Runs-fail e (λ _ p. p))

  pub send-Runs : (id : ℕ) → Runs S P (send Pt id) (λ _. P) P
  unfolding send
  send-Runs id = record {
    run = λ w p.
        if-Ends S P (ltb (length w.queue.items) w.queue.size) _ _ w.db (here, p)
          ((full_queue-Runs).run w p);
  }

  offer-Runs : (id : ℕ) (c : Option Error) → Runs S P (offer Pt id c) (λ _. P) P
  offer-Runs id (some e) = Runs-fail e (λ _ p. p)
  offer-Runs id none = send-Runs id

  pub enqueue-Runs : (id : ℕ) → Runs S P (enqueue Pt id) (λ _. P) P
  unfolding enqueue
  enqueue-Runs id = Runs-bind (Runs-ask Pt.send_cancelled) (offer-Runs id)

  pub read_content-Runs : (key : Text) → Runs S P (Builds.read_content Pt key) (λ _. P) P
  unfolding Builds.read_content
  read_content-Runs key = Runs-bind (Runs-call _ (λ _ p. p)) (λ body. Runs-call _ (λ _ p. p))

  rag_document-Runs : (d : Document) → Runs S P (Builds.rag_document Pt d) (λ _. P) P
  unfolding Builds.rag_document
  rag_document-Runs d = Runs-bind (Runs-annotate _ (read_content-Runs d.storage_key)) λ content.
      Runs-option S P P Pt.converter _ _ (Runs-pure _ (λ _ p. p)) λ convert.
        Runs-bind (Runs-annotate _ (Runs-call _ (λ _ p. p))) (λ text. Runs-pure _ (λ _ p. p))

  rag_documents-Runs : (ds : List Document) → Runs S P (Builds.rag_documents Pt ds) (λ _. P) P
  unfolding Builds.rag_documents
  rag_documents-Runs [] = Runs-pure _ (λ _ p. p)
  rag_documents-Runs (d ∷ ds) =
      Runs-bind (rag_document-Runs d)
        λ rd. Runs-bind (rag_documents-Runs ds) (λ rest. Runs-pure _ (λ _ p. p))

  pub index_documents-Runs :
      (b : Build) (ds : List Document) → Runs S P (Builds.index_documents Pt b ds) (λ _. P) P
  unfolding Builds.index_documents
  index_documents-Runs b ds =
      Runs-bind (Runs-annotate _ (Runs-call _ (λ _ p. p)))
        λ _. Runs-bind (rag_documents-Runs ds) λ rag_docs. Runs-annotate _ (Runs-call _ (λ _ p. p))

  extract_pages-Runs : (d : Document) → Runs S P (Search.extract_pages Pt d) (λ _. P) P
  unfolding Search.extract_pages
  extract_pages-Runs d = Runs-option S P P Pt.extractor _ _ (Runs-pure _ (λ _ p. p)) λ extract.
      Runs-branch (read_content-Runs d.storage_key)
        (λ content.
          Runs-branch (Runs-call _ (λ _ p. p)) (λ a. Runs-pure a (λ _ p. p))
            (λ _. Runs-pure _ (λ _ p. p)))
        (λ _. Runs-pure _ (λ _ p. p))

  resolve-Runs : (id : Text) → Runs S P (Search.resolve Pt id) (λ _. P) P
  unfolding Search.resolve
  resolve-Runs id = Runs-option S P P (Pt.parse_uuid id) _ _ (Runs-pure _ (λ _ p. p)) λ i.
      Runs-branch (get_document-Runs Pt (λ _ p. p) i)
        (λ d.
          Runs-bind {Q = λ _. P}
            (Runs-weaken (extract_pages-Runs d) (λ _ h. h.0) (λ _ _ p. p) (λ _ p. p))
            (λ pages. Runs-pure _ (λ _ p. p)))
        (λ _. Runs-pure _ (λ _ p. p))

  look_up-Runs :
      (cache : Search.Cache) (id : Text) → Runs S P (Search.look_up Pt cache id) (λ _. P) P
  unfolding Search.look_up
  look_up-Runs cache id =
      Runs-option S P P (Search.cached id cache) _ _
        (Runs-bind (resolve-Runs id) (λ entry. Runs-pure _ (λ _ p. p)))
        (λ entry. Runs-pure _ (λ _ p. p))

  add_reference-Runs :
      (cache : Search.Cache) (r : SearchResult)
      → Runs S P (Search.add_reference Pt cache r) (λ _. P) P
  unfolding Search.add_reference
  add_reference-Runs cache r =
      Runs-if (is_nil r.document_id) (λ _. Runs-pure _ (λ _ p. p))
        λ _. Runs-bind (look_up-Runs cache r.document_id) (λ found. Runs-pure _ (λ _ p. p))

  add_references-Runs :
      (cache : Search.Cache) (rs : List SearchResult)
      → Runs S P (Search.add_references Pt cache rs) (λ _. P) P
  unfolding Search.add_references
  add_references-Runs cache [] = Runs-pure _ (λ _ p. p)
  add_references-Runs cache (r ∷ rs) =
      Runs-bind (add_reference-Runs cache r)
        λ step. Runs-bind (add_references-Runs step.1 rs) (λ rest. Runs-pure _ (λ _ p. p))

  pub search_bank-Runs :
      (bank query : Text) (opts : Search.SearchOptions)
      → Runs S P (Search.search_bank Pt bank query opts) (λ _. P) P
  unfolding Search.search_bank
  search_bank-Runs bank query opts = Runs-bind (Runs-annotate _ (Runs-call _ (λ _ p. p))) λ results.
      Runs-if opts.include_references (λ _. add_references-Runs [] results)
        (λ _. Runs-pure _ (λ _ p. p))

  active_bank_id-Runs : (kb_id : ℕ) → Runs S P (Memories.active_bank_id Pt kb_id) (λ _. P) P
  unfolding Memories.active_bank_id
  active_bank_id-Runs kb_id = Runs-bind (Runs-annotate _ (get_kb-Runs Pt (λ _ p. p) kb_id)) λ kb.
      Runs-weaken {Q' = λ _. P}
        (Runs-option S P P (Memories.serving kb) _ _ (Runs-fail _ (λ _ p. p)) λ build_id.
          Runs-bind (Runs-annotate _ (get_build-Runs Pt (λ _ p. p) build_id))
            (λ b. Runs-pure _ (λ _ h. h.0)))
        (λ _ h. h.0) (λ _ _ p. p) (λ _ p. p)

  first_memory-Runs : (ms : List Memory) → Runs S P (Memories.first_memory Pt ms) (λ _. P) P
  first_memory-Runs [] = Runs-fail _ (λ _ p. p)
  first_memory-Runs (m ∷ ms) = Runs-pure _ (λ _ p. p)

  pub curate_memory-Runs :
      (kb_id : ℕ) (memory_id : Text) (i : Memories.CurateMemoryInput)
      → Runs S P (Memories.curate_memory Pt kb_id memory_id i) (λ _. P) P
  unfolding Memories.curate_memory
  curate_memory-Runs kb_id memory_id i =
      Runs-if (is_blank memory_id) (λ _. Runs-fail _ (λ _ p. p))
        λ _.
          Runs-bind (Runs-annotate _ (active_bank_id-Runs kb_id))
            λ bank_id. Runs-annotate _ (Runs-call _ (λ _ p. p))

  pub retain_experience-Runs :
      (kb_id : ℕ) (i : Memories.RetainMemoryInput)
      → Runs S P (Memories.retain_experience Pt kb_id i) (λ _. P) P
  unfolding Memories.retain_experience
  retain_experience-Runs kb_id i =
      Runs-if (is_blank i.content) (λ _. Runs-fail _ (λ _ p. p))
        λ _.
          Runs-bind (Runs-annotate _ (active_bank_id-Runs kb_id))
            λ bank_id. Runs-bind (Runs-annotate _ (Runs-call _ (λ _ p. p))) first_memory-Runs

  pub search_kb-Runs :
      (kb_id : ℕ) (query : Text) (opts : Search.SearchOptions)
      → Runs S P (Search.search_kb Pt kb_id query opts) (λ _. P) P
  unfolding Search.search_kb
  search_kb-Runs kb_id query opts =
      Runs-if (is_nil query) (λ _. Runs-fail _ (λ _ p. p))
        λ _. Runs-bind (Runs-annotate _ (get_kb-Runs Pt (λ _ p. p) kb_id)) λ kb.
          Runs-weaken {Q' = λ _. P}
            (Runs-option S P P (Memories.serving kb) _ _ (Runs-fail _ (λ _ p. p)) λ build_id.
              Runs-bind {Q = λ _. P}
                (Runs-annotate _ (
                  Runs-weaken (get_build-Runs Pt (λ _ p. p) build_id) (λ _ p. p) (λ _ _ h. h.0)
                    (λ _ p. p)))
                (λ b. search_bank-Runs b.bank_id query opts))
            (λ _ h. h.0) (λ _ _ p. p) (λ _ p. p)
