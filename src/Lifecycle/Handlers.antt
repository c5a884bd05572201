-- ===== src/Lifecycle/Handlers.antt =====
-- The handlers of delivery/http against the specification of the tables, for requests of any form,
-- and the statuses of what they answer.
use superkb.Base.{
  ◌++◌, ◌≤◌, leb, arith, ℕ, ◌≡◌, refl, true, Option, none, some, [], ◌∷◌, inl, inr, Bool-cases,
}
use superkb.Base.Text.{Text, lit}
use superkb.Delivery.Api.{
  Route, handle, post_document, get_documents, get_document, delete_document, get_document_source,
  post_knowledge_base, get_knowledge_bases, get_knowledge_base, delete_knowledge_base,
  put_kb_document, delete_kb_document, post_build, get_builds, post_enable, post_disable,
  post_experience, patch_memory, post_feedback, post_search,
}
use superkb.Delivery.Documents as DocumentHandlers
use superkb.Delivery.Documents.{upload_input, parse_upload}
use superkb.Delivery.Handlers.{
  Handler, written, reply, with_body, done, reply_nothing, with_uuid, with_id,
}
use superkb.Delivery.KnowledgeBases as KbHandlers
use superkb.Delivery.KnowledgeBases.{
  shown, with_memory_id, retain_input, curate_input, feedback_input, search_options,
}
use superkb.Delivery.Response.{Response, Payload, value, message, nothing, write_domain_error}
use superkb.Delivery.Views.{Body}
use superkb.Domain.Errors.{Error, Result, ok, err, is, invalid_input, not_found, conflict}
use superkb.Lifecycle.Ends.{Any}
use superkb.Lifecycle.History.{
  Operation, request, removal, perform, perform-Reach, runs-Reach, upload, create_kb, add_document,
  build_kb, enable_kb, disable_kb, search, retain, curate, vote, delete_kb, remove_document,
}
use superkb.Lifecycle.History as History
use superkb.Lifecycle.Frames.{Runs-option}
use superkb.Lifecycle.Runs.{
  Runs, Runs-bind, Runs-annotate, Runs-query, Runs-call, Runs-pure, Runs-weaken,
}
use superkb.Lifecycle.Statements.{get_document-Runs, get_kb-Runs, list_builds-Runs}
use superkb.Lifecycle.Steps.{Reach, Step, here}
use superkb.Postgres.Documents as DocumentRows
use superkb.Postgres.KnowledgeBases as KbRows
use superkb.Postgres.Tables.{Db}
use superkb.Usecase.Builds.{Scheduled, queued, unqueued}
use superkb.Usecase.Documents as Documents
use superkb.Usecase.Documents.{UploadInput}
use superkb.Usecase.KnowledgeBases as Kbs
use superkb.World.{World, Ports}
use superkb.World.Calls.{M}

-- a success carries no error message, an error nothing else
abbrev pub FitsStatus : ℕ → Payload Body → Type 0
FitsStatus status (value b) = status ≤ 299
FitsStatus status nothing = status ≤ 299
FitsStatus status (message text) = (400 ≤ status) × (status ≤ 500)

abbrev pub Fits : Response Body → Type 0
Fits r = FitsStatus r.status r.payload

write_domain_error-Fits : (e : Error) → Fits (write_domain_error e)
unfolding write_domain_error
write_domain_error-Fits e = elim (Bool-cases (is e invalid_input)) [
  | inl bad ↦ rw bad (omega arith, omega arith)
  | inr other ↦ elim (Bool-cases (is e not_found)) [
    | inl missing ↦ rw (other, missing) (omega arith, omega arith)
    | inr found ↦ elim (Bool-cases (is e conflict)) [
      | inl busy ↦ rw (other, found, busy) (omega arith, omega arith)
      | inr broken ↦ rw (other, found, broken) (omega arith, omega arith)
    ]
  ]
]

-- a handler makes only steps, and its response fits
pub record Steps {E : Type 0} (h : Handler E) : Type 0 where
  pub run : (w : World E) → Reach Step w.db (h w).1.db × Fits (h w).0

module _ {E A : Type 0} (db : Db) where
  written-Reach :
      (status : ℕ) (view : A → Body) (r : Result A × World E)
      → status ≤ 299
      → Reach Step db r.1.db
      → Reach Step db (written status view r).1.db × Fits (written status view r).0
  written-Reach status view (ok a, w) low h = (h, low)
  written-Reach status view (err e, w) low h = (h, write_domain_error-Fits e)

module _ {E : Type 0} (db : Db) where
  done-Reach :
      (r : Result (Unit {0}) × World E)
      → Reach Step db r.1.db
      → Reach Step db (done r).1.db × Fits (done r).0
  done-Reach (ok a, w) h = (h, omega arith)
  done-Reach (err e, w) h = (h, write_domain_error-Fits e)

module _ {E A : Type 0} where
  reply-Steps :
      (status : ℕ) (view : A → Body) (m : M E A)
      → leb status 299 ≡ true
      → ((w : World E) → Reach Step w.db (m w).1.db)
      → Steps (reply status view m)
  unfolding reply
  reply-Steps status view m low h = record {
    run = λ w. written-Reach w.db status view (m w) (ground arith) (h w);
  }

  with_body-Steps :
      (body : Option A) (next : A → Handler E)
      → ((a : A) → Steps (next a))
      → Steps (with_body body next)
  unfolding with_body
  with_body-Steps none next h = record { run = λ w. (here, (omega arith, omega arith)) }
  with_body-Steps (some a) next h = record { run = λ w. (h a).run w }

module _ {E : Type 0} (P : Ports E) where
  reply_nothing-Steps :
      (m : M E (Unit {0})) → ((w : World E) → Reach Step w.db (m w).1.db) → Steps (reply_nothing m)
  unfolding reply_nothing
  reply_nothing-Steps m h = record { run = λ w. done-Reach w.db (m w) (h w) }

  with_uuid-Steps :
      (refusal text : Text) (next : ℕ → Handler E)
      → ((i : ℕ) → Steps (next i))
      → Steps (with_uuid P refusal text next)
  unfolding with_uuid
  with_uuid-Steps refusal text next h = record { run = λ w. go w (P.parse_uuid text) }
    where
      go :
          (w : World E) (o : Option ℕ)
          → let r = (elim o as (λ _. Response Body × World E) [
            | some id ↦ next id w
            | none ↦ (superkb.Delivery.Response.write_error 400 refusal, w)
          ]) in
            Reach Step w.db r.1.db × Fits r.0
      go w none = (here, (omega arith, omega arith))
      go w (some id) = (h id).run w

  with_id-Steps :
      (name text : Text) (next : ℕ → Handler E)
      → ((i : ℕ) → Steps (next i))
      → Steps (with_id P name text next)
  unfolding with_id
  with_id-Steps name text next h = with_uuid-Steps (lit "invalid " ++ name) text next h

  read-Reach :
      {A : Type 0} {Q : A → Db → Type 0} {m : M E A}
      → Runs Step Any m Q Any
      → (w : World E) → Reach Step w.db (m w).1.db
  read-Reach h w = runs-Reach P w h

  get-Runs : (i : ℕ) → Runs Step Any (Documents.get P i) (λ _. Any) Any
  unfolding Documents.get
  get-Runs i = Runs-annotate _ (
      Runs-weaken (get_document-Runs P {P = Any} {X = Any} (λ _ _. tt) i) (λ _ _. tt) (λ _ _ _. tt)
        (λ _ _. tt))

  list-Runs : (l o : ℕ) → Runs Step Any (DocumentRows.list P l o) (λ _. Any) Any
  unfolding DocumentRows.list
  list-Runs l o = Runs-query P _ _ (λ _ _. tt) (λ _ _. tt)

  pages_of-Runs :
      (content type : Text) → Runs Step Any (Documents.pages_of P content type) (λ _. Any) Any
  unfolding Documents.pages_of
  pages_of-Runs content type =
      Runs-option Step Any Any P.extractor _ _ (Runs-pure _ (λ _ _. tt))
        λ extract. Runs-annotate _ (Runs-call _ (λ _ _. tt))

  source-Runs : (i : ℕ) → Runs Step Any (Documents.source P i) (λ _. Any) Any
  unfolding Documents.source
  source-Runs i =
      Runs-bind
        (Runs-annotate _ (
          Runs-weaken {Q = λ _. Any} (get_document-Runs P {P = Any} {X = Any} (λ _ _. tt) i)
            (λ _ _. tt) (λ _ _ _. tt) (λ _ _. tt)))
        λ d. Runs-bind (Runs-annotate _ (Runs-call _ (λ _ _. tt))) λ body.
          Runs-bind (Runs-annotate _ (Runs-call _ (λ _ _. tt))) λ content.
            Runs-bind (pages_of-Runs content d.content_type) (λ pages. Runs-pure _ (λ _ _. tt))

  kb_get-Runs : (i : ℕ) → Runs Step Any (Kbs.get P i) (λ _. Any) Any
  unfolding Kbs.get
  kb_get-Runs i = Runs-annotate _ (
      Runs-weaken (get_kb-Runs P {P = Any} {X = Any} (λ _ _. tt) i) (λ _ _. tt) (λ _ _ _. tt)
        (λ _ _. tt))

  kb_list-Runs : (l o : ℕ) → Runs Step Any (KbRows.list P l o) (λ _. Any) Any
  unfolding KbRows.list
  kb_list-Runs l o = Runs-query P _ _ (λ _ _. tt) (λ _ _. tt)

  shown-Reach :
      (db : Db) (r : Result Scheduled × World E)
      → Reach Step db r.1.db
      → Reach Step db (shown P r).1.db × Fits (shown P r).0
  shown-Reach db (ok (queued b), w) h = (h, omega arith)
  shown-Reach db (ok (unqueued b e), w) h = (h, omega arith)
  shown-Reach db (err e, w) h = (h, write_domain_error-Fits e)

  with_memory_id-Steps :
      (memory_id : Text) (next : Handler E) → Steps next → Steps (with_memory_id P memory_id next)
  with_memory_id-Steps [] next h = record { run = λ w. (here, (omega arith, omega arith)) }
  with_memory_id-Steps (x ∷ memory_id) next h = record { run = λ w. h.run w }

  operation : (o : Operation) (w : World E) → Reach Step w.db (perform P o w).db
  operation o w = perform-Reach P o w

  upload_input-Steps : (i : Result UploadInput) → Steps (upload_input P i)
  unfolding perform History.answer
  upload_input-Steps (ok i) = reply-Steps _ _ _ refl (operation (request (upload i)))
  upload_input-Steps (err e) = record { run = λ w. (here, (omega arith, omega arith)) }

  pub handle-Steps : (r : Route) → Steps (handle P r)
  unfolding handle perform History.answer History.remove DocumentHandlers.upload
      DocumentHandlers.list DocumentHandlers.get DocumentHandlers.delete
      DocumentHandlers.show_source KbHandlers.create KbHandlers.list KbHandlers.get
      KbHandlers.delete KbHandlers.add_document KbHandlers.remove_document KbHandlers.start_build
      KbHandlers.list_builds KbHandlers.enable KbHandlers.disable KbHandlers.retain_experience
      KbHandlers.curate_memory KbHandlers.submit_memory_feedback KbHandlers.answer_search
      Documents.list Kbs.list Kbs.list_builds
  handle-Steps (post_document b) = upload_input-Steps (parse_upload b)
  handle-Steps (get_documents limit offset) = reply-Steps _ _ _ refl (read-Reach (list-Runs _ _))
  handle-Steps (get_document id) =
      with_uuid-Steps _ id _ (λ i. reply-Steps _ _ _ refl (read-Reach (get-Runs i)))
  handle-Steps (delete_document id) =
      with_uuid-Steps _ id _
        (λ i. reply_nothing-Steps _ (operation (removal (History.delete_document i))))
  handle-Steps (get_document_source id) =
      with_uuid-Steps _ id _ (λ i. reply-Steps _ _ _ refl (read-Reach (source-Runs i)))
  handle-Steps (post_knowledge_base body) =
      with_body-Steps body _
        (λ r. reply-Steps _ _ _ refl (operation (request (create_kb r.name r.description))))
  handle-Steps (get_knowledge_bases limit offset) =
      reply-Steps _ _ _ refl (read-Reach (kb_list-Runs _ _))
  handle-Steps (get_knowledge_base id) =
      with_id-Steps _ id _ (λ i. reply-Steps _ _ _ refl (read-Reach (kb_get-Runs i)))
  handle-Steps (delete_knowledge_base id) =
      with_id-Steps _ id _ (λ i. reply_nothing-Steps _ (operation (removal (delete_kb i))))
  handle-Steps (put_kb_document id doc) = with_id-Steps _ id _ λ i.
      with_id-Steps _ doc _ (λ d. reply_nothing-Steps _ (operation (request (add_document i d))))
  handle-Steps (delete_kb_document id doc) = with_id-Steps _ id _ λ i.
      with_id-Steps _ doc _ (λ d. reply_nothing-Steps _ (operation (removal (remove_document i d))))
  handle-Steps (post_build id) =
      with_id-Steps _ id _
        λ i. record { run = λ w. shown-Reach w.db _ (operation (request (build_kb i)) w) }
  handle-Steps (get_builds id) =
      with_id-Steps _ id _
        λ i. reply-Steps _ _ _ refl (read-Reach {Q = λ _. Any} (list_builds-Runs P (λ _ _. tt) i))
  handle-Steps (post_enable id body) = with_id-Steps _ id _ λ i. with_body-Steps body _ λ r.
      with_uuid-Steps _ r.build_id _
        (λ b. reply-Steps _ _ _ refl (operation (request (enable_kb i b))))
  handle-Steps (post_disable id) =
      with_id-Steps _ id _ (λ i. reply-Steps _ _ _ refl (operation (request (disable_kb i))))
  handle-Steps (post_experience id body) = with_id-Steps _ id _ λ i.
      with_body-Steps body _
        (λ r. reply-Steps _ _ _ refl (operation (request (retain i (retain_input r)))))
  handle-Steps (patch_memory id memory body) = with_id-Steps _ id _ λ i.
      with_memory_id-Steps memory _ (
        with_body-Steps body _
          (λ r. reply-Steps _ _ _ refl (operation (request (curate i memory (curate_input r))))))
  handle-Steps (post_feedback id memory body) = with_id-Steps _ id _ λ i.
      with_memory_id-Steps memory _ (
        with_body-Steps body _
          (λ r. reply-Steps _ _ _ refl (operation (request (vote i memory (feedback_input r))))))
  handle-Steps (post_search id body) = with_id-Steps _ id _ λ i.
      with_body-Steps body _
        (λ r. reply-Steps _ _ _ refl (operation (request (search i r.query (search_options r)))))
