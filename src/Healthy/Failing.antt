-- ===== src/Healthy/Failing.antt =====
-- `ProcessBuild` of internal/usecase/knowledge_base.go where the database answers, whatever becomes
-- of the calls of the storage, the converter and the indexer.
use superkb.Base.{ℕ, List, ◌≡◌, refl, ap, true, false, ◌==◌, ◌∙◌, some, ==_refl}
use superkb.Base.Text.{Text}
use superkb.Domain.{Build, BuildStatus, Document, pending, processing, ready, failed, is_pending}
use superkb.Domain.Errors.{Error, Result, ok, err, error_text}
use superkb.Exec.{attempt, fail, pure, branch, either, resume, annotate, ◌>>=◌}
use superkb.Healthy.Statements.{Answers, query-up, get_build-found, update_build-found, after_sql}
use superkb.Lifecycle.Ends.{Ends}
use superkb.Lifecycle.Frames.{index_documents-Runs}
use superkb.Lifecycle.Steps.{Step}
use superkb.Postgres.KnowledgeBases
use superkb.Postgres.KnowledgeBases.{members}
use superkb.Postgres.Tables.{Db, find_build, update_build}
use superkb.Postgres.Tables.Laws.{find_build_self, find_build-update_build}
use superkb.Usecase.Builds.{
  mark_processing, index_documents, run_build, finalize, fail_build, process_pending, process_build,
}
use superkb.World.{World, Ports}
use superkb.World.Calls.{ask}

-- the row of the build `b` with the status `s` and the text `t`, at some time, and all else as it was
abbrev Became : Build → BuildStatus → Text → Db → Type 0
Became b s t db =
    (at : ℕ) × (find_build b.id db.kb_builds
      ≡ some (record b { status = s; error = t; updated_at = at }))

-- no knowledge base and no other build has changed
abbrev Spared : ℕ → Db → Db → Type 0
Spared i before after =
    (after.knowledge_bases ≡ before.knowledge_bases)
    × ((j : ℕ) → (j == i) ≡ false → find_build j after.kb_builds ≡ find_build j before.kb_builds)

-- A build without an error is ready; with an error it has failed, and its row says why.
abbrev pub Settled : {E : Type 0} → Build → Db → Result (Unit {0}) × World E → Type 0
Settled b before (ok _, w) = Became b ready b.error w.db × Spared b.id before w.db
Settled b before (err e, w) = Became b failed (error_text e) w.db × Spared b.id before w.db

update_build-knowledge_bases :
    (new : Build) (db : Db) → (update_build new db).knowledge_bases ≡ db.knowledge_bases
unfolding update_build
update_build-knowledge_bases new db = refl

-- an UPDATE of the row
settle :
    {s : BuildStatus} {t : Text} (before db : Db) (b : Build) (s' : BuildStatus) (t' : Text)
    (made at : ℕ)
    → Became b s t db × Spared b.id before db
    → let new : Build = record b { status = s'; error = t'; created_at = made; updated_at = at } in
      Became b s' t' (update_build new db) × Spared b.id before (update_build new db)
settle before db b s' t' made at ((_, row), (kbs, others)) = (
  (at, rw (find_build-update_build, ==_refl, row) refl),
  (
    update_build-knowledge_bases _ db ∙ kbs,
    λ j other. rw (find_build-update_build, other) (others j other),
  ),
)

module _ {E : Type 0} (P : Ports E) (up : Answers P) (before : Db) where
  finalize-Settled :
      {s : BuildStatus} (b : Build) (v : World E)
      → Became b s b.error v.db × Spared b.id before v.db
      → Settled b before (finalize P b v)
  unfolding finalize ◌>>=◌ ask annotate
  finalize-Settled b v h =
      rw
        (update_build-found P up (record v { ext = (P.now v.ext).1 })
          (record b { status = ready; updated_at = (P.now v.ext).0 }) h.0.1)
        (settle before v.db b ready b.error _ _ h)

  fail_build-Settled :
      {s : BuildStatus} {t : Text} (b : Build) (e : Error) (v : World E)
      → Became b s t v.db × Spared b.id before v.db
      → Settled b before (fail_build P b e v)
  unfolding fail_build ◌>>=◌ ask attempt fail
  fail_build-Settled b e v h =
      rw
        (update_build-found P up (record v { ext = (P.now v.ext).1 })
          (record b { status = failed; error = error_text e; updated_at = (P.now v.ext).0 }) h.0.1)
        (settle before v.db b failed (error_text e) _ _ h)

  abbrev started : Build → ℕ → Build
  started b at = record b { status = processing; updated_at = at }

  -- the end of a build once its documents are indexed, or are not
  indexed-Settled :
      (b : Build) (at : ℕ) (r : Result (Unit {0}) × World E)
      → Became b processing b.error r.1.db × Spared b.id before r.1.db
      → Settled b before
          (either (finalize P) (fail_build P b) (resume (λ _. pure (started b at)) r))
  unfolding pure
  indexed-Settled b at (ok _, v) h = finalize-Settled (started b at) v h
  indexed-Settled b at (err e, v) h = fail_build-Settled b e v h

  -- what holds of the tables wherever `index_documents` ends
  index_documents-Kept :
      (I : Db → Type 0) (b : Build) (docs : List Document) (v : World E)
      → I v.db
      → I (index_documents P b docs v).1.db
  index_documents-Kept I b docs v i =
      kept (index_documents P b docs v) ((index_documents-Runs P {S = Step} {P = I} b docs).run v i)
    where
      kept : (r : Result (Unit {0}) × World E) → Ends Step (λ _. I) I v.db r → I r.1.db
      kept (ok _, x) h = h.1
      kept (err e, x) h = h.1

  run_build-Settled :
      (b : Build) (docs : List Document) (v : World E)
      → Became b b.status b.error v.db × Spared b.id before v.db
      → Settled b before (branch (run_build P b docs) (finalize P) (fail_build P b) v)
  unfolding branch run_build mark_processing ◌>>=◌ ask annotate pure
  run_build-Settled b docs v h =
      let at = (P.now v.ext).0 in
      rw (update_build-found P up (record v { ext = (P.now v.ext).1 }) (started b at) h.0.1) (
        indexed-Settled b at _ (
          index_documents-Kept (λ db. Became b processing b.error db × Spared b.id before db)
            (started b at) docs _ (settle before v.db b processing b.error _ _ h)))

  process_pending-Settled :
      (b : Build) (v : World E)
      → Became b b.status b.error v.db × Spared b.id before v.db
      → Settled b before (process_pending P b v)
  unfolding process_pending branch annotate KnowledgeBases.list_documents
  process_pending-Settled b v h =
      rw (query-up P up v) (run_build-Settled b (members b.knowledge_base_id v.db) _ h)

module _ {E : Type 0} (P : Ports E) (up : Answers P) where
  -- Where the database answers, and whatever becomes of the calls of the storage, the converter and
  -- the indexer, a pending build does not stay open: if ProcessBuild returns no error, the build is
  -- ready; if it returns an error, the build has failed, and its row has the text of that error. But
  -- for its time the row has nothing else that is new, and no other build and no knowledge base
  -- has changed.
  pub process_build-Settled :
      (w : World E) (i : ℕ) (b : Build)
      → find_build i w.db.kb_builds ≡ some b
      → b.status ≡ pending
      → Settled b w.db (process_build P i w)
  unfolding process_build ◌>>=◌ annotate
  process_build-Settled w i b found waits =
      let is_waiting : is_pending b.status ≡ true = ap is_pending waits in
      rw (get_build-found P up w i b found, is_waiting)
        (process_pending-Settled P up w.db b (after_sql P up w)
          ((b.updated_at, find_build_self w.db i b found), (refl, λ j other. refl)))
