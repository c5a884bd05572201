-- ===== src/Lifecycle/Builds.antt =====
-- `Build` and `ProcessBuild` of usecase/knowledge_base.go against the specification of the tables.
use superkb.Exec.{attempt}
use superkb.Base.{ℕ, ◌≡◌, refl, sym, subst, ap, ◌∙◌, true, none, some, List, arith, is_nil, ==_refl}
use superkb.Domain.{Document, Build, BuildStatus, pending, processing, ready, failed, is_pending}
use superkb.Domain.Errors.{Error}
use mathlib.Core.Path.{subst₂}
use superkb.Lifecycle.Ends.{Any}
use superkb.Lifecycle.Frames.{enqueue-Runs, index_documents-Runs}
use superkb.Lifecycle.Runs.{
  Runs, Runs-pure, Runs-fail, Runs-if, Runs-weaken, Runs-known, Runs-annotate, Runs-ask,
  Runs-attempt, Runs-bind, Runs-branch,
}
use superkb.Lifecycle.Statements.{
  get_kb-Runs, get_build-Runs, list_documents-Runs, create_build-Runs, update_build-Runs,
}
use superkb.Lifecycle.Steps.{Grow, advance, ◌⟶◌, start, finish, reject, break}
use superkb.Postgres.Tables.{Db, find_build, insert_build, set_build, update_build}
use superkb.Postgres.Tables.Laws.{
  id-find_build, find_build_self, find_build-insert_new, find_build-update_build,
}
use superkb.Postgres.Builds as Repository
use superkb.Usecase.Builds as Usecase
use superkb.Usecase.Builds.{Scheduled, queued, unqueued}
use superkb.World.{Ports}

-- The build of id `i` and `n` documents has the status `s`.
pub record HasStatus (i n : ℕ) (s : BuildStatus) (db : Db) : Type 0 where
  pub row : Build
  pub found : find_build i db.kb_builds ≡ some row
  pub at : row.status ≡ s
  pub count : n ≡ row.document_count

-- an UPDATE that moves the row on
HasStatus-update_build :
    {s : BuildStatus} {db : Db} (new : Build)
    → HasStatus new.id new.document_count s db
    → s ⟶ new.status
    → Grow db (update_build new db)
      × HasStatus new.id new.document_count new.status (update_build new db)
HasStatus-update_build {s} {db} new h t = (
  advance new h.found (subst (λ u. u ⟶ new.status) (sym h.at) t) h.count,
  record {
    row = set_build new h.row;
    found = rw (find_build-update_build, ==_refl, h.found);
    at = refl;
    count = refl;
  },
)

pub is_pending-pending : (s : BuildStatus) → is_pending s ≡ true → s ≡ pending
is_pending-pending s h = ground arith

HasStatus-insert_build :
    (b : Build) (db : Db)
    → find_build b.id db.kb_builds ≡ none
    → HasStatus b.id b.document_count b.status (insert_build b db)
HasStatus-insert_build b db fresh = record {
  row = b;
  found = rw (find_build-insert_new db b.id b fresh, ==_refl);
  at = refl;
  count = refl;
}

-- A build that has not ended.
pub data IsOpen (i n : ℕ) (db : Db) : Type 0 where
  waiting : HasStatus i n pending db → IsOpen i n db
  started : HasStatus i n processing db → IsOpen i n db

IsOpen-fail :
    (new : Build) (db : Db)
    → new.status ≡ failed
    → IsOpen new.id new.document_count db
    → Grow db (update_build new db) × Any (update_build new db)
IsOpen-fail new db e (waiting h) =
    ((HasStatus-update_build new h (subst (λ u. pending ⟶ u) (sym e) reject)).0, tt)
IsOpen-fail new db e (started h) =
    ((HasStatus-update_build new h (subst (λ u. processing ⟶ u) (sym e) break)).0, tt)

-- The row of a build that was scheduled waits for a worker.
abbrev pub Waits : Scheduled → Db → Type 0
Waits (queued b) db = HasStatus b.id b.document_count pending db
Waits (unqueued b e) db = Unit {0}

-- the update that marks a build failed
attempt_fail-Runs :
    {E : Type 0} (Pt : Ports E) (new : Build)
    → new.status ≡ failed
    → Runs {E = E} Grow
        (IsOpen new.id new.document_count)
        (attempt (Repository.update Pt new))
        (λ _. Any)
        Any
attempt_fail-Runs Pt new e =
    Runs-attempt
      (update_build-Runs Pt (λ _ _. tt) new (λ db h. IsOpen-fail (Repository.kept Pt new) db e h))

module _ {E : Type 0} (Pt : Ports E) where
  unschedule-Runs :
      (b : Build) (e : Error)
      → Runs Grow
          (λ db. HasStatus b.id b.document_count pending db)
          (Usecase.unschedule Pt b e)
          Waits
          Any
  unfolding Usecase.unschedule
  unschedule-Runs b e = Runs-bind (Runs-ask Pt.now) λ now.
      Runs-bind
        (Runs-weaken (attempt_fail-Runs (Usecase.expired Pt e) _ refl) (λ db h. waiting h)
          (λ _ _ _. tt) (λ _ _. tt))
        (λ _. Runs-pure _ (λ _ _. tt))

  mark_processing-Runs :
      (b : Build)
      → Runs Grow
          (λ db. HasStatus b.id b.document_count pending db)
          (Usecase.mark_processing Pt b)
          (λ b' db.
            (b'.id ≡ b.id)
            × (b'.document_count ≡ b.document_count)
            × HasStatus b'.id b'.document_count processing db)
          (IsOpen b.id b.document_count)
  unfolding Usecase.mark_processing
  mark_processing-Runs b = Runs-bind (Runs-ask Pt.now) λ now.
      Runs-bind
        (Runs-annotate _
          (update_build-Runs Pt (λ db h. waiting h) _ (λ db h. HasStatus-update_build _ h start)))
        (λ _. Runs-pure _ (λ db h. (refl, refl, h)))

  finalize-Runs :
      (b : Build)
      → Runs Grow
          (HasStatus b.id b.document_count processing)
          (Usecase.finalize Pt b)
          (λ _ db. HasStatus b.id b.document_count ready db)
          Any
  unfolding Usecase.finalize
  finalize-Runs b = Runs-bind (Runs-ask Pt.now) λ now.
      Runs-annotate _
        (update_build-Runs Pt (λ _ _. tt) _ (λ db h. HasStatus-update_build _ h finish))

  -- the build that `runBuild` hands on is the one that it was given
  finalize_as-Runs :
      (b b' : Build)
      → Runs Grow
          (λ db.
            (b'.id ≡ b.id)
            × (b'.document_count ≡ b.document_count)
            × HasStatus b'.id b'.document_count processing db)
          (Usecase.finalize Pt b')
          (λ _ db. HasStatus b.id b.document_count ready db)
          Any
  finalize_as-Runs b b' =
      Runs-known {F = (b'.id ≡ b.id) × (b'.document_count ≡ b.document_count)} (λ db h. (h.0, h.1))
        λ (i, n).
          Runs-weaken (finalize-Runs b') (λ db h. h.2)
            (λ _ db h. subst₂ (λ i n. HasStatus i n ready db) i n h) (λ _ _. tt)

  fail_build-Runs :
      {Q : Unit {0} → Db → Type 0} (b : Build) (e : Error)
      → Runs Grow (IsOpen b.id b.document_count) (Usecase.fail_build Pt b e) Q Any
  unfolding Usecase.fail_build
  fail_build-Runs b e =
      Runs-bind (Runs-ask Pt.now)
        λ now. Runs-bind (attempt_fail-Runs Pt _ refl) (λ _. Runs-fail _ (λ _ _. tt))

  -- what the loop and the calls of the indexer leave as it was
  run_build-Runs :
      (b : Build) (docs : List Document)
      → Runs Grow
          (HasStatus b.id b.document_count pending)
          (Usecase.run_build Pt b docs)
          (λ b' db.
            (b'.id ≡ b.id)
            × (b'.document_count ≡ b.document_count)
            × HasStatus b'.id b'.document_count processing db)
          (IsOpen b.id b.document_count)
  unfolding Usecase.run_build
  run_build-Runs b docs = Runs-bind (mark_processing-Runs b) λ b'.
      Runs-bind
        (Runs-weaken (index_documents-Runs Pt b' docs) (λ _ h. h) (λ _ _ h. h)
          (λ db (i, n, h). started (subst₂ (λ i n. HasStatus i n processing db) i n h)))
        (λ _. Runs-pure _ (λ _ h. h))

  process_pending-Runs :
      (b : Build)
      → Runs Grow
          (HasStatus b.id b.document_count pending)
          (Usecase.process_pending Pt b)
          (λ _ db. HasStatus b.id b.document_count ready db)
          Any
  unfolding Usecase.process_pending
  process_pending-Runs b =
      Runs-branch (Runs-annotate _ (list_documents-Runs Pt (λ _ h. waiting h) b.knowledge_base_id))
        (λ docs.
          Runs-branch (Runs-weaken (run_build-Runs b docs) (λ _ h. h.0) (λ _ _ h. h) (λ _ h. h))
            (λ b'. finalize_as-Runs b b') (fail_build-Runs b))
        (fail_build-Runs b)

  -- a build that has ended, or that another worker has started, is left alone
  pub process_build-Runs :
      (build_id : ℕ) → Runs Grow Any (Usecase.process_build Pt build_id) (λ _. Any) Any
  unfolding Usecase.process_build
  process_build-Runs build_id =
      Runs-bind (Runs-annotate _ (get_build-Runs Pt (λ _ _. tt) build_id)) λ b.
        Runs-if (is_pending b.status)
          (λ waits.
            Runs-weaken (process_pending-Runs b)
              (λ db h. record {
                row = b;
                found = find_build_self db build_id b h.1;
                at = is_pending-pending b.status waits;
                count = refl;
              })
              (λ _ _ _. tt) (λ _ _. tt))
          (λ _. Runs-pure _ (λ _ _. tt))

  -- what the row that is read tells of a build that waits
  read-HasStatus :
      (i n : ℕ) (b : Build) (db : Db)
      → HasStatus i n pending db × (find_build i db.kb_builds ≡ some b)
      → (i ≡ b.id) × (n ≡ b.document_count) × (b.status ≡ pending)
  read-HasStatus i n b db (h, e) =
      let same : h.row ≡ b = cc (h.found, e) in
      (
        sym (id-find_build db i b e),
        h.count ∙ ap (λ (r : Build). r.document_count) same,
        sym (ap (λ (r : Build). r.status) same) ∙ h.at,
      )

  -- a build that waits is ready when it was processed without an error
  pub process_build-ready :
      (i n : ℕ)
      → Runs Grow
          (HasStatus i n pending)
          (Usecase.process_build Pt i)
          (λ _ db. HasStatus i n ready db)
          Any
  unfolding Usecase.process_build
  process_build-ready i n = Runs-bind (Runs-annotate _ (get_build-Runs Pt (λ _ _. tt) i)) λ b.
      Runs-known {F = (i ≡ b.id) × (n ≡ b.document_count) × (b.status ≡ pending)}
        (read-HasStatus i n b)
        λ (same, count, waits).
          Runs-if (is_pending b.status)
            (λ _.
              Runs-weaken (process_pending-Runs b)
                (λ db h. subst₂ (λ i n. HasStatus i n pending db) same count h.0)
                (λ _ db h. subst₂ (λ i n. HasStatus i n ready db) (sym same) (sym count) h)
                (λ _ _. tt))
            (λ no. cc (ap is_pending waits, no))

  schedule-Runs :
      (kb_id : ℕ) (docs : List Document) → Runs Grow Any (Usecase.schedule Pt kb_id docs) Waits Any
  unfolding Usecase.schedule
  schedule-Runs kb_id docs = Runs-bind (Runs-ask Pt.now) λ now.
      Runs-bind (Runs-ask Pt.new_uuid) λ id.
        Runs-bind
          (Runs-annotate _ (
            create_build-Runs Pt (λ _ _. tt) _ refl
              (λ db _ fresh. HasStatus-insert_build _ db fresh)))
          λ _. Runs-branch (enqueue-Runs Pt id) (λ _. Runs-pure _ (λ _ h. h)) (unschedule-Runs _)

  pub build-Runs : (kb_id : ℕ) → Runs Grow Any (Usecase.build Pt kb_id) Waits Any
  unfolding Usecase.build
  build-Runs kb_id = Runs-bind (Runs-annotate _ (get_kb-Runs Pt (λ _ _. tt) kb_id)) λ _.
      Runs-bind {Q = λ docs db. Any db}
        (Runs-weaken (Runs-annotate _ (list_documents-Runs Pt (λ _ _. tt) kb_id)) (λ _ _. tt)
          (λ _ _ _. tt) (λ _ _. tt))
        λ docs. Runs-if (is_nil docs) (λ _. Runs-fail _ (λ _ _. tt)) (λ _. schedule-Runs kb_id docs)
