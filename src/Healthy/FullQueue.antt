-- ===== src/Healthy/FullQueue.antt =====
-- `Build` of internal/usecase/knowledge_base.go on a queue without a free place.
use superkb.Base.{ℕ, ◌≡◌, refl, ltb, ==_refl, false, none, some, ◌++◌, length}
use superkb.Base.Text.{Text, lit}
use superkb.Delivery.Handlers.{Handler, with_id, with_uuid}
use superkb.Delivery.KnowledgeBases.{start_build, shown}
use superkb.Delivery.Response.{write_json}
use superkb.Delivery.Views
use superkb.Delivery.Views.{to_build_response}
use superkb.Domain.{Build, pending, failed}
use superkb.Domain.Errors.{Error, ok, err, annotated, error_text}
use superkb.Exec.{branch, attempt, ◌>>=◌}
use superkb.Healthy.Journey.{Creatable, new_id, new_build, listed_world, inserted_ext, create-found}
use superkb.Healthy.Statements.{Answers, query-up, after_sql, get_kb-found}
use superkb.Postgres.KnowledgeBases
use superkb.Postgres.Tables.{find_build, insert_build}
use superkb.Postgres.Tables.Laws.{find_build-insert_new}
use superkb.Postgres.Builds as Repository
use superkb.Usecase.Builds.{unqueued, expired, build, schedule, unschedule}
use superkb.Usecase.Queue.{enqueue, send}
use superkb.World.{World, Ports}
use superkb.World.Calls.{ask, execute}

-- The channel has no free place, and the context ends only at its deadline.
pub record IsFull {E : Type 0} (P : Ports E) (w : World E) : Type 0 where
  pub no_place : ltb (length w.queue.items) w.queue.size ≡ false
  pub not_cancelled : (x : E) → (P.send_cancelled x).0 ≡ none

pub with_uuid-parsed :
    {E : Type 0} (P : Ports E) (refusal text : Text) (next : ℕ → Handler E) (i : ℕ) (w : World E)
    → P.parse_uuid text ≡ some i
    → with_uuid P refusal text next w ≡ next i w
unfolding with_uuid
with_uuid-parsed P refusal text next i w h = rw (h, with_uuid) refl

start_build-parsed :
    {E : Type 0} (P : Ports E) (text : Text) (kb : ℕ) (w : World E)
    → P.parse_uuid text ≡ some kb
    → start_build P text w ≡ shown P (build P kb w)
unfolding start_build with_id
start_build-parsed P text kb w h = with_uuid-parsed P _ text _ kb w h

module _ {E : Type 0} (P : Ports E) (up : Answers P) (kb : ℕ) (w : World E) where
  -- the error of the deadline, and the outside world behind it
  abbrev late : Error × E
  late = P.deadline (P.send_cancelled (inserted_ext P up kb w)).1

  abbrev pub failed_build : Build
  failed_build = record (new_build P up kb w) {
    status = failed;
    error = lit "enqueue: " ++ error_text late.0;
    updated_at = (P.now late.1).0;
  }

  abbrev failed_world : World E
  failed_world = record w {
    db = insert_build (Repository.kept P (new_build P up kb w)) w.db;
    ext = (P.now late.1).1;
  }

  found-inserted :
      Creatable P kb w
      → find_build
          (new_id P w)
          (insert_build (Repository.kept P (new_build P up kb w)) w.db).kb_builds
        ≡ some (Repository.kept P (new_build P up kb w))
  found-inserted c = rw (
    find_build-insert_new w.db (new_id P w) (Repository.kept P (new_build P up kb w)) c.fresh,
    ==_refl,
  )

  -- the update on the context that has ended
  update-expired :
      (x : E)
      → Repository.update
          (expired P late.0)
          failed_build
          (record w { db = insert_build (Repository.kept P (new_build P up kb w)) w.db; ext = x })
        ≡ (
          err (annotated (lit "postgres: update build") late.0),
          record w { db = insert_build (Repository.kept P (new_build P up kb w)) w.db; ext = x },
        )
  unfolding Repository.update execute
  update-expired x = refl

  build-unqueued :
      Creatable P kb w
      → IsFull P w
      → build P kb w
        ≡ (ok (unqueued failed_build (annotated (lit "build: enqueue") late.0)), failed_world)
  unfolding build schedule unschedule enqueue send KnowledgeBases.list_documents branch attempt
      ◌>>=◌ ask
  build-unqueued c f = rw (
    get_kb-found P up w kb c.base c.found,
    query-up P up (after_sql P up w),
    c.has_members,
    create-found P up kb w (new_build P up kb w)
        (P.new_uuid (P.now (listed_world P up kb w).ext).1).1 c.fresh c.found,
    f.not_cancelled,
    f.no_place,
    update-expired (P.now late.1).1,
  )

  -- Where the database answers until then, `POST /knowledge-bases/{id}/builds` for a knowledge base
  -- with members, while the queue has no place until the context of the request ends, is answered
  -- 202 with a build that has failed with the error of the context; but its row is left pending, as
  -- the update runs on the context that has ended, and the queue is as it was, so that no worker
  -- takes the build.
  pub start_build-full :
      (text : Text)
      → P.parse_uuid text ≡ some kb
      → Creatable P kb w
      → IsFull P w
      → let (r, w') = start_build P text w in
        (r ≡ write_json 202 (Views.build (to_build_response P failed_build)))
        × (find_build (new_id P w) w'.db.kb_builds ≡ some (Repository.kept P (new_build P up kb w)))
        × ((new_build P up kb w).status ≡ pending)
        × (w'.queue ≡ w.queue)
  start_build-full text parsed c f =
      rw (start_build-parsed P text kb w parsed, build-unqueued c f)
        (refl, found-inserted c, refl, refl)
