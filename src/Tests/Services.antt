-- ===== src/Tests/Services.antt =====
-- The operations of the services at concrete tables.
use superkb.Base.{◌≡◌, refl, some, []}
use superkb.Base.Text.{lit}
use superkb.Delivery.Handlers.{done}
use superkb.Delivery.Response.{respond}
use superkb.Domain.{KnowledgeBase, pending, ready}
use superkb.Domain.Errors.{ok, err, refusal, conflict}
use superkb.Healthy.Joining.{Joins, add_document-Joins}
use superkb.Healthy.Building.{process_build_completes}
use superkb.Healthy.Search.{disable_stops}
use superkb.Healthy.Serving.{enable_verdict, status-enable}
use superkb.Lifecycle.Builds.{HasStatus}
use superkb.Postgres.Tables.{find_kb, find_build, find_document}
use superkb.Tests.Fixtures.{
  counter, counter-Answers, counter-Works, served_world, waiting_world, served_handbook, build_of,
}
use superkb.Usecase.Builds as Building
use superkb.Usecase.Builds.{queued}
use superkb.Usecase.KnowledgeBases as Usecase
use superkb.Usecase.Memories.{active_bank_id}

status-enable_example :
    (respond 200 (Usecase.enable counter 1 3 waiting_world).0).status
    ≡ enable_verdict 1
        (find_kb 1 waiting_world.db.knowledge_bases)
        (find_build 3 waiting_world.db.kb_builds)
status-enable_example = status-enable counter counter-Answers waiting_world 1 3

disable_stops_example :
    let w' = (Usecase.disable counter 1 served_world).1 in
    ((active_bank_id counter 1 w').0
      ≡ err (refusal [] conflict (lit ": knowledge base is not enabled or has no active build")))
    × ((k' : KnowledgeBase) × (find_kb 1 w'.db.knowledge_bases ≡ some k')
        × (k'.active_build_id ≡ some 2))
    × (w'.db.kb_builds ≡ served_world.db.kb_builds)
disable_stops_example =
    disable_stops counter counter-Answers served_world 1 served_handbook (unfold find_kb in refl)

completed :
    ((Building.process_build counter 3 waiting_world).0 ≡ ok tt)
    × HasStatus 3 1 ready (Building.process_build counter 3 waiting_world).1.db
completed =
    process_build_completes counter counter-Answers counter-Works waiting_world 3
      (build_of 3 pending) (unfold find_build in refl) refl

add_document-Joins_example :
    Joins 1 7
      (find_kb 1 served_world.db.knowledge_bases)
      (find_document 7 served_world.db.documents)
      served_world.db
      (done (Usecase.add_document counter 1 7 served_world))
add_document-Joins_example = add_document-Joins counter counter-Answers 1 7 served_world
