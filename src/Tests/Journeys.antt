-- ===== src/Tests/Journeys.antt =====
-- A build from its request to the search that it serves, at concrete tables.
use superkb.Postgres.Builds as Rows
use superkb.Base.{
  ℕ, ◌≡◌, refl, some, false, [], ◌∷◌, find_where, select_where, exists_where, sort_by,
}
use superkb.Domain.{pending}
use superkb.Domain.Errors.{ok}
use superkb.Delivery.KnowledgeBases.{start_build}
use superkb.Delivery.Response.{write_json}
use superkb.Delivery.Views
use superkb.Delivery.Views.{to_build_response}
use superkb.Healthy.FullQueue.{failed_build, start_build-full}
use superkb.Healthy.Journey.{new_id, Creatable, Startable, Served, new_build, build-Served}
use superkb.Postgres.KnowledgeBases.{members}
use superkb.Postgres.Tables.{find_kb, find_build}
use superkb.Tests.Fixtures.{counter, counter-Answers, counter-Works, idle_world, handbook}
use superkb.Usecase.Builds.{queued, build}
use superkb.Usecase.Search.{SearchOptions}
use superkb.Usecase.Worker.{serve_next}
use superkb.World.{World}

idle_world-Creatable : Creatable counter 1 idle_world
unfolding find_kb find_build find_where members select_where exists_where sort_by
idle_world-Creatable = record { base = handbook; found = refl; has_members = refl; fresh = refl }

idle_world-Startable : Startable counter 1 idle_world
idle_world-Startable = record {
  creatable = idle_world-Creatable;
  idle = refl;
  has_place = refl;
  not_cancelled = λ x. refl;
}

abbrev plain : SearchOptions
plain = record { top_k = 3; include_references = false }

build-Served_example :
    ((build counter 1 idle_world).0 ≡ ok (queued (new_build counter counter-Answers 1 idle_world)))
    × Served counter counter-Answers 1 idle_world
        (b'q' ∷ [])
        plain
        (serve_next counter (build counter 1 idle_world).1).1
build-Served_example =
    build-Served counter counter-Answers 1 idle_world counter-Works idle_world-Startable (b'q' ∷ [])
      plain refl

-- the same tables, with a queue of one place that is taken
abbrev busy_world : World ℕ
busy_world = record idle_world { queue = record { size = 1; items = 9 ∷ [] } }

busy_world-Creatable : Creatable counter 1 busy_world
unfolding find_kb find_build find_where members select_where exists_where sort_by
busy_world-Creatable = record { base = handbook; found = refl; has_members = refl; fresh = refl }

start_build-full_example :
    let (r, w') = start_build counter (1 ∷ []) busy_world in
    let late_build = failed_build counter counter-Answers 1 busy_world in
    let b = new_build counter counter-Answers 1 busy_world in
    (r ≡ write_json 202 (Views.build (to_build_response counter late_build)))
    × (find_build (new_id counter busy_world) w'.db.kb_builds ≡ some (Rows.kept counter b))
    × (b.status ≡ pending)
    × (w'.queue ≡ busy_world.queue)
start_build-full_example =
    start_build-full counter counter-Answers 1 busy_world (1 ∷ []) refl busy_world-Creatable
      (record { no_place = refl; not_cancelled = λ x. refl })
