-- ===== src/Tests/Wired.antt =====
-- The worker, and the parts of a program that starts.
use superkb.Base.{ℕ, ◌≡◌, refl, [], ◌∷◌, arith}
use superkb.Base.Text.{lit}
use superkb.Infra.Storage.{Storage}
use superkb.Rules.Draining.{Served, serve-Served}
use superkb.Tests.Fixtures.{counter, waiting_world}
use superkb.Tests.Settings.{variables, settings, started}
use superkb.Usecase.Worker.{serve}
use superkb.Wiring.{assemble}
use superkb.Wiring.Ready.{IsReady, assemble-IsReady}
use superkb.World.{World}

-- the build 3 waits, and a build that has no row
abbrev busy_world : World ℕ
busy_world = record waiting_world { queue = record { size = 4; items = 3 ∷ 9 ∷ [] } }

serve-Served_example :
    Served counter (3 ∷ 9 ∷ []) busy_world (serve counter 5 busy_world)
    × ((serve counter 5 busy_world).queue.items ≡ [])
serve-Served_example = serve-Served counter (3 ∷ 9 ∷ []) 5 busy_world refl (omega arith)

abbrev bucket : Storage
bucket = record { client = 1; bucket = lit "superkb" }

assemble-IsReady_example : IsReady (assemble settings bucket)
assemble-IsReady_example = assemble-IsReady variables settings bucket started
