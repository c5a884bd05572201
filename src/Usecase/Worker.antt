-- ===== src/Usecase/Worker.antt =====
-- `BuildWorker` of usecase/build_worker.go: one worker, one build at a time.
use superkb.Base.{ℕ, zero, suc, Option, none, some}
use superkb.Base.Int.{ℤ, pos, negsuc}
use superkb.Domain.Errors.{Result}
use superkb.Usecase.Builds.{process_build}
use superkb.Usecase.Queue.{receive}
use superkb.World.{World, Ports}

-- `NewBuildWorker`: at least one goroutine
unfoldable pub worker_count : ℤ → ℕ
worker_count (negsuc n) = 1
worker_count (pos zero) = 1
worker_count (pos (suc n)) = suc n

module _ {E : Type 0} (P : Ports E) where
  abbrev pub report : ℕ → Result (Unit {0}) × World E → Option (ℕ × Result (Unit {0})) × World E
  report id (r, w) = (some (id, r), w)

  abbrev pub process : Option ℕ × World E → Option (ℕ × Result (Unit {0})) × World E
  process (none, w) = (none, w)
  process (some id, w) = report id (process_build P id w)

  -- one round of `loop`: what is logged, if a build waits
  unfoldable pub serve_next : World E → Option (ℕ × Result (Unit {0})) × World E
  serve_next w = process (receive P w)

  -- rounds of `loop`, until no build waits
  unfoldable pub serve : ℕ → World E → World E
  unfolding serve_next
  serve zero w = w
  serve (suc rounds) w = serve rounds (serve_next w).1
