-- ===== src/Tests/Workers.antt =====
-- Two goroutines: one takes the build that a request sends, and both return when they are stopped.
use superkb.Base.{ℕ, ◌≡◌, ◌+◌, refl, [], ◌∷◌, arith, length, false}
use superkb.Exec.{◌>>=◌}
use superkb.Rules.Crew.{times_sent, times_finished, times_queued, at_work, crew_accounts}
use superkb.Rules.Queue.{IsBounded}
use superkb.Tests.Fixtures.{counter, waiting_world}
use superkb.Usecase.Crew.{
  selecting, working, Crew, start, this, sent, taken, send, take, Runs, here, next,
}
use superkb.Usecase.Queue.{enqueue}
use superkb.Usecase.Queue as Queue
use superkb.World.{World}
use superkb.World.Calls.{ask}

abbrev quiet_world : World ℕ
quiet_world = record waiting_world { queue = record { size = 4; items = [] } }

quiet_world-IsBounded : IsBounded quiet_world.queue
quiet_world-IsBounded = (omega arith, omega arith)

abbrev sent_world : World ℕ
sent_world = (enqueue counter 3 quiet_world).1

-- the first goroutine at work on the build
abbrev busy_crew : Crew ℕ
busy_crew = record {
  world = record sent_world { queue = record sent_world.queue { items = [] } };
  slots = working 3 ∷ selecting ∷ [];
  cancelled = false;
}

busy_run : Runs counter (start 2 quiet_world) (taken 3 ∷ sent 3 ∷ []) busy_crew
unfolding start enqueue Queue.send ask ◌>>=◌
busy_run = next (next here (send 3 refl)) (take 3 [] refl this)

crew_accounts_example :
    (times_sent 3 (taken 3 ∷ sent 3 ∷ [])
      ≡ times_finished 3 (taken 3 ∷ sent 3 ∷ [])
        + at_work 3 busy_crew.slots
        + times_queued 3 busy_crew.world.queue.items)
    × IsBounded busy_crew.world.queue
    × (length busy_crew.slots ≡ 2)
crew_accounts_example =
    crew_accounts counter 2 quiet_world quiet_world-IsBounded refl 3 (taken 3 ∷ sent 3 ∷ [])
      busy_crew busy_run
