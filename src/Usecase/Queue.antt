-- ===== src/Usecase/Queue.antt =====
-- `ChannelBuildQueue` of usecase/build_worker.go
use superkb.Base.{ℕ, zero, suc, Option, none, some, List, [], ◌∷◌, ◌++◌, length, ltb}
use superkb.Base.{if◌then◌else◌}
use superkb.Base.Int.{ℤ, pos, negsuc}
use superkb.Exec.{fail, ◌>>=◌}
use superkb.World.{World, Ports, BuildQueue}
use superkb.World.Calls.{M, ask}
use superkb.Domain.Errors.{Error, Result, ok}

-- a channel of at least one place: 64 where the given size is not positive
abbrev channel_size : ℤ → ℕ
channel_size (negsuc n) = 64
channel_size (pos zero) = 64
channel_size (pos (suc n)) = suc n

-- `NewChannelBuildQueue`
unfoldable pub new_channel_build_queue : ℤ → BuildQueue
new_channel_build_queue size = record { size = channel_size size; items = [] }

module _ {E : Type 0} (P : Ports E) where
  abbrev pub push : ℕ → World E → Result (Unit {0}) × World E
  push id w = (ok tt, record w { queue = record w.queue { items = w.queue.items ++ (id ∷ []) } })

  -- `q.ch <- buildID`: with no free place the sender waits until its context ends
  unfoldable pub send : ℕ → M E (Unit {0})
  send id w =
      if ltb (length w.queue.items) w.queue.size
      then push id w
      else (do e ← ask P.deadline; fail e) w

  abbrev pub offer : ℕ → Option Error → M E (Unit {0})
  offer id (some e) = fail e
  offer id none = send id

  -- `Enqueue`: of the two cases of the `select` that are ready, either may be taken
  unfoldable pub enqueue : ℕ → M E (Unit {0})
  enqueue id = do cancelled ← ask P.send_cancelled; offer id cancelled

  -- `<-w.queue.ch`
  abbrev pub pop : List ℕ → World E → Option ℕ × World E
  pop [] w = (none, w)
  pop (id ∷ ids) w = (some id, record w { queue = record w.queue { items = ids } })

  unfoldable pub receive : World E → Option ℕ × World E
  receive w = pop w.queue.items w
