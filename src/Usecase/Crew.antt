-- ===== src/Usecase/Crew.antt =====
-- `BuildWorker` of usecase/build_worker.go with all its goroutines: steps that interleave in any
-- order, with the requests that put builds into the queue.
use superkb.Base.{ℕ, zero, suc, ◌≡◌, Bool, true, false, List, [], ◌∷◌}
use superkb.Domain.Errors.{ok}
use superkb.Usecase.Builds.{process_build}
use superkb.Usecase.Queue.{enqueue}
use superkb.World.{World, Ports}

-- a goroutine in `loop`: at its `select`, in `ProcessBuild`, or behind its return
pub data Slot : Type 0 where
  selecting : Slot
  working : ℕ → Slot
  returned : Slot

-- the goroutines of the `WaitGroup`, and whether their context is done
pub record Crew (E : Type 0) : Type 0 where
  pub world : World E
  pub slots : List Slot
  pub cancelled : Bool

abbrev pub goroutines : ℕ → List Slot
goroutines zero = []
goroutines (suc n) = selecting ∷ goroutines n

-- `Start`: so many goroutines
unfoldable pub start : {E : Type 0} → ℕ → World E → Crew E
start n w = record { world = w; slots = goroutines n; cancelled = false }

-- `Turn ss a b ss'`: one goroutine of `ss` goes from `a` to `b`.
pub data Turn : List Slot → Slot → Slot → List Slot → Type 0 where
  this : {a b : Slot} {ss : List Slot} → Turn (a ∷ ss) a b (b ∷ ss)
  other : {a b s : Slot} {ss ss' : List Slot} → Turn ss a b ss' → Turn (s ∷ ss) a b (s ∷ ss')

pub data Event : Type 0 where
  sent taken finished : ℕ → Event
  elsewhere stopped left : Event

-- the world with its queue after a receive
abbrev pub dequeued : {E : Type 0} → List ℕ → World E → World E
dequeued ids w = record w { queue = record w.queue { items = ids } }

module _ {E : Type 0} (P : Ports E) where
  -- One step. Of the two cases of the `select` that are ready, either may be taken, so a goroutine
  -- may take a build also when the context is done.
  pub data Step : Crew E → Event → Crew E → Type 0 where
    -- a request whose `Enqueue` succeeds
    send :
        {c : Crew E} {w : World E} (id : ℕ)
        → enqueue P id c.world ≡ (ok tt, w)
        → Step c (sent id) (record c { world = w })
    -- anything else that does not touch the queue
    act :
        {c : Crew E} {w : World E}
        → w.queue ≡ c.world.queue
        → Step c elsewhere (record c { world = w })
    -- `buildID, ok := <-w.queue.ch`
    take :
        {c : Crew E} {ss : List Slot} (id : ℕ) (ids : List ℕ)
        → c.world.queue.items ≡ id ∷ ids
        → Turn c.slots selecting (working id) ss
        → Step c (taken id) (record c { world = dequeued ids c.world; slots = ss })
    -- `ProcessBuild` returns, with or without an error, if it ever does
    finish :
        {c : Crew E} {ss : List Slot} (id : ℕ)
        → Turn c.slots (working id) selecting ss
        → Step c (finished id) (record c { world = (process_build P id c.world).1; slots = ss })
    -- `stopWorker()`
    stop : {c : Crew E} → Step c stopped (record c { cancelled = true })
    -- `case <-ctx.Done(): return`
    leave :
        {c : Crew E} {ss : List Slot}
        → c.cancelled ≡ true
        → Turn c.slots selecting returned ss
        → Step c left (record c { slots = ss })

  -- steps one after another, the last event first
  pub data Runs (c : Crew E) : List Event → Crew E → Type 0 where
    here : Runs c [] c
    next :
        {es : List Event} {e : Event} {d f : Crew E} → Runs c es d → Step d e f → Runs c (e ∷ es) f

-- `Wait` returns: every goroutine has
abbrev pub AllReturned : List Slot → Type 0
AllReturned [] = Unit {0}
AllReturned (selecting ∷ ss) = ⊥
AllReturned (working id ∷ ss) = ⊥
AllReturned (returned ∷ ss) = AllReturned ss
