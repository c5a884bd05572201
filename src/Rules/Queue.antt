-- ===== src/Rules/Queue.antt =====
-- `ChannelBuildQueue` of usecase/build_worker.go: its size, and the order of the builds in it.
use superkb.Base.{
  ℕ, zero, suc, ◌≤◌, ◌≡◌, refl, Option, none, some, List, [], ◌∷◌, ◌++◌, arith, length, ltb,
  Bool-cases, inl, inr,
}
use superkb.Base.Int.{ℤ, pos, negsuc}
use superkb.Domain.Errors.{Result, ok, err, Error}
use superkb.Exec.{◌>>=◌}
use superkb.Usecase.Queue.{new_channel_build_queue, send, enqueue, offer}
use superkb.World.{World, Ports, BuildQueue}
use superkb.World.Calls.{ask}

-- the channel holds no more than it has places, and it has one
abbrev pub IsBounded : BuildQueue → Type 0
IsBounded q = (1 ≤ q.size) × (length q.items ≤ q.size)

length-append : (xs : List ℕ) (x : ℕ) → length (xs ++ (x ∷ [])) ≡ suc (length xs)
length-append [] x = refl
length-append (y ∷ xs) x = omega (arith, length-append xs x)

-- A new queue has a place, whatever size it is given.
pub new_channel_build_queue-IsBounded : (size : ℤ) → IsBounded (new_channel_build_queue size)
unfolding new_channel_build_queue
new_channel_build_queue-IsBounded (negsuc n) = ground arith
new_channel_build_queue-IsBounded (pos zero) = ground arith
new_channel_build_queue-IsBounded (pos (suc n)) = ground arith

module _ {E : Type 0} (P : Ports E) where
  -- what a turn of `Enqueue` leaves: the id behind the others, or, with an error, the same queue
  abbrev pub Sent : ℕ → BuildQueue → Result (Unit {0}) × World E → Type 0
  Sent id q (ok _, w) =
      (w.queue.items ≡ q.items ++ (id ∷ [])) × (w.queue.size ≡ q.size) × IsBounded w.queue
  Sent id q (err e, w) = w.queue ≡ q

  send-Sent : (id : ℕ) (w : World E) → IsBounded w.queue → Sent id w.queue (send P id w)
  unfolding send ◌>>=◌ ask
  send-Sent id w h = elim (Bool-cases (ltb (length w.queue.items) w.queue.size)) [
    | inl free ↦ rw free (refl, refl, (h.0, ground (arith, length-append w.queue.items id)))
    | inr full ↦ rw full refl
  ]

  -- After `Enqueue`, the build waits behind all others and the queue has no more builds than
  -- places; if it returns an error, the queue is as it was.
  pub enqueue-Sent : (id : ℕ) (w : World E) → IsBounded w.queue → Sent id w.queue (enqueue P id w)
  unfolding enqueue ◌>>=◌ ask
  enqueue-Sent id w h = go (P.send_cancelled w.ext)
    where
      go : (c : Option Error × E) → Sent id w.queue (offer P id c.0 (record w { ext = c.1 }))
      go (none, x) = send-Sent id (record w { ext = x }) h
      go (some e, x) = refl
