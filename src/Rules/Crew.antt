-- ===== src/Rules/Crew.antt =====
-- `BuildWorker` of usecase/build_worker.go: where the builds are while goroutines, requests and the
-- shutdown interleave.
use superkb.Base.{
  ℕ, zero, suc, ◌+◌, ◌≡◌, refl, sym, ap, subst, ◌∙◌, arith, List, [], ◌∷◌, ◌++◌, ◌==◌, length,
  if◌then◌else◌,
}
use superkb.Domain.Errors.{ok}
use superkb.Rules.Draining.{process_build-Quiet}
use superkb.Rules.Queue.{IsBounded, Sent, enqueue-Sent}
use superkb.Usecase.Crew.{
  Slot, selecting, working, returned, Crew, goroutines, start, Turn, this, other, Event, sent,
  finished, Step, send, act, take, finish, stop, leave, Runs, here, next,
}
use superkb.Usecase.Queue.{enqueue}
use superkb.World.{World, Ports}

-- how often a build was sent, and how often its processing has ended
abbrev pub times_sent : ℕ → List Event → ℕ
times_sent i [] = 0
times_sent i (sent j ∷ es) = (if j == i then 1 else 0) + times_sent i es
times_sent i (_ ∷ es) = times_sent i es

abbrev pub times_finished : ℕ → List Event → ℕ
times_finished i [] = 0
times_finished i (finished j ∷ es) = (if j == i then 1 else 0) + times_finished i es
times_finished i (_ ∷ es) = times_finished i es

-- how many goroutines process it
abbrev pub at_work : ℕ → List Slot → ℕ
at_work i [] = 0
at_work i (working j ∷ ss) = (if j == i then 1 else 0) + at_work i ss
at_work i (_ ∷ ss) = at_work i ss

-- how often it waits in the queue
abbrev pub times_queued : ℕ → List ℕ → ℕ
times_queued i [] = 0
times_queued i (j ∷ js) = (if j == i then 1 else 0) + times_queued i js

times_queued-append :
    (i : ℕ) (js : List ℕ) (j : ℕ)
    → times_queued i (js ++ (j ∷ [])) ≡ times_queued i js + (if j == i then 1 else 0)
times_queued-append i [] j = omega arith
times_queued-append i (k ∷ js) j = omega (arith, times_queued-append i js j)

-- a slot on its own
abbrev weight : ℕ → Slot → ℕ
weight i selecting = 0
weight i (working j) = if j == i then 1 else 0
weight i returned = 0

at_work-cons : (i : ℕ) (s : Slot) (ss : List Slot) → at_work i (s ∷ ss) ≡ weight i s + at_work i ss
at_work-cons i selecting ss = omega arith
at_work-cons i (working j) ss = omega arith
at_work-cons i returned ss = omega arith

at_work-Turn :
    (i : ℕ) {a b : Slot} {ss ss' : List Slot}
    → Turn ss a b ss'
    → at_work i ss' + weight i a ≡ at_work i ss + weight i b
at_work-Turn i (this {a} {b} {ss}) = omega (arith, at_work-cons i a ss, at_work-cons i b ss)
at_work-Turn i (other {a} {b} {s} {ss} {ss'} t) =
    omega (arith, at_work-Turn i t, at_work-cons i s ss, at_work-cons i s ss')

length-Turn : {a b : Slot} {ss ss' : List Slot} → Turn ss a b ss' → length ss' ≡ length ss
length-Turn this = refl
length-Turn (other t) = ap suc (length-Turn t)

module _ {E : Type 0} (P : Ports E) where
  -- every build is accounted for: where it is, and what has become of it
  abbrev pub IsCounted : ℕ → List Event → Crew E → Type 0
  IsCounted i es c =
      times_sent i es ≡ times_finished i es + at_work i c.slots + times_queued i c.world.queue.items

  enqueue-ok :
      (id : ℕ) (v w : World E)
      → IsBounded v.queue
      → enqueue P id v ≡ (ok tt, w)
      → (w.queue.items ≡ v.queue.items ++ (id ∷ [])) × IsBounded w.queue
  enqueue-ok id v w b e =
      let s : Sent P id v.queue (ok tt, w) = subst (Sent P id v.queue) e (enqueue-Sent P id v b) in
      (s.0, s.2)

  Step-IsBounded :
      {c d : Crew E} {e : Event} → Step P c e d → IsBounded c.world.queue → IsBounded d.world.queue
  Step-IsBounded (send {c} {w} id s) b = (enqueue-ok id c.world w b s).1
  Step-IsBounded (act e) b = subst IsBounded (sym e) b
  Step-IsBounded (take {c} id ids e t) b = (b.0, omega (arith, b.1, ap length e))
  Step-IsBounded (finish {c} id t) b =
      subst IsBounded (sym ((process_build-Quiet P id).run c.world)) b
  Step-IsBounded stop b = b
  Step-IsBounded (leave e t) b = b

  Step-IsCounted :
      (i : ℕ) (es : List Event) {c d : Crew E} {e : Event}
      → IsBounded c.world.queue
      → Step P c e d
      → IsCounted i es c
      → IsCounted i (e ∷ es) d
  Step-IsCounted i es b (send {c} {w} id s) h = omega (
    arith,
    h,
    ap (times_queued i) (enqueue-ok id c.world w b s).0,
    times_queued-append i c.world.queue.items id,
  )
  Step-IsCounted i es b (act {c} {w} e) h = omega (arith, h, ap (λ q. times_queued i q.items) e)
  Step-IsCounted i es b (take {c} {ss} id ids e t) h =
      omega (arith, h, ap (times_queued i) e, at_work-Turn i t)
  Step-IsCounted i es b (finish {c} {ss} id t) h = omega (
    arith,
    h,
    at_work-Turn i t,
    ap (λ q. times_queued i q.items) ((process_build-Quiet P id).run c.world),
  )
  Step-IsCounted i es b stop h = h
  Step-IsCounted i es b (leave {c} {ss} e t) h = omega (arith, h, at_work-Turn i t)

  length-Step : {c d : Crew E} {e : Event} → Step P c e d → length d.slots ≡ length c.slots
  length-Step (send id s) = refl
  length-Step (act e) = refl
  length-Step (take id ids e t) = length-Turn t
  length-Step (finish id t) = length-Turn t
  length-Step stop = refl
  length-Step (leave e t) = length-Turn t

  at_work-goroutines : (i n : ℕ) → at_work i (goroutines n) ≡ 0
  at_work-goroutines i zero = refl
  at_work-goroutines i (suc n) = at_work-goroutines i n

  length-goroutines : (n : ℕ) → length (goroutines n) ≡ n
  length-goroutines zero = refl
  length-goroutines (suc n) = ap suc (length-goroutines n)

  module _ (n : ℕ) (w : World E) (bounded : IsBounded w.queue) (empty : w.queue.items ≡ []) where
    Runs-IsBounded :
        {es : List Event} {c : Crew E} → Runs P (start n w) es c → IsBounded c.world.queue
    unfolding start
    Runs-IsBounded here = bounded
    Runs-IsBounded (next r s) = Step-IsBounded s (Runs-IsBounded r)

    Runs-IsCounted :
        (i : ℕ) {es : List Event} {c : Crew E} → Runs P (start n w) es c → IsCounted i es c
    unfolding start
    Runs-IsCounted i here = omega (arith, at_work-goroutines i n, ap (times_queued i) empty)
    Runs-IsCounted i (next {es} r s) = Step-IsCounted i es (Runs-IsBounded r) s (Runs-IsCounted i r)

    length-Runs : {es : List Event} {c : Crew E} → Runs P (start n w) es c → length c.slots ≡ n
    unfolding start
    length-Runs here = length-goroutines n
    length-Runs (next r s) = length-Step s ∙ length-Runs r

    -- Whatever requests, goroutines and the shutdown do, one step at a time in any order, from an
    -- empty queue on: each build has been sent as often as its processing has ended, as it is being
    -- processed, and as it waits in the queue, together, so none is lost or processed twice; the
    -- queue never has more builds than places, and there are always as many goroutines.
    pub crew_accounts :
        (i : ℕ) (es : List Event) (c : Crew E)
        → Runs P (start n w) es c
        → IsCounted i es c × IsBounded c.world.queue × (length c.slots ≡ n)
    crew_accounts i es c r = (Runs-IsCounted i r, Runs-IsBounded r, length-Runs r)
