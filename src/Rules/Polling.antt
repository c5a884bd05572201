-- ===== src/Rules/Polling.antt =====
-- infra/hindsight/indexer.go: the polling loops, against a semantics in big steps.
use superkb.Base.{ℕ, zero, suc, ◌≤◌, ◌≡◌, arith, refl, sym, ◌∙◌, subst, Option, none, some}
use superkb.Domain.Errors.{Error, Result, ok, err}
use superkb.Exec.{Exec, pure, fail, observe, ◌>>=◌}
use superkb.Infra.Hindsight.{Indexer, Services}
use superkb.Infra.Hindsight.Retaining.{concluded, interrupted_or, poll}
use superkb.Infra.Operations.{Verdict, stop, again}

from_suc : (P : ℕ → Type 0) (k : ℕ) → ((m : ℕ) → k ≤ m → P (suc m)) → (n : ℕ) → suc k ≤ n → P n
from_suc P k f zero h = absurd (omega arith)
from_suc P k f (suc m) h = f m (omega arith)

module _ {E A St : Type 0} (S : Services E) (C : Indexer) (request : Exec E A)
    (judge : St → Result A → Verdict St) where
  -- `Loop st x r y`: the loop, from the state `st` in the world `x`, returns `r` and leaves `y`.
  pub data Loop : St → E → Result (Unit {0}) → E → Type 0 where
    returned :
        {st : St} {x y : E} {reply : Result A} {r : Result (Unit {0})}
        → request x ≡ (reply, y)
        → judge st reply ≡ stop r
        → Loop st x r y
    interrupted :
        {st st' : St} {x y z : E} {reply : Result A} {e : Error}
        → request x ≡ (reply, y)
        → judge st reply ≡ again st'
        → S.select y ≡ (some e, z)
        → Loop st x (err e) z
    continued :
        {st st' : St} {x y z v : E} {reply : Result A} {r : Result (Unit {0})}
        → request x ≡ (reply, y)
        → judge st reply ≡ again st'
        → S.select y ≡ (none, z)
        → Loop st' z r v
        → Loop st x r v

  -- the outcome of a loop that has come to its end
  abbrev pub ended : Result (Unit {0}) → E → Result (Option (Unit {0})) × E
  ended (ok _) y = (ok (some tt), y)
  ended (err e) y = (err e, y)

  ended-stop :
      (r : Result (Unit {0})) (go_on : St → Exec E (Option (Unit {0}))) (y : E)
      → concluded S C (stop r) go_on y ≡ ended r y
  unfolding pure fail
  ended-stop (ok tt) go_on y = refl
  ended-stop (err e) go_on y = refl

  -- a round of the loop, by what it replied and judged
  pub poll_step :
      (n : ℕ) (st : St) (x y : E) (reply : Result A) (v : Verdict St)
      → request x ≡ (reply, y)
      → judge st reply ≡ v
      → poll S C request judge (suc n) st x ≡ concluded S C v (poll S C request judge n) y
  unfolding poll
  poll_step n st x y reply v replied judged = rw (replied, judged) refl

  pub select_step :
      (st : St) (go_on : St → Exec E (Option (Unit {0}))) (y z : E) (c : Option Error)
      → S.select y ≡ (c, z)
      → concluded S C (again st) go_on y ≡ interrupted_or S C c (go_on st) z
  unfolding observe ◌>>=◌
  select_step st go_on y z c selected = rw selected refl

  -- A loop that returns does so within some number of rounds, and with any larger bound.
  pub Loop-poll :
      {st : St} {x y : E} {r : Result (Unit {0})}
      → Loop st x r y
      → (k : ℕ) × ((n : ℕ) → k ≤ n → poll S C request judge n st x ≡ ended r y)
  unfolding fail
  Loop-poll (returned {st} {x} {y} {reply} {r} replied judged) =
      (1, from_suc _ 0 λ m _. poll_step m st x y reply (stop r) replied judged ∙ ended-stop r _ y)
  Loop-poll (interrupted {st} {st'} {x} {y} {z} {reply} {e} replied judged selected) = (
    1,
    from_suc _ 0 λ m _.
        poll_step m st x y reply (again st') replied judged
        ∙ select_step st' (poll S C request judge m) y z (some e) selected,
  )
  Loop-poll (continued {st} {st'} {x} {y} {z} {v} {reply} {r} replied judged selected rest) =
      let (k, enough) = Loop-poll rest in
      (
        suc k,
        from_suc _ k λ m h.
            poll_step m st x y reply (again st') replied judged
            ∙ select_step st' (poll S C request judge m) y z none selected
            ∙ enough m h,
      )

  -- the result of a loop that has come to its end
  result_of : Result (Option (Unit {0})) → Result (Unit {0})
  result_of (ok _) = ok tt
  result_of (err e) = err e

  Loop-ended :
      (st : St) (x y : E) (r : Result (Unit {0})) (p : Result (Option (Unit {0})) × E)
      → Loop st x (result_of p.0) p.1
      → p ≡ ended r y
      → Loop st x r y
  unfolding result_of
  Loop-ended st x y (ok _) p l h = subst (λ p. Loop st x (result_of p.0) p.1) h l
  Loop-ended st x y (err e) p l h = subst (λ p. Loop st x (result_of p.0) p.1) h l

  module _ (n : ℕ) (st : St) (x y z : E) (reply : Result A) (r : Result (Unit {0}))
      (replied : request x ≡ (reply, z))
      (ih : (st' : St) (u : E) → poll S C request judge n st' u ≡ ended r y → Loop st' u r y) where
    selected-Loop :
        (st' : St) (u : E) (c : Option Error)
        → judge st reply ≡ again st'
        → S.select z ≡ (c, u)
        → interrupted_or S C c (poll S C request judge n st') u ≡ ended r y
        → Loop st x r y
    unfolding fail result_of
    selected-Loop st' u none judged selected h = continued replied judged selected (ih st' u h)
    selected-Loop st' u (some e) judged selected h =
        Loop-ended st x y r (err e, u) (interrupted replied judged selected) h

    concluded-Loop :
        (v : Verdict St)
        → judge st reply ≡ v
        → concluded S C v (poll S C request judge n) z ≡ ended r y
        → Loop st x r y
    unfolding pure fail result_of
    concluded-Loop (stop (ok _)) judged h =
        Loop-ended st x y r (ok (some tt), z) (returned replied judged) h
    concluded-Loop (stop (err e)) judged h =
        Loop-ended st x y r (err e, z) (returned replied judged) h
    concluded-Loop (again st') judged h =
        selected-Loop st' (S.select z).1 (S.select z).0 judged refl
          (sym (select_step st' (poll S C request judge n) z _ _ refl) ∙ h)

  pub poll-Loop :
      (n : ℕ) (st : St) (x y : E) (r : Result (Unit {0}))
      → poll S C request judge n st x ≡ ended r y
      → Loop st x r y
  unfolding poll pure
  poll-Loop zero st x y (ok tt) h = cc
  poll-Loop zero st x y (err e) h = cc
  poll-Loop (suc n) st x y r h =
      concluded-Loop n st x y (request x).1 (request x).0 r refl (λ st' u. poll-Loop n st' u y r)
        (judge st (request x).0) refl h
