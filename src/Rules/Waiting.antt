-- ===== src/Rules/Waiting.antt =====
-- infra/hindsight/indexer.go: what `waitForOperation` has seen when it returns, and when it
-- does not.
use superkb.Base.{
  ℕ, zero, suc, ◌≡◌, ◌⊎◌, inl, inr, arith, Bool-cases, refl, sym, ap, ◌∙◌, true, none, some,
}
use superkb.Base.Text.{Text, lit, text_eq, text_eq_iff}
use superkb.Domain.Errors.{Result, ok, err}
use superkb.Exec.{pure, observe, ◌>>=◌}
use superkb.Infra.Hindsight.{Indexer, Services}
use superkb.Infra.Hindsight.Retaining.{poll, get_operation, wait_for_operation}
use superkb.Infra.Operations.{
  OperationResponse, stop, again, operation_verdict, is_in_flight, has_failed,
}
use superkb.Rules.Polling.{Loop, returned, interrupted, continued, poll-Loop}

module _ {E : Type 0} (S : Services E) (C : Indexer) where
  -- the request that left `y` found the operation completed
  pub record Completed (bank id : Text) (y : E) : Type 0 where
    pub at : E
    pub operation : OperationResponse
    pub replied : get_operation S C bank id at ≡ (ok operation, y)
    pub done : text_eq operation.status (lit "completed") ≡ true

  operation_verdict-ok :
      (id : Text) (reply : Result OperationResponse)
      → operation_verdict id tt reply ≡ stop (ok tt)
      → (op : OperationResponse) × (reply ≡ ok op) × (text_eq op.status (lit "completed") ≡ true)
  unfolding operation_verdict
  operation_verdict-ok id (err e) h = cc
  operation_verdict-ok id (ok op) h = (op, refl, ground arith)

  Loop-Completed :
      (bank id : Text) {st : Unit {0}} {x y : E} {r : Result (Unit {0})}
      → Loop S C (get_operation S C bank id) (operation_verdict id) st x r y
      → r ≡ ok tt
      → Completed bank id y
  Loop-Completed bank id (returned {st} {x} {y} {reply} {r} replied judged) e =
      let (op, same, done) = operation_verdict-ok id reply (judged ∙ ap stop e) in
      record { at = x; operation = op; replied = replied ∙ ap (λ r. (r, y)) same; done = done }
  Loop-Completed bank id (interrupted replied judged selected) e = cc
  Loop-Completed bank id (continued replied judged selected rest) e = Loop-Completed bank id rest e

  pub wait_for_operation-Loop :
      (n : ℕ) (bank id : Text) (x y : E)
      → wait_for_operation S C n bank id x ≡ (ok (some tt), y)
      → Loop S C (get_operation S C bank id) (operation_verdict id) tt x (ok tt) y
  unfolding wait_for_operation
  wait_for_operation-Loop n bank id x y = poll-Loop S C _ _ n tt x y (ok tt)

  pub wait_for_operation-Completed :
      (n : ℕ) (bank id : Text) (x y : E)
      → wait_for_operation S C n bank id x ≡ (ok (some tt), y)
      → Completed bank id y
  wait_for_operation-Completed n bank id x y h =
      Loop-Completed bank id (wait_for_operation-Loop n bank id x y h) refl

  is_in_flight-cases :
      (s : Text) → is_in_flight s ≡ true → (s ≡ lit "pending") ⊎ (s ≡ lit "processing")
  unfolding is_in_flight
  is_in_flight-cases s h = elim (Bool-cases (text_eq s (lit "pending"))) [
    | inl e ↦ inl ((text_eq_iff s (lit "pending")).0 e)
    | inr e ↦ inr ((text_eq_iff s (lit "processing")).0 (sym (rw e refl) ∙ h))
  ]

  in_flight-again :
      (id : Text) (op : OperationResponse)
      → is_in_flight op.status ≡ true
      → operation_verdict id tt (ok op) ≡ again tt
  unfolding operation_verdict has_failed text_eq lit
  in_flight-again id op h = elim (is_in_flight-cases op.status h) [
    | inl e ↦ rw e refl
    | inr e ↦ rw e refl
  ]

  module _ (patient : (x : E) → (S.select x).0 ≡ none) (bank id : Text)
      (unfinished : (x : E)
        → (op : OperationResponse) × ((get_operation S C bank id x).0 ≡ ok op)
          × (is_in_flight op.status ≡ true)) where
    -- While an operation stays pending or processing, and the context is never done,
    -- `waitForOperation` does not return: no number of rounds is enough.
    pub wait_for_operation-stuck :
        (n : ℕ) (x : E) → (wait_for_operation S C n bank id x).0 ≡ ok none
    unfolding wait_for_operation poll pure observe ◌>>=◌
    wait_for_operation-stuck zero x = refl
    wait_for_operation-stuck (suc n) x =
        rw (poll, (unfinished x).1, in_flight-again id (unfinished x).0 (unfinished x).2, patient)
          (wait_for_operation-stuck n _)
