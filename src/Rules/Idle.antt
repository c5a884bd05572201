-- ===== src/Rules/Idle.antt =====
-- infra/hindsight/indexer.go: what `waitForBankIdle` has seen when it returns.
use superkb.Base.{
  ℕ, zero, suc, ◌≡◌, ◌⊎◌, inl, inr, arith, refl, sym, ap, ◌∙◌, subst, none, some, List,
}
use superkb.Base.Text.{Text}
use superkb.Domain.Errors.{Result, ok, err}
use superkb.Exec.{pure}
use superkb.Infra.Hindsight.{Indexer, Services}
use superkb.Infra.Hindsight.Retaining.{concluded, poll, get_operations, wait_for_bank_idle}
use superkb.Infra.Operations.{
  OperationResponse, Verdict, stop, again, counted, idle_verdict, in_flight,
}
use superkb.Rules.Polling.{
  Loop, returned, interrupted, continued, poll-Loop, poll_step, select_step,
}

state_or : {St : Type 0} → St → Verdict St → St
state_or default (stop r) = default
state_or default (again s) = s

again_inj : (a b : ℕ) → again a ≡ again b → a ≡ b
unfolding state_or
again_inj a b h = ap (state_or 0) h

module _ {E : Type 0} (S : Services E) (C : Indexer) where
  -- a request from `x` to `y` found no operation of the bank in flight, and none that failed
  pub record IsIdle (bank : Text) (x y : E) : Type 0 where
    pub operations : List OperationResponse
    pub replied : get_operations S C bank x ≡ (ok operations, y)
    pub none_left : in_flight operations ≡ ok 0

  -- Two requests, one after the timer that follows the other, found the bank idle; the second left `y`.
  pub record TwoIdle (bank : Text) (y : E) : Type 0 where
    pub first_at : E
    pub left_at : E
    pub second_at : E
    pub first : IsIdle bank first_at left_at
    pub waited : S.select left_at ≡ (none, second_at)
    pub second : IsIdle bank second_at y

  -- what a streak of idle rounds needs to end well
  Streak : Text → ℕ → E → E → Type 0
  Streak bank zero x y = TwoIdle bank y
  Streak bank (suc n) x y = IsIdle bank x y ⊎ TwoIdle bank y

  counted-Streak :
      (bank : Text) (streak : ℕ) (ops : List OperationResponse) (x y : E) (count : Result ℕ)
      → get_operations S C bank x ≡ (ok ops, y)
      → in_flight ops ≡ count
      → counted streak count ≡ stop (ok tt)
      → Streak bank streak x y
  unfolding Streak
  counted-Streak bank zero ops x y (ok zero) replied c h = cc
  counted-Streak bank (suc n) ops x y (ok zero) replied c h =
      inl (record { operations = ops; replied = replied; none_left = c })
  counted-Streak bank streak ops x y (ok (suc n)) replied c h = cc
  counted-Streak bank streak ops x y (err e) replied c h = cc

  idle_verdict-Streak :
      (bank : Text) (streak : ℕ) (reply : Result (List OperationResponse)) (x y : E)
      → get_operations S C bank x ≡ (reply, y)
      → idle_verdict streak reply ≡ stop (ok tt)
      → Streak bank streak x y
  unfolding idle_verdict
  idle_verdict-Streak bank streak (err e) x y replied h = cc
  idle_verdict-Streak bank streak (ok ops) x y replied h =
      counted-Streak bank streak ops x y (in_flight ops) replied refl h

  counted_long : (n : ℕ) → counted (suc n) (ok 0) ≡ stop (ok tt)
  counted_long n = ground arith

  stop-again : (r : Result (Unit {0})) (s : ℕ) → ¬ (stop r ≡ again s)
  stop-again r s h = cc

  -- a state that the loop goes on with is that of a new streak, or follows an idle round
  counted_again :
      (streak s : ℕ) (count : Result ℕ)
      → counted streak count ≡ again s
      → (0 ≡ s) ⊎ ((count ≡ ok 0) × (1 ≡ s))
  counted_again zero s (ok zero) h = inr (refl, again_inj 1 s h)
  counted_again (suc n) s (ok zero) h = absurd (stop-again (ok tt) s (sym (counted_long n) ∙ h))
  counted_again streak s (ok (suc n)) h = inl (again_inj 0 s h)
  counted_again streak s (err e) h = cc

  idle_verdict_again :
      (streak s : ℕ) (reply : Result (List OperationResponse))
      → idle_verdict streak reply ≡ again s
      → (0 ≡ s)
        ⊎ ((ops : List OperationResponse) × (reply ≡ ok ops) × (in_flight ops ≡ ok 0) × (1 ≡ s))
  unfolding idle_verdict
  idle_verdict_again streak s (err e) h = cc
  idle_verdict_again streak s (ok ops) h = elim (counted_again streak s (in_flight ops) h) [
    | inl new ↦ inl new
    | inr idle ↦ inr (ops, refl, idle.0, idle.1)
  ]

  TwoIdle-Streak : (bank : Text) (streak : ℕ) (x y : E) → TwoIdle bank y → Streak bank streak x y
  unfolding Streak
  TwoIdle-Streak bank zero x y h = h
  TwoIdle-Streak bank (suc n) x y h = inr h

  -- two idle rounds, or one behind which there are two
  Streak-follows :
      (bank : Text) (x y z v : E)
      → IsIdle bank x y
      → S.select y ≡ (none, z)
      → Streak bank 1 z v
      → TwoIdle bank v
  unfolding Streak
  Streak-follows bank x y z v idle waited (inl next) = record {
    first_at = x;
    left_at = y;
    second_at = z;
    first = idle;
    waited = waited;
    second = next;
  }
  Streak-follows bank x y z v idle waited (inr others) = others

  Streak-again :
      (bank : Text) (streak s : ℕ) (reply : Result (List OperationResponse)) (x y z v : E)
      → get_operations S C bank x ≡ (reply, y)
      → idle_verdict streak reply ≡ again s
      → S.select y ≡ (none, z)
      → Streak bank s z v
      → Streak bank streak x v
  unfolding Streak
  Streak-again bank streak s reply x y z v replied judged selected rest =
      elim (idle_verdict_again streak s reply judged) [
        | inl new ↦ TwoIdle-Streak bank streak x v (subst (λ s. Streak bank s z v) (sym new) rest)
        | inr (ops, same, none_left, next) ↦ TwoIdle-Streak bank streak x v (
            Streak-follows bank x y z v
              (record {
                operations = ops;
                replied = replied ∙ ap (λ r. (r, y)) same;
                none_left = none_left;
              })
              selected (subst (λ s. Streak bank s z v) (sym next) rest))
      ]

  Loop-Streak :
      (bank : Text) {streak : ℕ} {x y : E} {r : Result (Unit {0})}
      → Loop S C (get_operations S C bank) idle_verdict streak x r y
      → r ≡ ok tt
      → Streak bank streak x y
  Loop-Streak bank (returned {st} {x} {y} {reply} {r} replied judged) e =
      idle_verdict-Streak bank st reply x y replied (judged ∙ ap stop e)
  Loop-Streak bank (interrupted replied judged selected) e = cc
  Loop-Streak bank (continued {st} {st'} {x} {y} {z} {v} {reply} replied judged selected rest) e =
      Streak-again bank st st' reply x y z v replied judged selected (Loop-Streak bank rest e)

  pub wait_for_bank_idle-Loop :
      (n : ℕ) (bank : Text) (x y : E)
      → wait_for_bank_idle S C n bank x ≡ (ok (some tt), y)
      → Loop S C (get_operations S C bank) idle_verdict 0 x (ok tt) y
  unfolding wait_for_bank_idle
  wait_for_bank_idle-Loop n bank x y = poll-Loop S C _ _ n 0 x y (ok tt)

  -- When `waitForBankIdle` returns without an error, the last two of its requests, the second made
  -- when the timer behind the first had fired, found no operation of the bank in flight and none
  -- that had failed.
  pub wait_for_bank_idle-TwoIdle :
      (n : ℕ) (bank : Text) (x y : E)
      → wait_for_bank_idle S C n bank x ≡ (ok (some tt), y)
      → TwoIdle bank y
  unfolding Streak
  wait_for_bank_idle-TwoIdle n bank x y h =
      Loop-Streak bank (wait_for_bank_idle-Loop n bank x y h) refl

  idle_verdict-IsIdle :
      (bank : Text) (streak : ℕ) (ops : List OperationResponse)
      → in_flight ops ≡ ok 0
      → idle_verdict streak (ok ops) ≡ counted streak (ok 0)
  unfolding idle_verdict
  idle_verdict-IsIdle bank streak ops idle = rw idle refl

  round-idle :
      (bank : Text) (n streak : ℕ) (x y : E)
      → IsIdle bank x y
      → poll S C (get_operations S C bank) idle_verdict (suc n) streak x
        ≡ concluded S C
            (counted streak (ok 0))
            (poll S C (get_operations S C bank) idle_verdict n)
            y
  round-idle bank n streak x y idle =
      poll_step S C _ _ n streak x y (ok idle.operations) _ idle.replied
        (idle_verdict-IsIdle bank streak idle.operations idle.none_left)

  second_round-idle :
      (bank : Text) (n streak : ℕ) (x y : E)
      → IsIdle bank x y
      → (poll S C (get_operations S C bank) idle_verdict (suc n) (suc streak) x).0 ≡ ok (some tt)
  unfolding pure
  second_round-idle bank n streak x y idle =
      rw (round-idle bank n (suc streak) x y idle, counted_long streak) refl

  -- From any streak on, `waitForBankIdle` returns without an error by the second of two requests
  -- that find the bank idle, if the context is not done between them.
  pub wait_for_bank_idle-ends :
      (bank : Text) (n streak : ℕ) (x y z v : E)
      → IsIdle bank x y
      → S.select y ≡ (none, z)
      → IsIdle bank z v
      → (poll S C (get_operations S C bank) idle_verdict (suc (suc n)) streak x).0 ≡ ok (some tt)
  wait_for_bank_idle-ends bank n zero x y z v first waited second =
      rw
        (
          round-idle bank (suc n) 0 x y first,
          select_step S C (get_operations S C bank) idle_verdict 1
              (poll S C (get_operations S C bank) idle_verdict (suc n)) y z none waited,
        )
        (second_round-idle bank n 0 z v second)
  wait_for_bank_idle-ends bank n (suc streak) x y z v first waited second =
      second_round-idle bank (suc n) streak x y first
