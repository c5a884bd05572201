-- ===== src/Infra/Operations.antt =====
-- infra/hindsight/indexer.go: the polling of operations, what the rounds of `waitForOperation` and `waitForBankIdle` decide.
use superkb.Base.{ℕ, zero, suc, Bool, ◌||◌, List, [], ◌∷◌, ◌++◌, is_nil, if◌then◌else◌, leb}
use superkb.Base.Text.{Text, lit, text_eq}
use superkb.Domain.Errors.{Error, Result, ok, err, opaque, annotated}

pub record OperationResponse : Type 0 where
  pub status : Text
  pub error_message : Text

-- `status == "failed" || status == "cancelled"`
unfoldable pub has_failed : Text → Bool
has_failed s = text_eq s (lit "failed") || text_eq s (lit "cancelled")

-- `status == "pending" || status == "processing"`
unfoldable pub is_in_flight : Text → Bool
is_in_flight s = text_eq s (lit "pending") || text_eq s (lit "processing")

-- the error of an operation that has failed
abbrev pub failure : Text → OperationResponse → Error
failure before op = opaque (
    before ++ (op.status ++ (if is_nil op.error_message then [] else lit ": " ++ op.error_message)))

-- the loop over the operations of a reply: how many are in flight, or the first failure
unfoldable pub in_flight : List OperationResponse → Result ℕ
in_flight [] = ok 0
in_flight (op ∷ ops) =
    let rest = in_flight ops in
    if is_in_flight op.status
    then (elim rest [ ok n ↦ ok (suc n) | err e ↦ err e ])
    else if has_failed op.status
    then err (failure (lit "bank operation ") op)
    else rest

-- what a round of a polling loop decides: to return, or to go on with a state
pub data Verdict (St : Type 0) : Type 0 where
  stop : Result (Unit {0}) → Verdict St
  again : St → Verdict St

-- a round of `waitForBankIdle` that has counted the operations in flight
abbrev pub counted : ℕ → Result ℕ → Verdict ℕ
counted streak (err e) = stop (err e)
counted streak (ok zero) = if leb 2 (suc streak) then stop (ok tt) else again (suc streak)
counted streak (ok (suc n)) = again 0

-- a round of `waitForBankIdle`, which has seen a streak of idle rounds
unfoldable pub idle_verdict : ℕ → Result (List OperationResponse) → Verdict ℕ
idle_verdict streak (err e) = stop (err (annotated (lit "poll bank operations") e))
idle_verdict streak (ok ops) = counted streak (in_flight ops)

-- a round of `waitForOperation`
unfoldable pub operation_verdict : Text → Unit {0} → Result OperationResponse → Verdict (Unit {0})
operation_verdict id _ (err e) = stop (err (annotated (lit "poll operation " ++ id) e))
operation_verdict id _ (ok op) =
    if text_eq op.status (lit "completed")
    then stop (ok tt)
    else if has_failed op.status
    then stop (err (failure (lit "retain operation " ++ (id ++ lit " ")) op))
    else if text_eq op.status (lit "not_found")
    then stop (err (opaque (lit "retain operation " ++ (id ++ lit " not found"))))
    else again tt
