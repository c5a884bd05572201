-- ===== src/Infra/Hindsight/Retaining.antt =====
-- infra/hindsight/indexer.go: `Retain`, with its form and its polling of operations.
use superkb.Base.{ℕ, zero, suc, Option, none, some, List, [], ◌∷◌, ◌++◌, is_nil, map, if◌then◌else◌}
use superkb.Base.Text.{Text, lit}
use superkb.Domain.Errors.{Error, Result, ok, err, annotated}
use superkb.Domain.Rag.{RagDocument}
use superkb.Exec.{Exec, pure, fail, lift, observe, annotate, ◌>>=◌, ◌>>◌}
use superkb.Infra.Hindsight.Messages.{RetainResponse, files_metadata, file_metadata, form_file}
use superkb.Infra.Http.{Part, field}
use superkb.Infra.Operations.{
  OperationResponse, Verdict, stop, again, idle_verdict, operation_verdict,
}
use superkb.Infra.Hindsight.{Indexer, Services, path, send_plain, send_form}

module _ {E : Type 0} (S : Services E) (C : Indexer) where
  abbrev pub or_fault : Text → Option Error → Exec E (Unit {0})
  or_fault before none = pure tt
  or_fault before (some e) = fail (annotated before e)

  -- the files of the form, one for each document
  unfoldable pub write_files : List RagDocument → Exec E (List Part)
  write_files [] = pure []
  write_files (d ∷ ds) =
      or_fault (lit "hindsight: multipart file") (S.part_fault (form_file d))
      >> or_fault (lit "hindsight: write file") (S.content_fault (form_file d))
      >> (write_files ds >>= λ parts. pure (form_file d ∷ parts))

  -- the form of `Retain`: the files, and the field `request` with their metadata
  unfoldable pub write_form : List RagDocument → Exec E (List Part)
  write_form docs = write_files docs >>= λ files.
      annotate (lit "hindsight: marshal file request")
        (lift (S.marshal (files_metadata (map file_metadata docs))))
      >>= λ text.
          or_fault (lit "hindsight: multipart request field")
            (S.part_fault (field (lit "request") text))
          >> (or_fault (lit "hindsight: close multipart") S.close_fault
              >> pure (files ++ (field (lit "request") text ∷ [])))

  abbrev pub interrupted_or : Option Error → Exec E (Option (Unit {0})) → Exec E (Option (Unit {0}))
  interrupted_or none m = m
  interrupted_or (some e) m = fail e

  abbrev pub concluded :
      {St : Type 0} → Verdict St → (St → Exec E (Option (Unit {0}))) → Exec E (Option (Unit {0}))
  concluded (stop (ok _)) go_on = pure (some tt)
  concluded (stop (err e)) go_on = fail e
  concluded (again st) go_on = observe S.select >>= λ c. interrupted_or c (go_on st)

  -- A polling loop: each round makes the request and judges its reply. The first argument bounds
  -- the rounds; the value is nothing if the loop would go on behind them.
  unfoldable pub poll :
      {A St : Type 0}
      → Exec E A
      → (St → Result A → Verdict St)
      → ℕ
      → St
      → Exec E (Option (Unit {0}))
  poll request judge zero st x = pure none x
  poll request judge (suc n) st x =
      let (reply, y) = request x in concluded (judge st reply) (poll request judge n) y

  -- the request of a round of `waitForOperation`
  abbrev pub get_operation : Text → Text → Exec E OperationResponse
  get_operation bank id =
      send_plain S C (lit "GET") (path C (bank ∷ lit "operations" ∷ id ∷ [])) S.decode_operation

  -- the request of a round of `waitForBankIdle`
  abbrev pub get_operations : Text → Exec E (List OperationResponse)
  get_operations bank =
      send_plain S C (lit "GET") (path C (bank ∷ lit "operations" ∷ []) ++ lit "?limit=100")
        S.decode_operations

  -- `waitForOperation`
  unfoldable pub wait_for_operation : ℕ → Text → Text → Exec E (Option (Unit {0}))
  wait_for_operation n bank id = poll (get_operation bank id) (operation_verdict id) n tt

  -- `waitForBankIdle`
  unfoldable pub wait_for_bank_idle : ℕ → Text → Exec E (Option (Unit {0}))
  wait_for_bank_idle n bank = poll (get_operations bank) idle_verdict n 0

  -- the ids of the operations of a reply
  abbrev pub operation_ids_of : RetainResponse → List Text
  operation_ids_of resp =
      if is_nil resp.operation_ids
      then (if is_nil resp.operation_id then [] else resp.operation_id ∷ [])
      else resp.operation_ids

  -- what follows a loop that has come to its end
  abbrev pub once_done : Exec E (Option (Unit {0})) → Option (Unit {0}) → Exec E (Option (Unit {0}))
  once_done m none = pure none
  once_done m (some _) = m

  -- the loop of `Retain` over the operations
  unfoldable pub await_operations : ℕ → Text → List Text → Exec E (Option (Unit {0}))
  await_operations n bank [] = pure (some tt)
  await_operations n bank (id ∷ ids) =
      wait_for_operation n bank id >>= once_done (await_operations n bank ids)

  -- `Retain`, behind its test for no documents
  unfoldable pub retain_some : ℕ → Text → List RagDocument → Exec E (Option (Unit {0}))
  retain_some n bank docs = write_form docs >>= λ parts.
      observe S.form_content_type >>= λ content_type.
      send_form S C (path C (bank ∷ lit "files" ∷ lit "retain" ∷ [])) content_type parts >>= λ resp.
      await_operations n bank (operation_ids_of resp) >>= once_done (wait_for_bank_idle n bank)

  -- `Retain`, each of whose polling loops may make `n` rounds
  unfoldable pub retain : ℕ → Text → List RagDocument → Exec E (Option (Unit {0}))
  retain n bank docs = if is_nil docs then pure (some tt) else retain_some n bank docs
