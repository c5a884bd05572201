-- ===== src/Tests/Client.antt =====
-- The client of the indexer, against a server that works on an operation for one request and has
-- completed it afterwards. Its state counts the requests.
use superkb.Base.{ℕ, ◌+◌, ◌≡◌, ◌≤◌, refl, none, some, [], ◌∷◌, arith, true, if◌then◌else◌, ltb}
use mathlib.Core.List.{cons-ne-nil}
use superkb.Base.Text.{Text, lit, text_eq}
use superkb.Domain.Errors.{ok, err, opaque}
use superkb.Domain.Rag.{RagDocument}
use superkb.Exec.{pure, fail, lift, observe, annotate, ◌>>=◌}
use superkb.Infra.Http.{Request, Transport, is_refusal}
use superkb.Infra.Hindsight.{
  Indexer, Services, answered, exchange, send_plain, send_form, plain_request,
}
use superkb.Infra.Hindsight.Retaining.{
  write_files, write_form, poll, get_operation, get_operations, wait_for_operation,
  wait_for_bank_idle, await_operations, retain_some, retain,
}
use superkb.Infra.Operations.{
  OperationResponse, in_flight, is_in_flight, has_failed, idle_verdict, operation_verdict,
}
use superkb.Rules.Exchange.{Accepted, exchange-Accepted}
use superkb.Rules.Waiting.{wait_for_operation-stuck}
use superkb.Rules.Idle.{IsIdle, TwoIdle, wait_for_bank_idle-TwoIdle, wait_for_bank_idle-ends}
use superkb.Rules.Retaining.{Retained, retain-Retained}

abbrev transport : Transport ℕ
transport = record {
  request_fault = λ method url. none;
  send = λ req n. (ok (record { status = 200; body = n }), n + 1);
  read_limited = λ limit body n. ([], n);
}

abbrev operation : Text → OperationResponse
operation status = record { status = status; error_message = [] }

-- The status of every operation is given for each request.
abbrev services_at : (ℕ → Text) → Services ℕ
services_at status = record {
  transport = transport;
  marshal = λ payload. ok (lit "{}");
  decode_retain = λ body n. (ok (record { operation_id = lit "op"; operation_ids = [] }), n);
  decode_operation = λ body n. (ok (operation (status body)), n);
  decode_operations = λ body n. (ok (operation (status body) ∷ []), n);
  decode_memories =
      λ body n. (ok (record { success = true; bank_id = []; items_count = 0; async = true }), n);
  decode_memory = λ body n. (err (opaque []), n);
  decode_recall = λ body n. (ok (record { results = []; chunks = [] }), n);
  form_content_type = λ n. (lit "multipart/form-data", n);
  part_fault = λ part. none;
  content_fault = λ part. none;
  close_fault = none;
  select = λ n. (none, n);
}

-- completed from the given request on, or never
abbrev services : ℕ → Services ℕ
services k = services_at (λ n. if ltb n k then lit "processing" else lit "completed")

abbrev pub stalled : Services ℕ
stalled = services_at (λ n. lit "processing")

abbrev client : Indexer
client = record { base_url = lit "http://i"; api_key = lit "k"; profile = lit "default" }

abbrev leaflet : RagDocument
leaflet = record {
  document_id = lit "7";
  title = lit "Leaflet";
  filename = [];
  content = lit "text";
  metadata = [];
}

-- one request for the form, two for the operation, two for the bank
retained : retain (services 2) client 9 (lit "b") (leaflet ∷ []) 0 ≡ (ok (some tt), 5)
unfolding retain retain_some write_form write_files send_form exchange answered is_refusal
    await_operations wait_for_operation wait_for_bank_idle poll send_plain operation_verdict
    idle_verdict in_flight is_in_flight has_failed pure fail lift observe annotate ◌>>=◌ text_eq lit
retained = refl

retain-Retained_example : Retained (services 2) client (lit "b") (leaflet ∷ []) 0 5
retain-Retained_example =
    retain-Retained (services 2) client 9 (lit "b") (leaflet ∷ []) 0 5 (cons-ne-nil leaflet [])
      retained

waited : wait_for_bank_idle (services 2) client 9 (lit "b") 0 ≡ (ok (some tt), 4)
unfolding wait_for_bank_idle exchange answered is_refusal poll send_plain idle_verdict in_flight
    is_in_flight has_failed pure fail lift observe annotate ◌>>=◌ text_eq lit
waited = refl

wait_for_bank_idle-TwoIdle_example : TwoIdle (services 2) client (lit "b") 4
wait_for_bank_idle-TwoIdle_example =
    wait_for_bank_idle-TwoIdle (services 2) client 9 (lit "b") 0 4 waited

completed-IsIdle : (x : ℕ) → 2 ≤ x → IsIdle (services 2) client (lit "b") x (x + 1)
unfolding exchange answered is_refusal send_plain in_flight is_in_flight has_failed pure fail lift
    observe annotate ◌>>=◌ text_eq lit
completed-IsIdle x h = record {
  operations = operation (lit "completed") ∷ [];
  replied = ground arith;
  none_left = refl;
}

wait_for_bank_idle-ends_example :
    (poll (services 2) client (get_operations (services 2) client (lit "b")) idle_verdict 2 0 2).0
    ≡ ok (some tt)
wait_for_bank_idle-ends_example =
    wait_for_bank_idle-ends (services 2) client (lit "b") 0 0 2 3 3 4
      (completed-IsIdle 2 (omega arith)) refl (completed-IsIdle 3 (omega arith))

stalled-unfinished :
    (x : ℕ)
    → (op : OperationResponse) × ((get_operation stalled client (lit "b") (lit "op") x).0 ≡ ok op)
      × (is_in_flight op.status ≡ true)
unfolding exchange answered is_refusal send_plain is_in_flight pure fail lift observe annotate ◌>>=◌
    text_eq lit
stalled-unfinished x = (operation (lit "processing"), refl, refl)

wait_for_operation-stuck_example :
    (wait_for_operation stalled client 1000 (lit "b") (lit "op") 0).0 ≡ ok none
wait_for_operation-stuck_example =
    wait_for_operation-stuck stalled client (λ x. refl) (lit "b") (lit "op") stalled-unfinished 1000
      0

abbrev probe : Request
probe =
    plain_request (services 2) client (lit "GET") (lit "http://i/v1/default/banks/b/operations/op")

replied :
    exchange (services 2) client (services 2).decode_operation probe 2
    ≡ (ok (operation (lit "completed")), 3)
unfolding exchange answered is_refusal pure fail lift observe annotate ◌>>=◌ text_eq lit
replied = refl

exchange-Accepted_example :
    (transport.request_fault probe.method probe.url ≡ none)
    × Accepted
        (services 2)
        client
        (services 2).decode_operation
        probe
        (operation (lit "completed"))
        2
        3
exchange-Accepted_example =
    exchange-Accepted (services 2) client (services 2).decode_operation probe
      (operation (lit "completed")) 2 3 replied
