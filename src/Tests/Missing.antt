-- ===== src/Tests/Missing.antt =====
-- A bucket that has no objects.
use superkb.Base.{ℕ, ◌≡◌, refl, true, [], ◌∷◌, find_where}
use superkb.Base.Text.{lit}
use superkb.Delivery.Documents.{show_source}
use superkb.Delivery.Response.{write_error}
use superkb.Domain.Errors.{Error, ok, err, opaque, sentinel, not_found, annotated, error_text}
use superkb.Infra.Storage.{Sdk}
use superkb.Postgres.Pool.{Pgx}
use superkb.Postgres.Tables.{find_document}
use superkb.Tests.Client.{stalled}
use superkb.Tests.Converter.{tools}
use superkb.Tests.Fixtures.{counter, counter-Answers, paper, served_world}
use superkb.Tests.Settings.{settings}
use superkb.Wiring.{App, Process, signalled, assemble}
use superkb.Wiring.Missing.{documents, show_source-missing}

abbrev no_such_key : Error
no_such_key = opaque (lit "NoSuchKey")

abbrev empty_bucket : Sdk ℕ
empty_bucket = record {
  load_client = λ o n. (ok 1, n);
  put_object = λ c i n. (ok tt, n);
  get_object = λ c b key n. (err no_such_key, n);
  delete_object = λ c b key n. (ok tt, n);
  head_bucket = λ c b n. (ok tt, n);
  create_bucket = λ c b n. (ok tt, n);
  is_no_such_key = λ e. true;
  quoted = λ s. s;
}

abbrev database : Pgx ℕ
database = record {
  cpus = 4;
  parse_config = λ dsn. err no_such_key;
  new_with_config = λ cfg n. (ok 1, n);
  ping = λ pool n. (ok tt, n);
  close = λ pool n. n;
  exec_schema = λ pool n. (ok tt, n);
}

abbrev pub process : Process ℕ
process = record {
  pgx = database;
  sdk = empty_bucket;
  start_workers = λ app n. n;
  listen = λ app n. n;
  await_ending = λ n. (signalled, n);
  shutdown = λ n. (ok tt, n);
  stop_workers = λ n. n;
  wait_for_workers = λ n. n;
}

abbrev pub app : App
app = assemble settings (record { client = 1; bucket = lit "superkb" })

show_source-missing_example :
    (show_source
      (documents process counter stalled tools (λ s. (ok [], [])) app)
      (7 ∷ [])
      served_world).0
    ≡ write_error 404 (error_text (annotated (lit "source: fetch content") (sentinel not_found)))
show_source-missing_example =
    show_source-missing process counter stalled tools (λ s. (ok [], [])) app counter-Answers paper
      served_world no_such_key (7 ∷ []) refl (unfold find_document find_where in refl) (λ x. refl)
      refl
