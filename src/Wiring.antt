-- ===== src/Wiring.antt =====
-- cmd/api/main.go: how the program is put together, started and shut down.
pub mod Ready
pub mod Missing
pub mod Bounded
use superkb.Base.{ℕ, ◌++◌, Option, none, some, true, length}
use superkb.Base.Int.{ℤ}
use superkb.Base.Text.{Text, lit}
use superkb.Config.{Config, Environment, HttpConfig, AuthConfig, load}
use superkb.Domain.Errors.{Error, Result, annotated}
use superkb.Exec.{Exec, pure, fail, lift, observe, annotate, attempt, ◌>>=◌, ◌>>◌}
use superkb.Infra.Hindsight.{Indexer, Services, new_indexer}
use superkb.Infra.Hindsight.Calls as Client
use superkb.Infra.Pages.{extract_pages_with}
use superkb.Infra.Storage.{Sdk, Storage, new_storage, ensure_bucket}
use superkb.Infra.Storage as Bucket
use superkb.Infra.Vision.{Vision, Tools, new_vision}
use superkb.Infra.Vision.Rasterizing.{finally}
use superkb.Infra.Vision.Converting.{convert}
use superkb.Postgres.Pool.{Pgx, new_pool, migrate}
use superkb.Usecase.Parts.{new_document_use_case, new_knowledge_base_use_case, with_converter}
use superkb.Usecase.Queue.{new_channel_build_queue}
use superkb.Usecase.Worker.{worker_count}
use superkb.World.{BuildQueue, ObjectStorage, RagIndexer, TextExtractor, DocumentConverter, Ports}

-- the parts that `run` constructs
pub record App : Type 0 where
  pub http : HttpConfig
  pub auth : AuthConfig
  pub public_base_url : Text
  pub storage : Storage
  pub indexer : Indexer
  -- none if OCR is disabled
  pub vision : Option Vision
  pub queue : BuildQueue
  pub workers : ℕ

-- the constructors of the parts, on the configuration
unfoldable pub assemble : Config → Storage → App
assemble cfg storage = record {
  http = cfg.http;
  auth = cfg.auth;
  public_base_url = cfg.s3.public_base_url;
  storage = storage;
  indexer = new_indexer cfg.hindsight;
  vision = new_vision cfg.vision_ocr;
  queue = new_channel_build_queue cfg.worker.queue_size;
  workers = worker_count cfg.worker.concurrency;
}

-- why the `select` at the end of `run` goes on
pub data Ending : Type 0 where
  server_error : Error → Ending
  signalled : Ending

-- net/http's server, the signals and the scheduler, which lets the goroutines of the workers make
-- the steps of Usecase.Crew
pub record Process (E : Type 0) : Type 0 where
  pub pgx : Pgx E
  pub sdk : Sdk E
  -- `worker.Start` with what its goroutines do from then on, and `ListenAndServe` in its goroutine
  pub start_workers : App → E → E
  pub listen : App → E → E
  -- the error of the server, or a signal, whichever comes first
  pub await_ending : E → Ending × E
  -- `srv.Shutdown`, with its deadline of 10 seconds
  pub shutdown : E → Result (Unit {0}) × E
  pub stop_workers : E → E
  pub wait_for_workers : E → E

module _ {E : Type 0} (R : Process E) where
  abbrev pub done : (E → E) → Exec E (Unit {0})
  done f x = pure tt (f x)

  -- the cases of the `select`: after a signal the workers are stopped and waited for before the
  -- error of `Shutdown` is returned
  abbrev pub end : Ending → Exec E (Unit {0})
  end (server_error e) = fail (annotated (lit "server error") e)
  end signalled = finally (λ x. R.wait_for_workers (R.stop_workers x)) R.shutdown

  -- `run` once its parts are constructed
  unfoldable pub serve : App → Exec E (Unit {0})
  serve app =
      finally R.stop_workers
        (done (R.start_workers app) >> done (R.listen app) >> (observe R.await_ending >>= end))

  -- `run` with the pool open
  unfoldable pub run_with : Config → ℕ → Exec E (Unit {0})
  run_with cfg pool =
      migrate R.pgx pool
      >> (new_storage R.sdk cfg.s3 >>= λ storage.
          attempt (ensure_bucket R.sdk storage) >> serve (assemble cfg storage))

  -- `run`
  unfoldable pub run : Environment → Exec E (Unit {0})
  run e = annotate (lit "load config") (lift (load e)) >>= λ cfg.
      new_pool R.pgx cfg.postgres.dsn >>= λ pool. finally (R.pgx.close pool) (run_with cfg pool)

  module _ (P : Ports E) (S : Services E) (T : Tools E) (pdftotext : Text → Result Text × Text)
      (app : App) where
    abbrev pub converter_of : Option Vision → Option (DocumentConverter E)
    converter_of none = none
    converter_of (some V) = some (convert T V)

    -- the object storage and the indexer as the use cases call them
    abbrev pub bucket : ObjectStorage E
    bucket = record {
      put = Bucket.put R.sdk app.storage;
      get = Bucket.get R.sdk app.storage;
      delete = Bucket.delete R.sdk app.storage;
    }

    -- `retain` is left as it is: its loops may go on for ever
    abbrev client : RagIndexer E
    client = record P.indexer {
      create_bank = Client.create_bank S app.indexer;
      recall = Client.recall S app.indexer;
      retain_memories = Client.retain_memories S app.indexer;
      curate_memory = Client.curate_memory S app.indexer;
      delete_bank = Client.delete_bank S app.indexer;
    }

    abbrev extractor : TextExtractor E
    extractor content content_type x = (extract_pages_with pdftotext content content_type, x)

    -- `docUC`
    unfoldable pub wired_documents : Ports E
    unfolding new_document_use_case
    wired_documents = new_document_use_case P bucket (some extractor) app.public_base_url

    -- `kbUC`
    unfoldable pub wired : Ports E
    unfolding new_knowledge_base_use_case with_converter
    wired =
        with_converter (converter_of app.vision)
          (new_knowledge_base_use_case P true bucket client (some extractor) app.public_base_url)
