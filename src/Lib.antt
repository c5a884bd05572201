-- ===== src/Lib.antt =====
-- superkb keeps documents, groups them into knowledge bases, indexes a knowledge base in
-- builds, each in a bank of its own, and searches the build that is enabled. This library models
-- its core, and proves the results listed at the end.
--
-- The parts, and where they are modelled:
--   Domain (internal/domain): the entities, their statuses and validation, the sentinel errors and
--     what `errors.Is` and `Error()` make of an error that is wrapped. A UUID and a time are numbers
--     (a time in nanoseconds, of which a column keeps what the port `column_time` says), a Go string
--     is a list of bytes.
--   Postgres (internal/infra/postgres): the tables of the schema in pool.go as one record `Db`, the
--     row changes of the statements with their primary keys, foreign keys and cascades, and the
--     methods of the three repositories, which run statements and name their errors.
--   Usecase (internal/usecase): `DocumentUseCase` and `KnowledgeBaseUseCase`, one definition for
--     each method, split where the code returns early, with their constructors (Parts); the build
--     queue, the worker, its goroutines as a step relation (Crew), the references of search results.
--   Delivery (internal/delivery/http): the responses, the status of an error, the
--     authentication, the bodies of the responses (Views), every handler, and the routes (Api). A
--     request is its parameters as they stand in the URL with its body as it is decoded.
--   Config (internal/config): the environment as a function of names, the readers of its variables,
--     and `Load`.
--   Infra (internal/infra/hindsight, extract, ocr, s3store): the client of the indexer with its
--     polling loops (Operations, Recall, Hindsight), pages of text (Pages), the converter that reads
--     scanned documents (Vision), object storage (Storage). HTTP, the encoders, the programs and the
--     SDK that they call are parameters.
--   Wiring (cmd/api/main.go): the parts that `run` constructs, its deferred calls and its end, and
--     the ports of the use cases as it wires them.
--   World: what the use cases act on, the tables, the queue and an outside world of any type `E`.
--     `Ports` holds the functions for code that is not in the repository or is only called through a
--     port: object storage, the indexer, the extractor and the converter, UUIDs, the clock, whether a
--     statement fails, and the context of a request. Any call may fail, at any time.
--   Exec: methods as functions of the world that return a value or an error, and the world.
--     What was written before an error stays written. (Successes, Returns: what a returned value
--     tells of the calls before it.)
--
-- The proofs:
--   Lifecycle: the abstract specification of the tables, a step relation (Steps); triples for
--     methods over it (Ends, Runs, Guarded, Statements, Frames) and a file for each use case;
--     operations one after another (History, Searches); sequences of steps (Invariant, Schema, Snapshot,
--     Votes, Reviewers, Corrections); single operations (Outcomes, Cascades); requests of the HTTP
--     API (Handlers, Api).
--   Healthy: what the operations return where the database answers, from single statements
--     (Statements, Totals) over single operations (Building, Failing, Content, Uploads, Joining,
--     Serving, Search, FullQueue) to the builds of a queue (Draining) and to a build from its request to the
--     search that it serves (Journey).
--   Rules: paging, page numbers, the queue and its workers (Queue, Quiet, Draining, Crew),
--     references, HTTP and the contract of its API (Http, Contract, Answering), the client of the
--     indexer (Polling, Waiting, Idle, Retaining, Exchange, Indexer), scanned documents (Vision,
--     Rendering), the content that is stored (Content).
--   Config.Loading, Config.RoundTrip, Config.Guarding and Wiring.Ready: what starts, and with what.
--   Wiring.Missing and Wiring.Bounded: a document whose object is gone, and a search, over the parts
--     as they are wired.
--   Tests: a concrete outside world and concrete tables, and the results at them.
--
-- Bounds: operations are interleaved as wholes, requests and turns of a worker in any order; in
-- Usecase.Crew several goroutines work at once, and the effect of `ProcessBuild` is that of its end.
-- Loops run over lists; a worker's loop runs a number of rounds. A polling loop may go on for ever:
-- `poll` takes a bound on its rounds and says whether it would go on behind them, and
-- Rules.Polling compares it with a semantics in big steps, which says how many rounds are enough.
-- White space and lower case are those of ASCII. A statement that fails leaves the tables as they
-- were. The texts of the database's own errors are reduced to the name of a constraint. A send on a
-- full queue waits until the request's context ends, and the statements that follow on that context
-- fail. Rows with equal times are listed in some order.
-- An `int` has 64 bits. A call of a port returns. The steps of Usecase.Crew do not say that a
-- `ProcessBuild` ever returns; its polling loops may not.
--
-- Not modelled: what chi does around the routes (it answers to a path or method without a route, and
-- for a handler that panics, and ends the context after 60 seconds, a case of the port `deadline`),
-- logging, the timeouts and the connection pools of the clients, and the code that
-- the parameters stand for: net/http, JSON, multipart forms, base64, the programs pdftotext, pdfinfo
-- and pdftoppm, files, the AWS SDK, pgx. `Score` of a search result, which no code sets, and a
-- negative `TopK` are left out.

pub mod Base
pub mod Domain
pub mod Exec
pub mod World
pub mod Postgres
pub mod Usecase
pub mod Lifecycle
pub mod Config
pub mod Delivery
pub mod Healthy
pub mod Infra
pub mod Wiring
pub mod Rules
pub mod Tests
