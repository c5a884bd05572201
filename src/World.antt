-- ===== src/World.antt =====
-- Everything a use case acts on: the tables, the build queue, and the outside world `E`, which
-- the services that are not code of this repository read and change. `Ports` is what is assumed
-- of them: nothing but their types.
pub mod Calls
use superkb.Base.{ℕ, Bool, Option, List}
use superkb.Base.Text.{Text}
use superkb.Domain.Errors.{Error, Result}
use superkb.Domain.Rag.{RagDocument, SearchResult, Memory, MemoryCuration}
use superkb.Postgres.Tables.{Db}

-- `ChannelBuildQueue`: a buffered channel of build ids, the oldest first
pub record BuildQueue : Type 0 where
  pub size : ℕ
  pub items : List ℕ

pub record World (E : Type 0) : Type 0 where
  pub db : Db
  pub queue : BuildQueue
  pub ext : E

-- `Put` of a key, a content, its size and its type, `Get` and `Delete`; a body that `Get` returns is a number
pub record ObjectStorage (E : Type 0) : Type 0 where
  pub put : Text → Text → ℕ → Text → E → Result (Unit {0}) × E
  pub get : Text → E → Result ℕ × E
  pub delete : Text → E → Result (Unit {0}) × E

-- `ExtractPages` of a content and its type
abbrev pub TextExtractor : Type 0 → Type 0
TextExtractor E = Text → Text → E → Result (List Text) × E

-- `Convert` of a content, its type and its file name: `none` is `ok = false`
abbrev pub DocumentConverter : Type 0 → Type 0
DocumentConverter E = Text → Text → Text → E → Result (Option Text) × E

pub record RagIndexer (E : Type 0) : Type 0 where
  pub create_bank : Text → E → Result (Unit {0}) × E
  pub retain : Text → List RagDocument → E → Result (Unit {0}) × E
  pub recall : Text → Text → ℕ → E → Result (List SearchResult) × E
  pub retain_memories : Text → List Memory → E → Result (List Memory) × E
  pub curate_memory : Text → Text → MemoryCuration → E → Result Memory × E
  pub delete_bank : Text → E → Result (Unit {0}) × E

pub record Ports (E : Type 0) : Type 0 where
  -- google/uuid: `uuid.New`, `UUID.String`, `uuid.Parse`
  pub new_uuid : E → ℕ × E
  pub uuid_text : ℕ → Text
  pub parse_uuid : Text → Option ℕ
  -- `time.Now().UTC()`
  pub now : E → ℕ × E
  -- `time.Time.Format` with the layout of the responses
  pub time_text : ℕ → Text
  -- pgx and PostgreSQL: what a column of the type TIMESTAMPTZ keeps of a time, microseconds
  pub column_time : ℕ → ℕ
  -- pgx: whether a statement fails for a reason that is not in the tables
  pub sql_fault : E → Option Error × E
  -- whether the request's context ends before a value is sent on the channel, and then its error
  pub send_cancelled : E → Option Error × E
  -- the error of the context once its deadline has passed
  pub deadline : E → Error × E
  pub storage : ObjectStorage E
  -- `io.ReadAll` of a body
  pub read_all : ℕ → E → Result Text × E
  pub indexer : RagIndexer E
  -- either of these may be nil
  pub extractor : Option (TextExtractor E)
  pub converter : Option (DocumentConverter E)
  -- whether the feedback repository is wired
  pub has_feedback : Bool
  -- the configured public base URL, empty if there is none
  pub public_base_url : Text
