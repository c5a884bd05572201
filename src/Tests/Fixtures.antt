-- ===== src/Tests/Fixtures.antt =====
-- A small outside world, in which every call succeeds and a counter gives the ids and the times;
-- and tables with a document, and a knowledge base of two builds that are ready.
use Prim.Native.Nat.{◌/◌, ◌*◌}
use superkb.Base.{ℕ, refl, suc, true, false, Option, none, some, [], ◌∷◌}
use superkb.Base.Text.{Text}
use superkb.Domain.{Document, KnowledgeBase, Build, BuildStatus, pending, ready}
use superkb.Domain.Errors.{sentinel, conflict, ok}
use superkb.Domain.Rag.{Memory, SearchResult, experience}
use superkb.Usecase.Documents.{UploadInput}
use superkb.Healthy.Statements.{Answers}
use superkb.Healthy.Building.{Works}
use superkb.World.{World, Ports}

abbrev pub stored_memory : Memory
stored_memory = record {
  id = 1 ∷ [];
  content = 2 ∷ [];
  type = experience;
  context = [];
  tags = [];
  metadata = [];
}

abbrev first_uuid : Text → Option ℕ
first_uuid [] = none
first_uuid (i ∷ s) = some i

abbrev pub hit : SearchResult
hit = record {
  memory_id = 1 ∷ [];
  document_id = 7 ∷ [];
  content = 2 ∷ [];
  context = [];
  entities = [];
  chunk_id = [];
  chunk_index = 0;
  chunk_text = b'b' ∷ [];
  file_url = [];
  filename = [];
  page = 0;
}

abbrev pub counter : Ports ℕ
counter = record {
  new_uuid = λ n. (n, suc n);
  uuid_text = λ i. i ∷ [];
  parse_uuid = first_uuid;
  now = λ n. (n, suc n);
  time_text = λ t. t ∷ [];
  column_time = λ t. t / 1000 * 1000;
  sql_fault = λ n. (none, n);
  send_cancelled = λ n. (none, n);
  deadline = λ n. (sentinel conflict, n);
  storage = record {
    put = λ key content size type n. (ok tt, n);
    get = λ key n. (ok 0, n);
    delete = λ key n. (ok tt, n);
  };
  read_all = λ body n. (ok (b'a' ∷ []), n);
  indexer = record {
    create_bank = λ bank n. (ok tt, n);
    retain = λ bank docs n. (ok tt, n);
    recall = λ bank query top n. (ok (hit ∷ []), n);
    retain_memories = λ bank ms n. (ok ms, n);
    curate_memory = λ bank memory c n. (ok stored_memory, n);
    delete_bank = λ bank n. (ok tt, n);
  };
  extractor = none;
  converter = none;
  has_feedback = true;
  public_base_url = [];
}

pub counter-Answers : Answers counter
counter-Answers x = refl

pub counter-Works : Works counter
counter-Works = record {
  fetches = λ key x. tt;
  reads = λ body x. tt;
  converts = tt;
  creates = λ bank x. tt;
  retains = λ bank docs x. tt;
}

abbrev pub paper : Document
paper = record {
  id = 7;
  title = b't' ∷ [];
  filename = [];
  content_type = b'p' ∷ [];
  storage_key = b'k' ∷ [];
  size_bytes = 1;
  metadata = [];
  created_at = 0;
  updated_at = 0;
}

abbrev pub handbook : KnowledgeBase
handbook = record {
  id = 1;
  name = b'h' ∷ [];
  description = [];
  enabled = false;
  active_build_id = none;
  created_at = 0;
  updated_at = 0;
}

-- the same knowledge base while the build 2 serves
abbrev pub served_handbook : KnowledgeBase
served_handbook = record handbook { enabled = true; active_build_id = some 2 }

abbrev pub build_of : ℕ → BuildStatus → Build
build_of i s = record {
  id = i;
  knowledge_base_id = 1;
  bank_id = i ∷ [];
  status = s;
  document_count = 1;
  error = [];
  created_at = 0;
  updated_at = 0;
}

abbrev pub with_kb : KnowledgeBase → BuildStatus → World ℕ
with_kb k s = record {
  db = record {
    documents = paper ∷ [];
    knowledge_bases = k ∷ [];
    kb_documents = record { knowledge_base_id = 1; document_id = 7 } ∷ [];
    kb_builds = build_of 2 ready ∷ build_of 3 s ∷ [];
    memory_feedback = [];
    memory_consensus_applied = [];
  };
  queue = record { size = 2; items = [] };
  ext = 10;
}

-- nothing serves; two builds are ready
abbrev pub idle_world : World ℕ
idle_world = with_kb handbook ready

-- the build 2 serves
abbrev pub served_world : World ℕ
served_world = with_kb served_handbook ready

-- the build 3 waits
abbrev pub waiting_world : World ℕ
waiting_world = with_kb handbook pending

-- tables with no row
abbrev pub empty_world : World ℕ
empty_world = record {
  db = record {
    documents = [];
    knowledge_bases = [];
    kb_documents = [];
    kb_builds = [];
    memory_feedback = [];
    memory_consensus_applied = [];
  };
  queue = record { size = 2; items = [] };
  ext = 10;
}

abbrev pub leaflet : UploadInput
leaflet = record {
  title = b't' ∷ [];
  filename = [];
  content_type = [];
  content = b'a' ∷ [];
  metadata = [];
}
