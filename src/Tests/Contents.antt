-- ===== src/Tests/Contents.antt =====
-- A bucket that keeps every object, and a document that is uploaded to it.
use Prim.Native.Nat.{◌/◌, ◌*◌}
use superkb.Base.{
  ℕ, ◌≡◌, refl, ap, true, subst, if◌then◌else◌, Option, none, some, List, [], ◌∷◌, ◌++◌,
}
use superkb.Base.Text.{Text, lit, text_eq, text_eq_refl}
use superkb.Domain.{Document, validate_document}
use superkb.Domain.Errors.{Result, ok, err, sentinel, conflict, not_found}
use superkb.Exec.{annotate, ◌>>=◌}
use superkb.Healthy.Content.{view_of, source-upload}
use superkb.Healthy.Statements.{Answers}
use superkb.Postgres.Documents
use superkb.Postgres.Tables.{find_document}
use superkb.Rules.Content.{Keeps, fetched}
use superkb.Tests.Fixtures.{empty_world, leaflet, stored_memory, hit}
use superkb.Usecase.Documents as Uploading
use superkb.World.{World, Ports}
use superkb.World.Calls.{ask, call, execute}

-- the objects, the last first, and the content of the body that is open
record Bucket : Type 0 where
  objects : List (Text × Text)
  opened : Text

unfoldable object : Text → List (Text × Text) → Option Text
object key [] = none
object key ((k, body) ∷ rest) = if text_eq key k then some body else object key rest

abbrev opening : Option Text → Bucket → Result ℕ × Bucket
opening none b = (err (sentinel not_found), b)
opening (some body) b = (ok 0, record b { opened = body })

abbrev keeper : Ports Bucket
keeper = record {
  new_uuid = λ b. (10, b);
  uuid_text = λ i. i ∷ [];
  parse_uuid = λ t. none;
  now = λ b. (11, b);
  time_text = λ t. t ∷ [];
  column_time = λ t. t / 1000 * 1000;
  sql_fault = λ b. (none, b);
  send_cancelled = λ b. (none, b);
  deadline = λ b. (sentinel conflict, b);
  storage = record {
    put = λ key content size type b. (ok tt, record b { objects = (key, content) ∷ b.objects });
    get = λ key b. opening (object key b.objects) b;
    delete = λ key b. (ok tt, b);
  };
  read_all = λ body b. (ok b.opened, b);
  indexer = record {
    create_bank = λ bank b. (ok tt, b);
    retain = λ bank docs b. (ok tt, b);
    recall = λ bank query top b. (ok (hit ∷ []), b);
    retain_memories = λ bank ms b. (ok ms, b);
    curate_memory = λ bank memory c b. (ok stored_memory, b);
    delete_bank = λ bank b. (ok tt, b);
  };
  -- every content has two pages
  extractor = some (λ content type b. (ok (content ∷ content ∷ []), b));
  converter = none;
  has_feedback = true;
  public_base_url = [];
}

keeper-Answers : Answers keeper
keeper-Answers b = refl

object_newest :
    (key body : Text) (rest : List (Text × Text)) → object key ((key, body) ∷ rest) ≡ some body
unfolding object
object_newest key body rest = rw (text_eq_refl key)

keeper-Keeps : Keeps keeper
keeper-Keeps = record {
  Holds = λ key body b. object key b.objects ≡ some body;
  stored = λ key body size type x y h.
      subst (λ b. object key b.objects ≡ some body) (ap (λ p. p.1) h)
        (object_newest key body x.objects);
  shown = λ key body x h.
      fetched 0 (record x { opened = body }) (record x { opened = body }) (ap (λ o. opening o x) h)
        refl;
  past_clock = λ key body x h. h;
  past_sql = λ key body x h. h;
}

abbrev start : World Bucket
start = record {
  db = empty_world.db;
  queue = empty_world.queue;
  ext = record { objects = []; opened = [] };
}

abbrev kept : Document
kept = record {
  id = 10;
  title = b't' ∷ [];
  filename = [];
  content_type = lit "application/octet-stream";
  storage_key = lit "documents/" ++ (10 ∷ []);
  size_bytes = 1;
  metadata = [];
  created_at = 11;
  updated_at = 11;
}

uploaded :
    Uploading.upload keeper leaflet start ≡ (ok kept, (Uploading.upload keeper leaflet start).1)
unfolding Uploading.upload Uploading.store Documents.create validate_document ◌>>=◌ ask call execute
    find_document lit
uploaded = refl

source-upload_example :
    (Uploading.source keeper 10 (Uploading.upload keeper leaflet start).1).0
    ≡ ok (view_of keeper (Documents.kept keeper kept) ((b'a' ∷ []) ∷ (b'a' ∷ []) ∷ []))
source-upload_example =
    source-upload keeper keeper-Answers keeper-Keeps leaflet kept ((b'a' ∷ []) ∷ (b'a' ∷ []) ∷ [])
      start (Uploading.upload keeper leaflet start).1
      (λ v. unfold Uploading.pages_of annotate call in refl) uploaded
