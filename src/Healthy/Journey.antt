-- ===== src/Healthy/Journey.antt =====
-- internal/usecase/knowledge_base.go and build_worker.go together: from `Build` over a turn of the
-- worker and `Enable` to `Search`, where the database answers and the services succeed.
use superkb.Base.{
  ℕ, ◌≡◌, refl, sym, ap, ◌∙◌, ltb, true, false, none, some, [], ◌∷◌, length, is_nil, ==_refl,
}
use superkb.Base.Text.{Text}
use superkb.Domain.{KnowledgeBase, Build, pending, ready, is_some}
use superkb.Domain.Errors.{ok}
use superkb.Exec.{branch, ◌>>=◌}
use superkb.Healthy.Building.{Works, process_build_completes}
use superkb.Healthy.Search.{search_kb-found, asked_world}
use superkb.Healthy.Serving.{
  enable-ready, enabled_kb, enabled_world, read_world, find_kb-enabled_world,
}
use superkb.Healthy.Statements.{Answers, query-up, execute-up, after_sql, get_kb-found}
use superkb.Postgres.Builds as Repository
use superkb.Postgres.KnowledgeBases
use superkb.Postgres.KnowledgeBases.{members}
use superkb.Postgres.Tables.{find_kb, find_build, insert_build, update_kb}
use superkb.Usecase.Builds.{queued, new_bank, build, schedule, process_build}
use superkb.Usecase.Queue.{enqueue, send, receive}
use superkb.Lifecycle.Builds.{process_build-Runs}
use superkb.Lifecycle.History.{runs-Reach}
use superkb.Lifecycle.Schema.Reached.{Reach-Stays}
use superkb.Lifecycle.Snapshot.{Reach-Persists}
use superkb.Lifecycle.Statements.{is_some-true}
use superkb.Postgres.Tables.Laws.{find_build-insert_new, find_build_self}
use superkb.Usecase.KnowledgeBases.{enable}
use superkb.Usecase.Search.{SearchOptions, search_kb, search_bank}
use superkb.Usecase.Worker.{serve_next}
use mathlib.Core.Option.{some-injective}
use superkb.World.{World, Ports}
use superkb.World.Calls.{ask}

-- the id that `Build` takes, behind its two reads
abbrev pub new_id : {E : Type 0} → Ports E → World E → ℕ
new_id P w = (P.new_uuid (P.now (P.sql_fault (P.sql_fault w.ext).1).1).1).0

-- What `Build` asks of the tables and of google/uuid: the knowledge base has members, and the new id
-- is the id of no build.
pub record Creatable {E : Type 0} (P : Ports E) (kb : ℕ) (w : World E) : Type 0 where
  pub base : KnowledgeBase
  pub found : find_kb kb w.db.knowledge_bases ≡ some base
  pub has_members : is_nil (members kb w.db) ≡ false
  pub fresh : find_build (new_id P w) w.db.kb_builds ≡ none

-- The queue is empty as well, and no context ends before the send.
pub record Startable {E : Type 0} (P : Ports E) (kb : ℕ) (w : World E) : Type 0 where
  pub creatable : Creatable P kb w
  pub idle : w.queue.items ≡ []
  pub has_place : ltb 0 w.queue.size ≡ true
  pub not_cancelled : (x : E) → (P.send_cancelled x).0 ≡ none

module _ {E : Type 0} (P : Ports E) (up : Answers P) (kb : ℕ) (w : World E) where
  -- the world in which the build is made
  abbrev pub listed_world : World E
  listed_world = after_sql P up (after_sql P up w)

  abbrev pub new_build : Build
  new_build = record {
    id = new_id P w;
    knowledge_base_id = kb;
    bank_id = new_bank P (new_id P w);
    status = pending;
    document_count = length (members kb w.db);
    error = [];
    created_at = (P.now listed_world.ext).0;
    updated_at = (P.now listed_world.ext).0;
  }

  abbrev pub inserted_ext : E
  inserted_ext = (P.sql_fault (P.new_uuid (P.now listed_world.ext).1).1).1

  abbrev queued_world : World E
  queued_world = record w {
    db = insert_build (Repository.kept P new_build) w.db;
    queue = record w.queue { items = (new_id P w) ∷ [] };
    ext = (P.send_cancelled inserted_ext).1;
  }

  pub create-found :
      (b : Build) (x : E) {k : KnowledgeBase}
      → find_build b.id w.db.kb_builds ≡ none
      → find_kb b.knowledge_base_id w.db.knowledge_bases ≡ some k
      → Repository.create P b (record w { ext = x }) ≡ (
        ok tt,
        record w { db = insert_build (Repository.kept P b) w.db; ext = (P.sql_fault x).1 },
      )
  unfolding Repository.create
  create-found b x new owner =
      execute-up P up (record w { ext = x }) _ _ (insert_build (Repository.kept P b) w.db)
        (rw (new, owner))

  build-queued : Startable P kb w → build P kb w ≡ (ok (queued new_build), queued_world)
  unfolding build schedule enqueue send KnowledgeBases.list_documents branch ◌>>=◌ ask
  build-queued s = rw (
    get_kb-found P up w kb s.creatable.base s.creatable.found,
    query-up P up (after_sql P up w),
    s.creatable.has_members,
    create-found new_build (P.new_uuid (P.now listed_world.ext).1).1 s.creatable.fresh
        s.creatable.found,
    s.not_cancelled,
    s.idle,
    s.has_place,
  )

  -- the world in which the worker processes the build
  abbrev taken_world : World E
  taken_world = record queued_world { queue = record w.queue { items = [] } }

  abbrev built_world : World E
  built_world = (process_build P (new_id P w) taken_world).1

  serve_next-built : (serve_next P queued_world).1 ≡ built_world
  unfolding serve_next receive
  serve_next-built = refl

  -- the row of the build when the worker is done
  record Built : Type 0 where
    row : Build
    found : find_build (new_id P w) built_world.db.kb_builds ≡ some row
    owner : row.knowledge_base_id ≡ kb
    bank : row.bank_id ≡ new_bank P (new_id P w)
    id : row.id ≡ (new_id P w)
    done : row.status ≡ ready

  built-Built : Works P → Startable P kb w → Built
  built-Built works s =
      let row : Build = Repository.kept P new_build in
      let there : find_build (new_id P w) (insert_build row w.db).kb_builds ≡ some row =
        rw (find_build-insert_new w.db (new_id P w) row s.creatable.fresh, ==_refl) in
      let status = (process_build_completes P up works taken_world (new_id P w) row there refl).1 in
      let later =
        Reach-Persists (new_id P w) row _ _
          (runs-Reach P taken_world (process_build-Runs P (new_id P w))) there in
      record {
        row = later.row;
        found = later.found;
        owner = later.later.owner;
        bank = later.later.bank;
        id = later.later.id;
        done =
            ap (λ (b : Build). b.status) (some-injective _ _ (sym later.found ∙ status.found))
            ∙ status.at;
      }

  built-Stays :
      Startable P kb w → (k : KnowledgeBase) × (find_kb kb built_world.db.knowledge_bases ≡ some k)
  built-Stays s = is_some-true _ (
      Reach-Stays kb (runs-Reach P taken_world (process_build-Runs P (new_id P w)))
        (unfold insert_build in ap is_some s.creatable.found))

  -- the knowledge base is enabled with the build, and a search is the search of its bank
  pub record Served (query : Text) (opts : SearchOptions) (w2 : World E) : Type 0 where
    pub base : KnowledgeBase
    pub enabled : (enable P kb (new_id P w) w2).0 ≡ ok base
    pub searched :
        let w3 = (enable P kb (new_id P w) w2).1 in
        search_kb P kb query opts w3
        ≡ search_bank P (new_bank P (new_id P w)) query opts (asked_world P up w3 kb)

  built-Served :
      Works P
      → Startable P kb w
      → (query : Text) (opts : SearchOptions) → is_nil query ≡ false
      → Served query opts built_world
  built-Served works s query opts some_query =
      let b = built-Built works s in
      let (k, hk) = built-Stays s in
      let is_enabled =
        enable-ready P up built_world kb (new_id P w) k b.row hk b.found b.owner b.done in
      let r = read_world P up built_world kb (new_id P w) in
      let w3 = enabled_world P up r k b.row in
      record {
        base = enabled_kb P up r k b.row;
        enabled = ap (λ p. p.0) is_enabled;
        searched =
            rw (is_enabled, sym b.bank)
              (search_kb-found P up w3 kb b.row.id _ b.row query opts some_query
                (find_kb-enabled_world P up r kb k b.row hk) refl refl
                (unfold update_kb in find_build_self built_world.db (new_id P w) b.row b.found));
      }

  -- Where the database answers and the services succeed, `Build` of a knowledge base with members
  -- returns a build, one turn of the worker and `Enable` of that build follow without an error,
  -- and then a `Search` with a query is the search of the bank of that build.
  pub build-Served :
      Works P
      → Startable P kb w
      → (query : Text) (opts : SearchOptions) → is_nil query ≡ false
      → ((build P kb w).0 ≡ ok (queued new_build))
        × Served query opts (serve_next P (build P kb w).1).1
  build-Served works s query opts some_query =
      rw (build-queued s, serve_next-built) (refl, built-Served works s query opts some_query)
