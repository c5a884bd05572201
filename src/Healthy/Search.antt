-- ===== src/Healthy/Search.antt =====
-- What `Search` and `Disable` answer.
use superkb.Base.{ℕ, ◌≡◌, refl, true, false, some, ==_refl, is_nil, []}
use superkb.Base.Text.{Text, lit}
use superkb.Domain.{KnowledgeBase, Build, is_searchable}
use superkb.Domain.Errors.{ok, err, refusal, conflict}
use superkb.Exec.{◌>>=◌}
use superkb.Healthy.Serving.{active_bank_id-disabled}
use superkb.Healthy.Statements.{Answers, after_sql, get_kb-found, get_build-found, update_kb-found}
use superkb.Postgres.KnowledgeBases
use superkb.Postgres.Tables.{find_kb, find_build, update_kb}
use superkb.Postgres.Tables.Laws.{id-find_kb, find_kb_self, find_kb-update_kb}
use superkb.Usecase.KnowledgeBases.{disable, deactivate}
use superkb.Usecase.Memories.{active_bank_id}
use superkb.Usecase.Search.{SearchOptions, search_kb, search_bank}
use superkb.World.{World, Ports}
use superkb.World.Calls.{ask}

module _ {E : Type 0} (P : Ports E) (up : Answers P) where
  module _ (w : World E) (i : ℕ) where
    -- the world in which the indexer is asked
    abbrev pub asked_world : World E
    asked_world = after_sql P up (after_sql P up w)

    -- Where the database answers, a `Search` with a query on a knowledge base that is enabled is
    -- the search of the bank of its active build.
    pub search_kb-found :
        (j : ℕ) (k : KnowledgeBase) (b : Build) (query : Text) (opts : SearchOptions)
        → is_nil query ≡ false
        → find_kb i w.db.knowledge_bases ≡ some k
        → k.enabled ≡ true
        → k.active_build_id ≡ some j
        → find_build j w.db.kb_builds ≡ some b
        → search_kb P i query opts w ≡ search_bank P b.bank_id query opts asked_world
    unfolding search_kb is_searchable ◌>>=◌
    search_kb-found j k b query opts some_query hk on act hb = rw (
      some_query,
      get_kb-found P up w i k hk,
      on,
      act,
      get_build-found P up (after_sql P up w) j b hb,
    )

    -- the knowledge base that `Disable` returns
    abbrev disabled_kb : KnowledgeBase → KnowledgeBase
    disabled_kb k = record k { enabled = false; updated_at = (P.now (after_sql P up w).ext).0 }

    abbrev disabled_world : KnowledgeBase → World E
    disabled_world k = record w {
      db = update_kb (KnowledgeBases.kept P (disabled_kb k)) w.db;
      ext = (P.sql_fault (P.now (after_sql P up w).ext).1).1;
    }

    disable-found :
        (k : KnowledgeBase)
        → find_kb i w.db.knowledge_bases ≡ some k
        → disable P i w ≡ (ok (disabled_kb k), disabled_world k)
    unfolding disable deactivate ◌>>=◌ ask
    disable-found k hk = rw (
      get_kb-found P up w i k hk,
      update_kb-found P up (record w { ext = (P.now (after_sql P up w).ext).1 }) (disabled_kb k)
          (find_kb_self w.db i k hk),
    )

    -- the row itself
    abbrev disabled_row : KnowledgeBase → KnowledgeBase
    disabled_row k = record (disabled_kb k) {
      updated_at = P.column_time (P.now (after_sql P up w).ext).0;
    }

    find_kb-disabled_world :
        (k : KnowledgeBase)
        → find_kb i w.db.knowledge_bases ≡ some k
        → find_kb i (disabled_world k).db.knowledge_bases ≡ some (disabled_row k)
    find_kb-disabled_world k hk = simp (find_kb-update_kb, id-find_kb w.db i k hk, ==_refl, hk)

    -- Where the database answers, after `Disable` the active bank of the knowledge base is refused
    -- with a conflict, and its active build and all builds are kept.
    pub disable_stops :
        (k : KnowledgeBase)
        → find_kb i w.db.knowledge_bases ≡ some k
        → let w' = (disable P i w).1 in
          ((active_bank_id P i w').0
            ≡ err (
                refusal [] conflict (lit ": knowledge base is not enabled or has no active build")))
          × ((k' : KnowledgeBase) × (find_kb i w'.db.knowledge_bases ≡ some k')
              × (k'.active_build_id ≡ k.active_build_id))
          × (w'.db.kb_builds ≡ w.db.kb_builds)
    disable_stops k hk = rw (disable-found k hk) (
      active_bank_id-disabled P up (disabled_world k) i (disabled_row k)
          (find_kb-disabled_world k hk) refl,
      (disabled_row k, find_kb-disabled_world k hk, refl),
      unfold update_kb in refl,
    )
