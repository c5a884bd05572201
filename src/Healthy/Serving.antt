-- ===== src/Healthy/Serving.antt =====
-- Which build serves search: `Enable`, `Disable`, and the bank that `activeBankID` finds.
use superkb.Base.{
  ℕ, ◌≡◌, refl, true, false, Option, none, some, ◌==◌, ==_refl, ==_iff, ap, Bool-cases, inl, inr,
  if◌then◌else◌, [],
}
use superkb.Base.Text.{lit}
use superkb.Domain.{KnowledgeBase, Build, ready, is_ready, is_searchable}
use superkb.Domain.Errors.{ok, err, refusal, conflict, is}
use superkb.Exec.{◌>>=◌}
use superkb.Healthy.Statements.{
  Answers, after_sql, get_kb-found, get_kb-missing, get_build-found, get_build-missing,
  update_kb-found,
}
use superkb.Delivery.Response.{respond}
use superkb.Postgres.KnowledgeBases
use superkb.Postgres.Tables.{find_kb, find_build, update_kb}
use superkb.Postgres.Tables.Laws.{id-find_kb, find_kb_self, find_kb-update_kb}
use superkb.Usecase.KnowledgeBases.{enable, activate}
use superkb.Usecase.Memories.{active_bank_id}
use superkb.World.{World, Ports}
use superkb.World.Calls.{ask}

module _ {E : Type 0} (P : Ports E) (up : Answers P) (w : World E) where
  -- the bank of the active build, for a knowledge base that is enabled
  pub active_bank_id-found :
      (i j : ℕ) (k : KnowledgeBase) (b : Build)
      → find_kb i w.db.knowledge_bases ≡ some k
      → k.enabled ≡ true
      → k.active_build_id ≡ some j
      → find_build j w.db.kb_builds ≡ some b
      → (active_bank_id P i w).0 ≡ ok b.bank_id
  unfolding active_bank_id is_searchable ◌>>=◌
  active_bank_id-found i j k b hk on act hb =
      rw (get_kb-found P up w i k hk, on, act, get_build-found P up (after_sql P up w) j b hb)

  pub active_bank_id-disabled :
      (i : ℕ) (k : KnowledgeBase)
      → find_kb i w.db.knowledge_bases ≡ some k
      → k.enabled ≡ false
      → (active_bank_id P i w).0
        ≡ err (refusal [] conflict (lit ": knowledge base is not enabled or has no active build"))
  unfolding active_bank_id is_searchable ◌>>=◌
  active_bank_id-disabled i k hk off = rw (get_kb-found P up w i k hk, off)

  -- the row that `Enable` writes, and the world with it
  abbrev pub enabled_kb : KnowledgeBase → Build → KnowledgeBase
  enabled_kb k b = record k {
    enabled = true;
    active_build_id = some b.id;
    updated_at = (P.now w.ext).0;
  }

  abbrev pub enabled_world : KnowledgeBase → Build → World E
  enabled_world k b = record w {
    db = update_kb (KnowledgeBases.kept P (enabled_kb k b)) w.db;
    ext = (P.sql_fault (P.now w.ext).1).1;
  }

  activate-found :
      (k : KnowledgeBase) (b : Build)
      → find_kb k.id w.db.knowledge_bases ≡ some k
      → activate P k b w ≡ (ok (enabled_kb k b), enabled_world k b)
  unfolding activate ◌>>=◌ ask
  activate-found k b hk =
      rw (update_kb-found P up (record w { ext = (P.now w.ext).1 }) (enabled_kb k b) hk)

  pub find_kb-enabled_world :
      (i : ℕ) (k : KnowledgeBase) (b : Build)
      → find_kb i w.db.knowledge_bases ≡ some k
      → find_kb i (enabled_world k b).db.knowledge_bases
        ≡ some (record (enabled_kb k b) { updated_at = P.column_time (P.now w.ext).0 })
  find_kb-enabled_world i k b hk = simp (find_kb-update_kb, id-find_kb w.db i k hk, ==_refl, hk)

-- what `Enable` answers to the rows that it finds
abbrev pub enable_verdict : ℕ → Option KnowledgeBase → Option Build → ℕ
enable_verdict i none b = 404
enable_verdict i (some k) none = 404
enable_verdict i (some k) (some b) =
    if b.knowledge_base_id == i then (if is_ready b.status then 200 else 409) else 400

module _ {E : Type 0} (P : Ports E) (up : Answers P) (w : World E) (i j : ℕ) where
  abbrev pub read_world : World E
  read_world = after_sql P up (after_sql P up w)

  -- an enabled build that is ready
  pub enable-ready :
      (k : KnowledgeBase) (b : Build)
      → find_kb i w.db.knowledge_bases ≡ some k
      → find_build j w.db.kb_builds ≡ some b
      → b.knowledge_base_id ≡ i
      → b.status ≡ ready
      → enable P i j w ≡ (ok (enabled_kb P up read_world k b), enabled_world P up read_world k b)
  unfolding enable ◌>>=◌
  enable-ready k b hk hb owner done =
      let same : (b.knowledge_base_id == i) ≡ true = (==_iff _ _).1 owner in
      let is_done : is_ready b.status ≡ true = ap is_ready done in
      rw (get_kb-found P up w i k hk, get_build-found P up (after_sql P up w) j b hb, same, is_done)
        (activate-found P up read_world k b (find_kb_self w.db i k hk))

  status_after :
      (o : Option KnowledgeBase) (c : Option Build)
      → find_kb i w.db.knowledge_bases ≡ o
      → find_build j w.db.kb_builds ≡ c
      → (respond 200 (enable P i j w).0).status ≡ enable_verdict i o c
  unfolding enable ◌>>=◌ respond is
  status_after none c hk hb = rw (get_kb-missing P up w i hk)
  status_after (some k) none hk hb =
      rw (get_kb-found P up w i k hk, get_build-missing P up (after_sql P up w) j hb)
  status_after (some k) (some b) hk hb = elim (Bool-cases (b.knowledge_base_id == i)) [
    | inr other ↦
        rw (get_kb-found P up w i k hk, get_build-found P up (after_sql P up w) j b hb, other)
    | inl owner ↦ elim (Bool-cases (is_ready b.status)) [
      | inr busy ↦
          rw (
            get_kb-found P up w i k hk,
            get_build-found P up (after_sql P up w) j b hb,
            owner,
            busy,
          )
      | inl done ↦ rw (
        get_kb-found P up w i k hk,
        get_build-found P up (after_sql P up w) j b hb,
        owner,
        done,
        activate-found P up read_world k b (find_kb_self w.db i k hk),
      )
    ]
  ]

  -- Where the database answers, `Enable` answers 404 where the knowledge base or the build is missing, 400 for a build of
  -- another knowledge base, 409 for a build that is not ready, and 200 otherwise.
  pub status-enable :
      (respond 200 (enable P i j w).0).status
      ≡ enable_verdict i (find_kb i w.db.knowledge_bases) (find_build j w.db.kb_builds)
  status-enable = status_after _ _ refl refl
