-- ===== src/Lifecycle/Searches.antt =====
-- `Search` of internal/usecase/knowledge_base.go after any history, whatever fails: which bank was
-- asked for the results that it returns.
use superkb.Base.{ℕ, ◌≡◌, refl, sym, ap, ◌∙◌, subst, arith, true, Option, none, some, List, is_nil}
use superkb.Base.Text.{Text, lit}
use superkb.Domain.{KnowledgeBase, Build, is_searchable}
use superkb.Domain.Errors.{Error, Result, ok}
use superkb.Domain.Rag.{SearchResult}
use superkb.Exec.{fail, annotate, ◌>>=◌}
use superkb.Exec.Successes.{annotate-ok, fail-never, bind-ok, halfway}
use superkb.Lifecycle.History.{Operation, perform_all, perform_all-IsConsistent}
use superkb.Lifecycle.Invariant.{IsConsistent, ServesReady}
use superkb.Postgres.Builds
use superkb.Postgres.KnowledgeBases
use superkb.Postgres.Documents.{or_not_found}
use superkb.Postgres.Tables.{Db, find_kb, find_build}
use superkb.Rules.Content.{accepted}
use superkb.Usecase.Memories.{serving}
use superkb.Usecase.Search.{SearchOptions, search_kb, search_bank}
use superkb.World.{World, Ports}
use superkb.World.Calls.{query, read}

-- The results are those of the bank of a ready build of the knowledge base `i`, its active build,
-- and the knowledge base is enabled.
pub record Searched {E : Type 0} (P : Ports E) (i : ℕ) (text : Text) (opts : SearchOptions)
    (w : World E) (rs : List SearchResult) (w' : World E) : Type 0 where
  pub kb : KnowledgeBase
  pub found : find_kb i w.db.knowledge_bases ≡ some kb
  pub enabled : kb.enabled ≡ true
  pub build_id : ℕ
  pub active : kb.active_build_id ≡ some build_id
  pub serves : ServesReady i build_id w.db
  pub asked_at : E
  pub asked :
      search_bank P serves.build.bank_id text opts (record w { ext = asked_at }) ≡ (ok rs, w')

serving-some :
    (k : KnowledgeBase) (j : ℕ)
    → serving k ≡ some j
    → (k.enabled ≡ true) × (k.active_build_id ≡ some j)
unfolding is_searchable
serving-some k j h = ground arith

or_not_found-ok : {A : Type 0} (o : Option A) (a : A) → or_not_found o ≡ ok a → o ≡ some a
or_not_found-ok none a h = cc
or_not_found-ok (some b) a h = cc

module _ {E A : Type 0} where
  read-ok :
      (before : Text) (f : Db → Result A) (w : World E) (r : Option Error × E) (a : A) (z : World E)
      → read before f w r ≡ (ok a, z)
      → (f w.db ≡ ok a) × (z ≡ record w { ext = z.ext })
  read-ok before f w (none, x) a z h =
      let left = ap (λ p. p.1) h in
      (ap (λ p. p.0) h, sym left ∙ ap (λ v. record w { ext = v.ext }) left)
  read-ok before f w (some e, x) a z h = cc

  query-ok :
      (P : Ports E) (before : Text) (f : Db → Result A) (w : World E) (a : A) (z : World E)
      → query P before f w ≡ (ok a, z)
      → (f w.db ≡ ok a) × (z ≡ record w { ext = z.ext })
  unfolding query
  query-ok P before f w a z h = read-ok before f w (P.sql_fault w.ext) a z h

module _ {E : Type 0} (P : Ports E) where
  get_kb-ok :
      (i : ℕ) (w : World E) (k : KnowledgeBase) (z : World E)
      → KnowledgeBases.get_by_id P i w ≡ (ok k, z)
      → (find_kb i w.db.knowledge_bases ≡ some k) × (z ≡ record w { ext = z.ext })
  unfolding KnowledgeBases.get_by_id
  get_kb-ok i w k z h =
      let (row, same) = query-ok P _ _ w k z h in
      (or_not_found-ok (find_kb i w.db.knowledge_bases) k row, same)

  get_build-ok :
      (j : ℕ) (w : World E) (b : Build) (z : World E)
      → Builds.get_by_id P j w ≡ (ok b, z)
      → (find_build j w.db.kb_builds ≡ some b) × (z ≡ record w { ext = z.ext })
  unfolding Builds.get_by_id
  get_build-ok j w b z h =
      let (row, same) = query-ok P _ _ w b z h in
      (or_not_found-ok (find_build j w.db.kb_builds) b row, same)

  module _ (i : ℕ) (text : Text) (opts : SearchOptions) (w w' : World E) (rs : List SearchResult)
      (sound : IsConsistent w.db) where
    -- `Search` once the active build is read
    asked-Searched :
        (k : KnowledgeBase) (j : ℕ) (b : Build) (z : World E)
        → find_kb i w.db.knowledge_bases ≡ some k
        → serving k ≡ some j
        → find_build j w.db.kb_builds ≡ some b
        → z ≡ record w { ext = z.ext }
        → search_bank P b.bank_id text opts z ≡ (ok rs, w')
        → Searched P i text opts w rs w'
    asked-Searched k j b z hk act hb same asked =
        let (on, active) = serving-some k j act in
        let s = sound.active i j k hk active in
        let own : s.build ≡ b = cc (s.found, hb) in
        record {
          kb = k;
          found = hk;
          enabled = on;
          build_id = j;
          active = active;
          serves = s;
          asked_at = z.ext;
          asked =
              subst
                (λ c. search_bank P c.bank_id text opts (record w { ext = z.ext }) ≡ (ok rs, w'))
                (sym own)
                (subst (λ v. search_bank P b.bank_id text opts v ≡ (ok rs, w')) same asked);
        }

    search_kb-Searched : search_kb P i text opts w ≡ (ok rs, w') → Searched P i text opts w rs w'
    unfolding search_kb
    search_kb-Searched h = elim (bind-ok _ _ w rs w' (accepted (is_nil text) _ _ w rs w' h)) [
      | halfway k z read_kb rest ↦
          let (hk, same) = get_kb-ok i w k z (annotate-ok _ _ w k z read_kb) in
          go _ k z hk same (serving k) refl rest
    ]
      where
        go :
            (refused : Error) (k : KnowledgeBase) (z : World E)
            → find_kb i w.db.knowledge_bases ≡ some k
            → z ≡ record w { ext = z.ext }
            → (o : Option ℕ) → serving k ≡ o
            → (elim o as (λ _. World E → Result (List SearchResult) × World E) [
              | none ↦ fail refused
              | some j ↦ annotate (lit "search: active build") (Builds.get_by_id P j) >>= λ b.
                  search_bank P b.bank_id text opts
            ])
                z
              ≡ (ok rs, w')
            → Searched P i text opts w rs w'
        go refused k z hk same none act rest = absurd (fail-never _ z w' rs rest)
        go refused k z hk same (some j) act rest = elim (bind-ok _ _ z rs w' rest) [
          | halfway b y read_build asked ↦
              let (hb, same') = get_build-ok j z b y (annotate-ok _ _ z b y read_build) in
              asked-Searched k j b y hk act
                (subst (λ v. find_build j v.db.kb_builds ≡ some b) same hb)
                (same' ∙ ap {B = World E} (λ (v : World E). record v { ext = y.ext }) same) asked
        ]

  -- After any history from consistent tables, whatever fails in it and in the search, a Search that
  -- returns results found the knowledge base enabled, and returns what the search of one bank does:
  -- that of its active build, which has a row, is its own and is ready.
  pub perform_all-Searched :
      (os : List Operation) (w w' : World E) (i : ℕ) (text : Text) (opts : SearchOptions)
      (rs : List SearchResult)
      → IsConsistent w.db
      → search_kb P i text opts (perform_all P os w) ≡ (ok rs, w')
      → Searched P i text opts (perform_all P os w) rs w'
  perform_all-Searched os w w' i text opts rs start h =
      search_kb-Searched i text opts (perform_all P os w) w' rs
        (perform_all-IsConsistent P os w start) h
