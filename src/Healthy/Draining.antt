-- ===== src/Healthy/Draining.antt =====
-- The worker of usecase/build_worker.go where the database answers: every build that waits is
-- settled, whatever becomes of the calls of the storage, the converter and the indexer.
use mathlib.Core.List.{Memᴰ}
use mathlib.Core.List.Memᴰ.{head, tail, not-nil}
use superkb.Base.{
  ℕ, ◌≡◌, ◌⊎◌, ◌∙◌, refl, sym, ap, subst, false, none, some, Option, List, ◌∷◌, ◌==◌, ==_iff,
  Bool-cases, inl, inr, ◌≤◌, length,
}
use superkb.Domain.{Build, BuildStatus, pending, ready, failed, is_pending}
use superkb.Domain.Errors.{Result, ok, err}
use superkb.Exec.{annotate, pure, ◌>>=◌}
use superkb.Healthy.Failing.{Settled, process_build-Settled}
use superkb.Healthy.Statements.{Answers, get_build-found, get_build-missing}
use superkb.Lifecycle.Builds.{is_pending-pending}
use superkb.Postgres.Tables.{Db, find_build}
use superkb.Postgres.Tables.Laws.{id-find_build}
use superkb.Rules.Draining.{Served, none_waits, one_served, holding, serve-Served}
use superkb.Usecase.Builds.{process_build}
use superkb.Usecase.Worker.{serve}
use superkb.World.{World, Ports}

-- The build has ended: its row is ready or failed, for the same knowledge base and bank.
pub record HasEnded (i : ℕ) (b : Build) (db : Db) : Type 0 where
  pub row : Build
  pub found : find_build i db.kb_builds ≡ some row
  pub ended : (row.status ≡ ready) ⊎ (row.status ≡ failed)
  pub same : (row.knowledge_base_id ≡ b.knowledge_base_id) × (row.bank_id ≡ b.bank_id)

ended-is_pending : (s : BuildStatus) → (s ≡ ready) ⊎ (s ≡ failed) → is_pending s ≡ false
ended-is_pending s (inl e) = ap is_pending e
ended-is_pending s (inr e) = ap is_pending e

Settled-HasEnded :
    {E : Type 0} (b : Build) (before : Db) (r : Result (Unit {0}) × World E)
    → Settled b before r
    → HasEnded b.id b r.1.db
Settled-HasEnded b before (ok _, w) (h, spared) = record {
  row = _;
  found = h.1;
  ended = inl refl;
  same = (refl, refl);
}
Settled-HasEnded b before (err e, w) (h, spared) = record {
  row = _;
  found = h.1;
  ended = inr refl;
  same = (refl, refl);
}

Settled-others :
    {E : Type 0} (b : Build) (before : Db) (r : Result (Unit {0}) × World E) (i : ℕ)
    → (i == b.id) ≡ false
    → Settled b before r
    → find_build i r.1.db.kb_builds ≡ find_build i before.kb_builds
Settled-others b before (ok _, w) i other (h, spared) = spared.1 i other
Settled-others b before (err e, w) i other (h, spared) = spared.1 i other

Mem-later : {i j : ℕ} {ids : List ℕ} → (i == j) ≡ false → Memᴰ i (j ∷ ids) → Memᴰ i ids
Mem-later {i} {j} other (head e) = cc (other, (==_iff i j).1 e)
Mem-later other (tail m) = m

module _ {E : Type 0} (P : Ports E) (up : Answers P) where
  process_build-missing :
      (j : ℕ) (w : World E) → find_build j w.db.kb_builds ≡ none → (process_build P j w).1.db ≡ w.db
  unfolding process_build ◌>>=◌ annotate
  process_build-missing j w h = rw (get_build-missing P up w j h) refl

  process_build-again :
      (j : ℕ) (c : Build) (w : World E)
      → find_build j w.db.kb_builds ≡ some c
      → is_pending c.status ≡ false
      → (process_build P j w).1.db ≡ w.db
  unfolding process_build ◌>>=◌ annotate pure
  process_build-again j c w h past = rw (get_build-found P up w j c h, past) refl

  -- `ProcessBuild` leaves the rows of all other builds
  process_build-others :
      (i j : ℕ) (w : World E)
      → (i == j) ≡ false
      → find_build i (process_build P j w).1.db.kb_builds ≡ find_build i w.db.kb_builds
  process_build-others i j w other = go (find_build j w.db.kb_builds) refl
    where
      go :
          (o : Option Build)
          → find_build j w.db.kb_builds ≡ o
          → find_build i (process_build P j w).1.db.kb_builds ≡ find_build i w.db.kb_builds
      go none h = ap (λ db. find_build i db.kb_builds) (process_build-missing j w h)
      go (some c) h = elim (Bool-cases (is_pending c.status)) [
        | inr past ↦ ap (λ db. find_build i db.kb_builds) (process_build-again j c w h past)
        | inl unspent ↦
            Settled-others c w.db (process_build P j w) i
              (subst (λ k. (i == k) ≡ false) (sym (id-find_build w.db j c h)) other)
              (process_build-Settled P up w j c h (is_pending-pending c.status unspent))
      ]

  -- a build that has ended is not processed again
  process_build-HasEnded :
      (i j : ℕ) (b : Build) (w : World E)
      → HasEnded i b w.db
      → HasEnded i b (process_build P j w).1.db
  process_build-HasEnded i j b w h = elim (Bool-cases (i == j)) [
    | inl same ↦
        subst (HasEnded i b)
          (sym (
            process_build-again j h.row w
              (subst (λ k. find_build k w.db.kb_builds ≡ some h.row) ((==_iff i j).0 same) h.found)
              (ended-is_pending h.row.status h.ended)))
          h
    | inr other ↦ record {
      row = h.row;
      found = process_build-others i j w other ∙ h.found;
      ended = h.ended;
      same = h.same;
    }
  ]

  Served-HasEnded :
      {ids : List ℕ} {w w' : World E} (i : ℕ) (b : Build)
      → Served P ids w w'
      → HasEnded i b w.db
      → HasEnded i b w'.db
  Served-HasEnded i b none_waits h = h
  Served-HasEnded i b (one_served {i = j} {ids} {w} s) h =
      Served-HasEnded i b s (process_build-HasEnded i j b (holding P ids w) h)

  process_build-ends :
      (i : ℕ) (b : Build) (w : World E)
      → find_build i w.db.kb_builds ≡ some b
      → b.status ≡ pending
      → HasEnded i b (process_build P i w).1.db
  process_build-ends i b w found waits =
      subst (λ k. HasEnded k b (process_build P i w).1.db) (id-find_build w.db i b found)
        (Settled-HasEnded b w.db (process_build P i w)
          (process_build-Settled P up w i b found waits))

  Served-settles :
      {ids : List ℕ} {w w' : World E} (i : ℕ) (b : Build)
      → Served P ids w w'
      → Memᴰ i ids
      → find_build i w.db.kb_builds ≡ some b
      → b.status ≡ pending
      → HasEnded i b w'.db
  Served-settles i b none_waits m found waits = absurd (not-nil m)
  Served-settles i b (one_served {i = j} {ids} {w} s) m found waits = elim (Bool-cases (i == j)) [
    | inl same ↦ Served-HasEnded i b s (
        subst (λ k. HasEnded i b (process_build P k (holding P ids w)).1.db) ((==_iff i j).0 same)
          (process_build-ends i b (holding P ids w) found waits))
    | inr other ↦
        Served-settles i b s (Mem-later other m)
          (process_build-others i j (holding P ids w) other ∙ found) waits
  ]

  -- Where the database answers, a worker that makes at least as many rounds as builds wait leaves
  -- every build that waits in the queue and is pending ready or failed, for the same knowledge base
  -- and bank, whatever becomes of the calls of the storage, the converter and the indexer.
  pub serve-HasEnded :
      (w : World E) (n i : ℕ) (b : Build)
      → length w.queue.items ≤ n
      → Memᴰ i w.queue.items
      → find_build i w.db.kb_builds ≡ some b
      → b.status ≡ pending
      → HasEnded i b (serve P n w).db
  serve-HasEnded w n i b enough m found waits =
      Served-settles i b (serve-Served P w.queue.items n w refl enough).0 m found waits
