-- ===== src/Lifecycle/Guarded.antt =====
-- Statements as the repositories write them: a query for one row, and a write that a test of the
-- tables lets through.
use superkb.Base.{◌≡◌, refl, Bool, true, false, Option, none, some, if◌then◌else◌}
use superkb.Base.Text.{Text}
use superkb.Domain.Errors.{Error, ok, err}
use superkb.Postgres.Tables.{Db}
use superkb.Postgres.Documents.{or_not_found}
use superkb.Lifecycle.Ends.{Outcome, Written}
use superkb.Lifecycle.Runs.{Runs, Runs-query, Runs-execute}
use superkb.World.{Ports}
use superkb.World.Calls.{query, execute}

row-Outcome :
    {A : Type 0} (P X : Db → Type 0) (find : Db → Option A) (db : Db) (o : Option A)
    → P db
    → X db
    → find db ≡ o
    → Outcome (λ a db. P db × (find db ≡ some a)) X db (or_not_found o)
row-Outcome P X find db none p x e = x
row-Outcome P X find db (some a) p x e = (p, e)

module _ (S : Db → Db → Type 0) (Q X : Db → Type 0) (db db' : Db) (e : Error) (x : X db) where
  if-Written :
      (t : Bool) → (t ≡ true → S db db' × Q db') → Written S Q X db (if t then ok db' else err e)
  if-Written true h = h refl
  if-Written false h = x

  unless-Written :
      (t : Bool) → (t ≡ false → S db db' × Q db') → Written S Q X db (if t then err e else ok db')
  unless-Written true h = x
  unless-Written false h = h refl

module _ {E : Type 0} (Pt : Ports E) {S : Db → Db → Type 0} {P X : Db → Type 0}
    (hx : (db : Db) → P db → X db) where
  -- the query for one row
  pub Runs-row :
      {A : Type 0} (before : Text) (find : Db → Option A)
      → Runs S P
          (query Pt before (λ db. or_not_found (find db)))
          (λ a db. P db × (find db ≡ some a))
          X
  Runs-row before find =
      Runs-query Pt before _ (λ db p. row-Outcome P X find db (find db) p (hx db p) refl) hx

  -- a statement that runs where a test of the tables holds
  pub Runs-if_met :
      {Q : Db → Type 0} (before : Text) (t : Db → Bool) (u : Db → Db) (e : Error)
      → ((db : Db) → P db → t db ≡ true → S db (u db) × Q (u db))
      → Runs S P (execute Pt before (λ db. if t db then ok (u db) else err e)) (λ _. Q) X
  Runs-if_met {Q} before t u e h =
      Runs-execute Pt before _ (λ db p. if-Written S Q X db (u db) e (hx db p) (t db) (h db p)) hx

  -- a statement that is refused where a test of the tables holds
  pub Runs-unless :
      {Q : Db → Type 0} (before : Text) (t : Db → Bool) (u : Db → Db) (e : Error)
      → ((db : Db) → P db → t db ≡ false → S db (u db) × Q (u db))
      → Runs S P (execute Pt before (λ db. if t db then err e else ok (u db))) (λ _. Q) X
  Runs-unless {Q} before t u e h =
      Runs-execute Pt before _ (λ db p. unless-Written S Q X db (u db) e (hx db p) (t db) (h db p))
        hx
