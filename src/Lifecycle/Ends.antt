-- ===== src/Lifecycle/Ends.antt =====
-- How a method may end: the steps that were made, and what holds of the result and the tables.
-- One lemma for each way in which methods are put together.
use superkb.Base.{Option, none, some}
use superkb.Base.Text.{Text}
use superkb.Domain.Errors.{Error, Result, ok, err}
use superkb.Exec.{with_prefix, forget}
use superkb.Postgres.Tables.{Db}
use superkb.Lifecycle.Steps.{Reach, here, next}
use superkb.World.{World}
use superkb.World.Calls.{put_value, put_ext, read, commit, write}

-- tables about which nothing is known
abbrev pub Any : Db → Type 0
Any db = Unit {0}

abbrev pub Outcome : {A : Type 0} → (A → Db → Type 0) → (Db → Type 0) → Db → Result A → Type 0
Outcome Q X db (ok a) = Q a db
Outcome Q X db (err e) = X db

abbrev pub Ends :
    {E A : Type 0} (S : Db → Db → Type 0) (Q : A → Db → Type 0) (X : Db → Type 0)
    → Db
    → Result A × World E
    → Type 0
Ends S Q X db r = Reach S db r.1.db × Outcome Q X r.1.db r.0

-- the tables that a statement writes, or the condition in which it is refused
abbrev pub Written : (Db → Db → Type 0) → (Db → Type 0) → (Db → Type 0) → Db → Result Db → Type 0
Written S Q X db (ok db') = S db db' × Q db'
Written S Q X db (err e) = X db

module _ {E A : Type 0} (S : Db → Db → Type 0) (Q : A → Db → Type 0) (X : Db → Type 0) where
  pub with_prefix-Ends :
      (before : Text) (db : Db) (r : Result A × World E)
      → Ends S Q X db r
      → Ends S Q X db (with_prefix before r)
  with_prefix-Ends before db (ok a, w) h = h
  with_prefix-Ends before db (err e, w) h = h

  pub read-Ends :
      (before : Text) (f : Db → Result A) (w : World E) (r : Option Error × E)
      → Outcome Q X w.db (f w.db)
      → X w.db
      → Ends S Q X w.db (read before f w r)
  read-Ends before f w (none, x) h hx = (here, h)
  read-Ends before f w (some e, x) h hx = (here, hx)

module _ {E : Type 0} (S : Db → Db → Type 0) (P X : Db → Type 0) where
  pub put_value-Ends :
      {A : Type 0} (w : World E) (r : A × E) → P w.db → Ends S (λ (a : A). P) X w.db (put_value w r)
  put_value-Ends w (a, x) p = (here, p)

  pub put_ext-Ends :
      {A : Type 0} (w : World E) (r : Result A × E)
      → P w.db
      → X w.db
      → Ends S (λ (a : A). P) X w.db (put_ext w r)
  put_ext-Ends w (ok a, x) p h = (here, p)
  put_ext-Ends w (err e, x) p h = (here, h)

  pub forget-Ends :
      {A : Type 0} (db : Db) (r : Result A × World E)
      → Ends S (λ (a : A). X) X db r
      → Ends S (λ (a : Unit {0}). X) X db (forget r)
  forget-Ends db (ok a, w) h = h
  forget-Ends db (err e, w) h = h

  pub commit-Ends :
      (w : World E) (x : E) (r : Result Db)
      → Written S P X w.db r
      → Ends S (λ (_ : Unit {0}). P) X w.db (commit w x r)
  commit-Ends w x (ok db') (s, q) = (next here s, q)
  commit-Ends w x (err e) h = (here, h)

  pub write-Ends :
      (before : Text) (f : Db → Result Db) (w : World E) (r : Option Error × E)
      → Written S P X w.db (f w.db)
      → X w.db
      → Ends S (λ (_ : Unit {0}). P) X w.db (write before f w r)
  write-Ends before f w (none, x) h hx = commit-Ends w x (f w.db) h
  write-Ends before f w (some e, x) h hx = (here, hx)
