-- ===== src/Lifecycle/Runs.antt =====
-- Triples for methods over the world: from tables in `P`, the method makes steps of `S`, and ends
-- in tables in `Q` of its result, or in `X` if it returns an error.
use superkb.Base.{◌≡◌, refl, Bool, true, false, if◌then◌else◌}
use superkb.Base.Text.{Text}
use superkb.Domain.Errors.{Error, Result, ok, err}
use superkb.Exec.{pure, fail, lift, annotate, attempt, branch, either, resume, ◌>>=◌}
use superkb.Postgres.Tables.{Db}
use superkb.Lifecycle.Steps.{here, Reach-trans}
use superkb.Lifecycle.Ends.{
  Outcome, Ends, Written, with_prefix-Ends, read-Ends, put_value-Ends, put_ext-Ends, forget-Ends,
  write-Ends,
}
use superkb.World.{World, Ports}
use superkb.World.Calls.{M, ask, call, query, execute}

pub record Runs {E A : Type 0} (S : Db → Db → Type 0) (P : Db → Type 0) (m : M E A)
    (Q : A → Db → Type 0) (X : Db → Type 0) : Type 0 where
  pub run : (w : World E) → P w.db → Ends S Q X w.db (m w)

module _ {E A : Type 0} {S : Db → Db → Type 0} {P X : Db → Type 0} {Q : A → Db → Type 0} where
  pub Runs-pure : (a : A) → ((db : Db) → P db → Q a db) → Runs {E = E} S P (pure a) Q X
  unfolding pure
  Runs-pure a h = record { run = λ w p. (here, h w.db p) }

  pub Runs-fail : (e : Error) → ((db : Db) → P db → X db) → Runs {E = E} S P (fail e) Q X
  unfolding fail
  Runs-fail e h = record { run = λ w p. (here, h w.db p) }

  pub Runs-lift :
      (r : Result A)
      → ((a : A) (db : Db) → P db → Q a db)
      → ((db : Db) → P db → X db)
      → Runs {E = E} S P (lift r) Q X
  unfolding lift
  Runs-lift (ok a) h hx = record { run = λ w p. (here, h a w.db p) }
  Runs-lift (err e) h hx = record { run = λ w p. (here, hx w.db p) }

  pub Runs-if :
      (b : Bool) {m n : M E A}
      → (b ≡ true → Runs S P m Q X)
      → (b ≡ false → Runs S P n Q X)
      → Runs S P (if b then m else n) Q X
  Runs-if true m n = m refl
  Runs-if false m n = n refl

  -- a weaker start, a stronger end
  pub Runs-weaken :
      {P' X' : Db → Type 0} {Q' : A → Db → Type 0} {m : M E A}
      → Runs S P' m Q' X'
      → ((db : Db) → P db → P' db)
      → ((a : A) (db : Db) → Q' a db → Q a db)
      → ((db : Db) → X' db → X db)
      → Runs S P m Q X
  Runs-weaken {X'} {Q'} {m} h hp hq hx = record { run = λ w p. go w.db (m w) (h.run w (hp w.db p)) }
    where
      go : (db : Db) (r : Result A × World E) → Ends S Q' X' db r → Ends S Q X db r
      go db (ok a, w) (reach, q) = (reach, hq a w.db q)
      go db (err e, w) (reach, x) = (reach, hx w.db x)

  -- a fact that the start implies
  pub Runs-known :
      {F : Type 0} {m : M E A} → ((db : Db) → P db → F) → (F → Runs S P m Q X) → Runs S P m Q X
  Runs-known get h = record { run = λ w p. (h (get w.db p)).run w p }

  pub Runs-annotate :
      (before : Text) {m : M E A} → Runs S P m Q X → Runs S P (annotate before m) Q X
  unfolding annotate
  Runs-annotate before {m} h = record {
    run = λ w p. with_prefix-Ends S Q X before w.db (m w) (h.run w p);
  }

  -- a query reads the tables as they stand
  pub Runs-query :
      (Pt : Ports E) (before : Text) (f : Db → Result A)
      → ((db : Db) → P db → Outcome Q X db (f db))
      → ((db : Db) → P db → X db)
      → Runs S P (query Pt before f) Q X
  unfolding query
  Runs-query Pt before f h hx = record {
    run = λ w p. read-Ends S Q X before f w (Pt.sql_fault w.ext) (h w.db p) (hx w.db p);
  }

module _ {E A : Type 0} {S : Db → Db → Type 0} {P X : Db → Type 0} where
  -- a call of the outside leaves the tables alone
  pub Runs-ask : (f : E → A × E) → Runs S P (ask f) (λ _. P) X
  unfolding ask
  Runs-ask f = record { run = λ w p. put_value-Ends S P X w (f w.ext) p }

  pub Runs-call : (f : E → Result A × E) → ((db : Db) → P db → X db) → Runs S P (call f) (λ _. P) X
  unfolding call
  Runs-call f h = record { run = λ w p. put_ext-Ends S P X w (f w.ext) p (h w.db p) }

  -- what a call that drops its error has left
  pub Runs-attempt : {m : M E A} → Runs S P m (λ _. X) X → Runs S P (attempt m) (λ _. X) X
  unfolding attempt
  Runs-attempt {m} h = record { run = λ w p. forget-Ends S P X w.db (m w) (h.run w p) }

module _ {E A B : Type 0} (S : Db → Db → Type 0) (X : Db → Type 0) (Q : A → Db → Type 0)
    (R : B → Db → Type 0) where
  resume-Ends :
      (f : A → M E B) (db : Db) (r : Result A × World E)
      → ((a : A) → Runs S (Q a) (f a) R X)
      → Ends S Q X db r
      → Ends S R X db (resume f r)
  resume-Ends f db (ok a, w) hf (reach, q) =
      let (reach', out) = (hf a).run w q in (Reach-trans reach reach', out)
  resume-Ends f db (err e, w) hf h = h

  either-Ends :
      (Y : Db → Type 0) (f : A → M E B) (g : Error → M E B) (db : Db) (r : Result A × World E)
      → ((a : A) → Runs S (Q a) (f a) R X)
      → ((e : Error) → Runs S Y (g e) R X)
      → Ends S Q Y db r
      → Ends S R X db (either f g r)
  either-Ends Y f g db (ok a, w) hf hg (reach, q) =
      let (reach', out) = (hf a).run w q in (Reach-trans reach reach', out)
  either-Ends Y f g db (err e, w) hf hg (reach, y) =
      let (reach', out) = (hg e).run w y in (Reach-trans reach reach', out)

module _ {E A B : Type 0} {S : Db → Db → Type 0} {P X : Db → Type 0} {Q : A → Db → Type 0}
    {R : B → Db → Type 0} where
  pub Runs-bind :
      {m : M E A} {f : A → M E B}
      → Runs S P m Q X
      → ((a : A) → Runs S (Q a) (f a) R X)
      → Runs S P (m >>= f) R X
  unfolding ◌>>=◌
  Runs-bind {m} {f} hm hf = record { run = λ w p. resume-Ends S X Q R f w.db (m w) hf (hm.run w p) }

  pub Runs-branch :
      {Y : Db → Type 0} {m : M E A} {f : A → M E B} {g : Error → M E B}
      → Runs S P m Q Y
      → ((a : A) → Runs S (Q a) (f a) R X)
      → ((e : Error) → Runs S Y (g e) R X)
      → Runs S P (branch m f g) R X
  unfolding branch
  Runs-branch {Y} {m} {f} {g} hm hf hg = record {
    run = λ w p. either-Ends S X Q R Y f g w.db (m w) hf hg (hm.run w p);
  }

module _ {E : Type 0} {S : Db → Db → Type 0} {P Q X : Db → Type 0} where
  -- a statement is one step, or changes nothing
  pub Runs-execute :
      (Pt : Ports E) (before : Text) (f : Db → Result Db)
      → ((db : Db) → P db → Written S Q X db (f db))
      → ((db : Db) → P db → X db)
      → Runs S P (execute Pt before f) (λ _. Q) X
  unfolding execute
  Runs-execute Pt before f h hx = record {
    run = λ w p. write-Ends S Q X before f w (Pt.sql_fault w.ext) (h w.db p) (hx w.db p);
  }
