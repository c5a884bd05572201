-- ===== src/Healthy/Totals.antt =====
-- Triples for methods that return a value and no error: from tables in `I`, to tables in `Q` of
-- the value. One lemma for each way in which methods are put together.
use superkb.Base.{◌≡◌, refl, sym, subst, Bool, true, false, if◌then◌else◌}
use superkb.Base.Text.{Text}
use superkb.Domain.Errors.{Error, Result, ok, err}
use superkb.Exec.{pure, annotate, branch, either, resume, with_prefix, ◌>>=◌}
use superkb.Healthy.Statements.{Answers, query-up}
use superkb.Lifecycle.Ends.{Any}
use superkb.Postgres.Tables.{Db}
use superkb.World.{World, Ports}
use superkb.World.Calls.{M, ask, call, put_ext, query}

-- the outcome of a call is a value
abbrev pub Succeeds : {A : Type 0} → Result A → Type 0
Succeeds (ok a) = Unit {0}
Succeeds (err e) = ⊥

-- an outcome with a value, and what holds of it
abbrev pub Given : {E A : Type 0} → (A → Db → Type 0) → Result A × World E → Type 0
Given Q (ok a, w) = Q a w.db
Given Q (err e, w) = ⊥

pub record Total {E A : Type 0} (I : Db → Type 0) (m : M E A) (Q : A → Db → Type 0) : Type 0 where
  pub run : (w : World E) → I w.db → Given Q (m w)

module _ {E A : Type 0} (Q : A → Db → Type 0) where
  Given-weaken :
      (Q' : A → Db → Type 0) (r : Result A × World E)
      → ((a : A) (db : Db) → Q a db → Q' a db)
      → Given Q r
      → Given Q' r
  Given-weaken Q' (ok a, w) h q = h a w.db q
  Given-weaken Q' (err e, w) h q = q

  Given-with_prefix :
      (before : Text) (r : Result A × World E) → Given Q r → Given Q (with_prefix before r)
  Given-with_prefix before (ok a, w) h = h
  Given-with_prefix before (err e, w) h = h

module _ {E A B : Type 0} (Q : A → Db → Type 0) (R : B → Db → Type 0) where
  Given-resume :
      (f : A → M E B) (r : Result A × World E)
      → ((a : A) → Total (Q a) (f a) R)
      → Given Q r
      → Given R (resume f r)
  Given-resume f (ok a, w) h q = (h a).run w q
  Given-resume f (err e, w) h q = absurd q

  Given-either :
      (f : A → M E B) (g : Error → M E B) (r : Result A × World E)
      → ((a : A) → Total (Q a) (f a) R)
      → Given Q r
      → Given R (either f g r)
  Given-either f g (ok a, w) h q = (h a).run w q
  Given-either f g (err e, w) h q = absurd q

module _ {E A : Type 0} (I : Db → Type 0) where
  Given-put_ext :
      (w : World E) (r : Result A × E) → I w.db → Succeeds r.0 → Given (λ (_ : A). I) (put_ext w r)
  Given-put_ext w (ok a, x) i s = i
  Given-put_ext w (err e, x) i s = absurd s

module _ {E A : Type 0} {I : Db → Type 0} {Q : A → Db → Type 0} where
  pub Total-pure : (a : A) → ((db : Db) → I db → Q a db) → Total {E = E} I (pure a) Q
  unfolding pure
  Total-pure a h = record { run = λ w i. h w.db i }

  pub Total-if :
      (b : Bool) {m n : M E A}
      → (b ≡ true → Total I m Q)
      → (b ≡ false → Total I n Q)
      → Total I (if b then m else n) Q
  Total-if true m n = m refl
  Total-if false m n = n refl

  pub Total-weaken :
      {Q' : A → Db → Type 0} {m : M E A}
      → Total I m Q
      → ((a : A) (db : Db) → Q a db → Q' a db)
      → Total I m Q'
  Total-weaken {Q'} {m} h k = record { run = λ w i. Given-weaken Q Q' (m w) k (h.run w i) }

  -- a fact that the tables tell
  pub Total-known :
      {F : Type 0} {m : M E A} → ((db : Db) → I db → F) → (F → Total Any m Q) → Total I m Q
  Total-known get h = record { run = λ w i. (h (get w.db i)).run w tt }

  pub Total-annotate : (before : Text) {m : M E A} → Total I m Q → Total I (annotate before m) Q
  unfolding annotate
  Total-annotate before {m} h = record { run = λ w i. Given-with_prefix Q before (m w) (h.run w i) }

module _ {E A B : Type 0} {I : Db → Type 0} {Q : A → Db → Type 0} {R : B → Db → Type 0} where
  pub Total-bind :
      {m : M E A} {f : A → M E B}
      → Total I m Q
      → ((a : A) → Total (Q a) (f a) R)
      → Total I (m >>= f) R
  unfolding ◌>>=◌
  Total-bind {m} {f} h k = record { run = λ w i. Given-resume Q R f (m w) k (h.run w i) }

  -- the continuation for an error is not reached
  pub Total-branch :
      {m : M E A} {f : A → M E B} (g : Error → M E B)
      → Total I m Q
      → ((a : A) → Total (Q a) (f a) R)
      → Total I (branch m f g) R
  unfolding branch
  Total-branch {m} {f} g h k = record { run = λ w i. Given-either Q R f g (m w) k (h.run w i) }

module _ {E : Type 0} {A : Type 0} {I : Db → Type 0} where
  pub Total-ask : (f : E → A × E) → Total I (ask f) (λ _. I)
  unfolding ask
  Total-ask f = record { run = λ w i. i }

  -- a call that succeeds, whatever it is asked
  pub Total-call : (f : E → Result A × E) → ((x : E) → Succeeds (f x).0) → Total I (call f) (λ _. I)
  unfolding call
  Total-call f h = record { run = λ w i. Given-put_ext I w (f w.ext) i (h w.ext) }

module _ {E A : Type 0} (Q : A → Db → Type 0) where
  pub Given-pair :
      (r : Result A × World E) (a : A) (w : World E) → r ≡ (ok a, w) → Q a w.db → Given Q r
  Given-pair r a w e q = subst (λ r. Given Q r) (sym e) q

module _ {E : Type 0} (P : Ports E) (up : Answers P) {I : Db → Type 0} where
  -- rows that are read
  pub Total-query :
      {A : Type 0} (before : Text) (f : Db → A)
      → Total I (query P before (λ db. ok (f db))) (λ _. I)
  Total-query before f = record {
    run = λ w i. Given-pair (λ _. I) _ (f w.db) _ (query-up P up w before _) i;
  }

module _ {E A B : Type 0} (R : B → Db → Type 0) where
  Given-either_both :
      (f : A → M E B) (g : Error → M E B) (r : Result A × World E)
      → ((a : A) → Total Any (f a) R)
      → ((e : Error) → Total Any (g e) R)
      → Given R (either f g r)
  Given-either_both f g (ok a, w) h k = (h a).run w tt
  Given-either_both f g (err e, w) h k = (k e).run w tt

  -- a call that may fail, where the code goes on in both cases
  pub Total-either :
      (m : M E A) {f : A → M E B} {g : Error → M E B}
      → ((a : A) → Total Any (f a) R)
      → ((e : Error) → Total Any (g e) R)
      → Total Any (branch m f g) R
  unfolding branch
  Total-either m {f} {g} h k = record { run = λ w _. Given-either_both f g (m w) h k }
