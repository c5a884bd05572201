-- ===== src/Rules/Quiet.antt =====
-- Methods that do not touch the build queue, for each way in which methods are put together.
use superkb.Base.{◌≡◌, refl, ◌∙◌, Bool, true, false, if◌then◌else◌, Option, none, some}
use superkb.Base.Text.{Text}
use superkb.Domain.Errors.{Error, Result, ok, err}
use superkb.Exec.{pure, fail, annotate, attempt, branch, with_prefix, resume, either, ◌>>=◌}
use superkb.Postgres.Tables.{Db}
use superkb.World.{World, Ports}
use superkb.World.Calls.{M, call, ask, query, execute, read, write, commit}

-- the method leaves the queue as it is
pub record Quiet {E A : Type 0} (m : M E A) : Type 0 where
  pub run : (w : World E) → (m w).1.queue ≡ w.queue

module _ {E A : Type 0} where
  pub Quiet-pure : (a : A) → Quiet {E = E} (pure a)
  unfolding pure
  Quiet-pure a = record { run = λ w. refl }

  pub Quiet-fail : (e : Error) → Quiet {E = E} {A = A} (fail e)
  unfolding fail
  Quiet-fail e = record { run = λ w. refl }

  pub Quiet-call : (f : E → Result A × E) → Quiet (call f)
  unfolding call
  Quiet-call f = record { run = λ w. refl }

  pub Quiet-ask : (f : E → A × E) → Quiet (ask f)
  unfolding ask
  Quiet-ask f = record { run = λ w. refl }

  queue-read :
      (before : Text) (f : Db → Result A) (w : World E) (r : Option Error × E)
      → (read before f w r).1.queue ≡ w.queue
  queue-read before f w (none, x) = refl
  queue-read before f w (some e, x) = refl

  pub Quiet-query : (P : Ports E) (before : Text) (f : Db → Result A) → Quiet (query P before f)
  unfolding query
  Quiet-query P before f = record { run = λ w. queue-read before f w (P.sql_fault w.ext) }

  queue-with_prefix :
      (before : Text) (r : Result A × World E) → (with_prefix before r).1.queue ≡ r.1.queue
  queue-with_prefix before (ok a, w) = refl
  queue-with_prefix before (err e, w) = refl

  pub Quiet-annotate : (before : Text) {m : M E A} → Quiet m → Quiet (annotate before m)
  unfolding annotate
  Quiet-annotate before {m} q = record { run = λ w. queue-with_prefix before (m w) ∙ q.run w }

  pub Quiet-attempt : {m : M E A} → Quiet m → Quiet (attempt m)
  unfolding attempt
  Quiet-attempt {m} q = record { run = λ w. q.run w }

  pub Quiet-if : (b : Bool) {m n : M E A} → Quiet m → Quiet n → Quiet (if b then m else n)
  Quiet-if true q r = q
  Quiet-if false q r = r

module _ {E : Type 0} where
  queue-commit : (w : World E) (x : E) (r : Result Db) → (commit w x r).1.queue ≡ w.queue
  queue-commit w x (ok db) = refl
  queue-commit w x (err e) = refl

  queue-write :
      (before : Text) (f : Db → Result Db) (w : World E) (r : Option Error × E)
      → (write before f w r).1.queue ≡ w.queue
  queue-write before f w (none, x) = queue-commit w x (f w.db)
  queue-write before f w (some e, x) = refl

  pub Quiet-execute :
      (P : Ports E) (before : Text) (f : Db → Result Db) → Quiet (execute P before f)
  unfolding execute
  Quiet-execute P before f = record { run = λ w. queue-write before f w (P.sql_fault w.ext) }

module _ {E A B : Type 0} where
  queue-resume :
      (f : A → M E B) (r : Result A × World E)
      → ((a : A) → Quiet (f a))
      → (resume f r).1.queue ≡ r.1.queue
  queue-resume f (ok a, w) q = (q a).run w
  queue-resume f (err e, w) q = refl

  queue-either :
      (f : A → M E B) (g : Error → M E B) (r : Result A × World E)
      → ((a : A) → Quiet (f a))
      → ((e : Error) → Quiet (g e))
      → (either f g r).1.queue ≡ r.1.queue
  queue-either f g (ok a, w) q p = (q a).run w
  queue-either f g (err e, w) q p = (p e).run w

  pub Quiet-bind : {m : M E A} {f : A → M E B} → Quiet m → ((a : A) → Quiet (f a)) → Quiet (m >>= f)
  unfolding ◌>>=◌
  Quiet-bind {m} {f} q p = record { run = λ w. queue-resume f (m w) p ∙ q.run w }

  pub Quiet-branch :
      {m : M E A} {f : A → M E B} {g : Error → M E B}
      → Quiet m
      → ((a : A) → Quiet (f a))
      → ((e : Error) → Quiet (g e))
      → Quiet (branch m f g)
  unfolding branch
  Quiet-branch {m} {f} {g} q p r = record { run = λ w. queue-either f g (m w) p r ∙ q.run w }
