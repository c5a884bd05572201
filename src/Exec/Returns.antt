-- ===== src/Exec/Returns.antt =====
-- What holds of every value that a method returns, if it returns one. One lemma for each way in
-- which methods are put together.
use superkb.Base.{◌≡◌, subst, Bool, true, false, Option, none, some, if◌then◌else◌}
use superkb.Base.Text.{Text}
use superkb.Domain.Errors.{Error, ok}
use superkb.Exec.{Exec, pure, fail, annotate, ◌>>=◌}
use superkb.Exec.Successes.{annotate-ok, pure-ok, fail-never, bind-ok, halfway}

pub record Returns {S A : Type 0} (Q : A → Type 0) (m : Exec S A) : Type 0 where
  pub run : (x y : S) (a : A) → m x ≡ (ok a, y) → Q a

module _ {S A : Type 0} {Q : A → Type 0} where
  pub Returns-pure : (a : A) → Q a → Returns {S = S} Q (pure a)
  Returns-pure a q = record { run = λ x y b h. subst Q (pure-ok a b x y h).0 q }

  pub Returns-fail : (e : Error) → Returns {S = S} Q (fail e)
  Returns-fail e = record { run = λ x y a h. absurd (fail-never e x y a h) }

  pub Returns-annotate :
      (before : Text) {m : Exec S A} → Returns Q m → Returns Q (annotate before m)
  Returns-annotate before {m} q = record {
    run = λ x y a h. q.run x y a (annotate-ok before m x a y h);
  }

  pub Returns-if :
      (b : Bool) {m n : Exec S A} → Returns Q m → Returns Q n → Returns Q (if b then m else n)
  Returns-if true q r = q
  Returns-if false q r = r

  pub Returns-option :
      {B : Type 0} (o : Option B) {m : Exec S A} {f : B → Exec S A}
      → Returns Q m
      → ((b : B) → Returns Q (f b))
      → Returns Q (elim o [ none ↦ m | some b ↦ f b ])
  Returns-option none q r = q
  Returns-option (some b) q r = r b

  pub Returns-bind :
      {B : Type 0} {R : B → Type 0} {m : Exec S B} {f : B → Exec S A}
      → Returns R m
      → ((b : B) → R b → Returns Q (f b))
      → Returns Q (m >>= f)
  Returns-bind {m} {f} r q = record {
    run = λ x y a h. elim (bind-ok m f x a y h) [
      | halfway b z first rest ↦ (q b (r.run x z b first)).run z y a rest
    ];
  }

-- nothing is said of the value
pub Returns-any : {S A : Type 0} (m : Exec S A) → Returns (λ _. Unit {0}) m
Returns-any m = record { run = λ x y a h. tt }
