-- ===== src/Exec/Successes.antt =====
-- What a method that returned a value has done.
use superkb.Base.{◌≡◌, refl, ap, arith, Bool, true, false, if◌then◌else◌}
use superkb.Base.Text.{Text}
use superkb.Domain.Errors.{Error, Result, ok, err}
use superkb.Exec.{Exec, pure, fail, lift, observe, valued, annotate, with_prefix, resume, ◌>>=◌}

module _ {S A : Type 0} where
  with_prefix-ok :
      (before : Text) (r : Result A × S) (a : A) (s : S)
      → with_prefix before r ≡ (ok a, s)
      → r ≡ (ok a, s)
  with_prefix-ok before (ok b, t) a s h = h
  with_prefix-ok before (err e, t) a s h = cc

  pub annotate-ok :
      (before : Text) (m : Exec S A) (x : S) (a : A) (y : S)
      → annotate before m x ≡ (ok a, y)
      → m x ≡ (ok a, y)
  unfolding annotate
  annotate-ok before m x a y h = with_prefix-ok before (m x) a y h

  pub pure-ok : (a b : A) (x y : S) → pure a x ≡ (ok b, y) → (a ≡ b) × (x ≡ y)
  unfolding pure
  pure-ok a b x y h = ground arith

  pub fail-never : (e : Error) (x y : S) (a : A) → ¬ (fail e x ≡ (ok a, y))
  unfolding fail
  fail-never e x y a h = cc

  pub lift-ok : (r : Result A) (a : A) (x y : S) → lift r x ≡ (ok a, y) → (r ≡ ok a) × (x ≡ y)
  unfolding lift
  lift-ok r a x y h = (ap (λ p. p.0) h, ap (λ p. p.1) h)

  valued-ok : (p : A × S) (a : A) (y : S) → valued p ≡ (ok a, y) → p ≡ (a, y)
  valued-ok (b, z) a y h = ground arith

  pub observe-ok : (f : S → A × S) (x : S) (a : A) (y : S) → observe f x ≡ (ok a, y) → f x ≡ (a, y)
  unfolding observe
  observe-ok f x a y h = valued-ok (f x) a y h

module _ {S A B : Type 0} where
  -- the value and the state in the middle of a chain
  pub data Halfway (m : Exec S A) (f : A → Exec S B) (x : S) (b : B) (y : S) : Type 0 where
    halfway : (a : A) (z : S) → m x ≡ (ok a, z) → f a z ≡ (ok b, y) → Halfway m f x b y

  resume-ok :
      (m : Exec S A) (f : A → Exec S B) (x : S) (r : Result A × S) (b : B) (y : S)
      → m x ≡ r
      → resume f r ≡ (ok b, y)
      → Halfway m f x b y
  resume-ok m f x (ok a, z) b y e h = halfway a z e h
  resume-ok m f x (err d, z) b y e h = cc

  pub bind-ok :
      (m : Exec S A) (f : A → Exec S B) (x : S) (b : B) (y : S)
      → (m >>= f) x ≡ (ok b, y)
      → Halfway m f x b y
  unfolding ◌>>=◌
  bind-ok m f x b y h = resume-ok m f x (m x) b y refl h

module _ {S A B : Type 0} where
  -- a value that comes of a test comes of the branch that does not fail
  pub if_fail-ok :
      (refused : Bool) (m : Exec S B) (e : B → Error) (n : Exec S A) (x : S) (a : A) (y : S)
      → (if refused then (m >>= λ b. fail (e b)) else n) x ≡ (ok a, y)
      → (refused ≡ false) × (n x ≡ (ok a, y))
  if_fail-ok true m e n x a y h = elim (bind-ok _ _ x a y h) [
    | halfway b z _ failed ↦ absurd (fail-never (e b) z y a failed)
  ]
  if_fail-ok false m e n x a y h = (refl, h)
