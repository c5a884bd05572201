-- ===== src/Exec.antt =====
-- Methods that change shared state and may return an error. What was written before the error
-- stays written, so the state comes back beside the error too.
pub mod Successes
pub mod Returns
use superkb.Base.Text.{Text}
use superkb.Domain.Errors.{Error, Result, ok, err, annotated}

abbrev pub Exec {ℓ} : Type ℓ → Type ℓ → Type ℓ
Exec S A = S → Result A × S

module _ {ℓ} {S A : Type ℓ} where
  unfoldable pub pure : A → Exec S A
  pure a s = (ok a, s)

  -- `return nil, e`
  unfoldable pub fail : Error → Exec S A
  fail e s = (err e, s)

  unfoldable pub lift : Result A → Exec S A
  lift r s = (r, s)

  unfoldable pub gets : (S → A) → Exec S A
  gets f s = (ok (f s), s)

  abbrev pub valued : A × S → Result A × S
  valued (a, s) = (ok a, s)

  -- a call that cannot fail
  unfoldable pub observe : (S → A × S) → Exec S A
  observe f s = valued (f s)

  abbrev pub with_prefix : Text → Result A × S → Result A × S
  with_prefix before (ok a, s) = (ok a, s)
  with_prefix before (err e, s) = (err (annotated before e), s)

  -- `if err != nil { return nil, fmt.Errorf(before + ": %w", err) }`
  unfoldable pub annotate : Text → Exec S A → Exec S A
  annotate before m s = with_prefix before (m s)

module _ {ℓ} {S A B : Type ℓ} where
  abbrev pub resume : (A → Exec S B) → Result A × S → Result B × S
  resume f (ok a, s) = f a s
  resume f (err e, s) = (err e, s)

  abbrev pub either : (A → Exec S B) → (Error → Exec S B) → Result A × S → Result B × S
  either f g (ok a, s) = f a s
  either f g (err e, s) = g e s

  infixl 10 ◌>>=◌ ◌>>◌
  -- opening this opens the other combinators too
  unfoldable pub ◌>>=◌ : Exec S A → (A → Exec S B) → Exec S B
  unfolding pure fail lift gets annotate
  ◌>>=◌ m f s = resume f (m s)

  abbrev pub ◌>>◌ : Exec S A → Exec S B → Exec S B
  m >> n = m >>= λ _. n

  -- a call whose error is looked at: one continuation for each outcome
  unfoldable pub branch : Exec S A → (A → Exec S B) → (Error → Exec S B) → Exec S B
  branch m f g s = either f g (m s)

module _ {S A : Type 0} where
  abbrev pub forget : Result A × S → Result (Unit {0}) × S
  forget (_, s) = (ok tt, s)

  -- `_ = f()`: the error is dropped
  unfoldable pub attempt : Exec S A → Exec S (Unit {0})
  attempt m s = forget (m s)
