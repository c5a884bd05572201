-- ===== src/Base/Rows.antt =====
-- What holds of every row of a table, and tables in which no two rows have the same key, under the
-- changes that statements make.
use superkb.Base.Tests.{◌==◌, if◌then◌else◌, Bool-cases}
use superkb.Base.Lists.{find_where, exists_where, select_where, update_where}
use Prim.Native.Nat.{ℕ}
use mathlib.Core.Path.{◌≡◌, refl, ◌∙◌}
use mathlib.Core.Logic.{inl, inr}
use mathlib.Core.Bool.{Bool, true, false}
use mathlib.Core.Option.{none}
use mathlib.Core.List.{List, [], ◌∷◌, ◌++◌}
use native.Mathlib.Omega.{arith}

module _ {A : Type 0} where
  abbrev pub All : (A → Type 0) → List A → Type 0
  All P [] = Unit {0}
  All P (x ∷ xs) = P x × All P xs

module _ {A : Type 0} (P : A → Type 0) where
  pub All-append : (x : A) (xs : List A) → P x → All P xs → All P (xs ++ (x ∷ []))
  All-append x [] p h = (p, tt)
  All-append x (y ∷ xs) p h = (h.0, All-append x xs p h.1)

  -- the rows that are left meet the condition too
  pub All-select :
      (Q : A → Type 0) (q : A → Bool) (xs : List A)
      → ((x : A) → P x → q x ≡ true → Q x)
      → All P xs
      → All Q (select_where q xs)
  unfolding select_where
  All-select Q q [] f h = tt
  All-select Q q (x ∷ xs) f h = elim (Bool-cases (q x)) [
    | inl e ↦ rw e (f x h.0 e, All-select Q q xs f h.1)
    | inr e ↦ rw e (All-select Q q xs f h.1)
  ]

  pub All-update :
      (Q : A → Type 0) (q : A → Bool) (g : A → A) (xs : List A)
      → ((x : A) → P x → Q x)
      → ((x : A) → P x → Q (g x))
      → All P xs
      → All Q (update_where q g xs)
  unfolding update_where
  All-update Q q g [] f k h = tt
  All-update Q q g (x ∷ xs) f k h = elim (Bool-cases (q x)) [
    | inl e ↦ rw e (k x h.0, All-update Q q g xs f k h.1)
    | inr e ↦ rw e (f x h.0, All-update Q q g xs f k h.1)
  ]

  pub All-weaken : (Q : A → Type 0) (xs : List A) → ((x : A) → P x → Q x) → All P xs → All Q xs
  All-weaken Q [] f h = tt
  All-weaken Q (x ∷ xs) f h = (f x h.0, All-weaken Q xs f h.1)

-- `same` is whether two rows have the same primary key.
module _ {A : Type 0} (same : A → A → Bool) where
  abbrev pub Unique : List A → Type 0
  Unique [] = Unit {0}
  Unique (x ∷ xs) = (exists_where (same x) xs ≡ false) × Unique xs

  exists-select :
      (x : A) (q : A → Bool) (xs : List A)
      → exists_where (same x) xs ≡ false
      → exists_where (same x) (select_where q xs) ≡ false
  unfolding exists_where select_where
  exists-select x q [] h = refl
  exists-select x q (y ∷ xs) h = ground (arith, exists-select x q xs)

  -- a deletion
  pub Unique-select : (q : A → Bool) (xs : List A) → Unique xs → Unique (select_where q xs)
  unfolding select_where
  Unique-select q [] u = tt
  Unique-select q (x ∷ xs) u = elim (Bool-cases (q x)) [
    | inl e ↦ rw e (exists-select x q xs u.0, Unique-select q xs u.1)
    | inr e ↦ rw e (Unique-select q xs u.1)
  ]

  module _ (sym_same : (x y : A) → same x y ≡ same y x) where
    exists-append :
        (x y : A) (xs : List A)
        → exists_where (same x) xs ≡ false
        → same x y ≡ false
        → exists_where (same x) (xs ++ (y ∷ [])) ≡ false
    unfolding exists_where
    exists-append x y [] h e = ground arith
    exists-append x y (z ∷ xs) h e = ground (arith, exists-append x y xs)

    -- an insertion of a row with a new key
    pub Unique-append :
        (x : A) (xs : List A)
        → exists_where (same x) xs ≡ false
        → Unique xs
        → Unique (xs ++ (x ∷ []))
    unfolding exists_where
    Unique-append x [] h u = (refl, tt)
    Unique-append x (y ∷ xs) h u = (
      exists-append y x xs u.0 (sym_same y x ∙ ground arith),
      Unique-append x xs (ground arith) u.1,
    )

  module _ (p : A → Bool) (g : A → A)
      (keeps : (x y : A) → (same x (g y) ≡ same x y) × (same (g x) y ≡ same x y)) where
    exists-update :
        (x : A) (xs : List A)
        → exists_where (same x) (update_where p g xs) ≡ exists_where (same x) xs
    unfolding exists_where update_where
    exists-update x [] = refl
    exists-update x (y ∷ xs) = elim (Bool-cases (p y)) [
      | inl e ↦ rw (e, (keeps x y).0, exists-update x xs)
      | inr e ↦ rw (e, exists-update x xs)
    ]

    exists-head :
        (x : A) (t : Bool) (xs : List A)
        → exists_where (same (if t then g x else x)) xs ≡ exists_where (same x) xs
    unfolding exists_where
    exists-head x false xs = refl
    exists-head x true [] = refl
    exists-head x true (y ∷ xs) = rw ((keeps x y).1, exists-head x true xs)

    -- an update that leaves the keys
    pub Unique-update : (xs : List A) → Unique xs → Unique (update_where p g xs)
    unfolding update_where
    Unique-update [] u = tt
    Unique-update (x ∷ xs) u =
        (exists-head x (p x) _ ∙ (exists-update x xs ∙ u.0), Unique-update xs u.1)

-- rows whose key is a number
module _ {A : Type 0} (key : A → ℕ) where
  abbrev pub same_key : A → A → Bool
  same_key x y = key x == key y

  pub same_key-sym : (x y : A) → same_key x y ≡ same_key y x
  same_key-sym x y = ground arith

  pub find-exists :
      (x : A) (xs : List A)
      → find_where (λ y. key y == key x) xs ≡ none
      → exists_where (same_key x) xs ≡ false
  unfolding find_where exists_where
  find-exists x [] h = refl
  find-exists x (y ∷ xs) h = ground (arith, find-exists x xs)
