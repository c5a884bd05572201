-- ===== src/Base/Keyed.antt =====
-- Rows found by a numeric key, under the changes that statements make to a table.
use superkb.Base.Tests.{◌==◌, if◌then◌else◌}
use superkb.Base.Lists.{find_where, select_where, update_where}
use Prim.Native.Nat.{ℕ}
use mathlib.Core.Path.{◌≡◌, refl}
use mathlib.Core.Bool.{Bool, true, not}
use mathlib.Core.Option.{Option, none, some}
use mathlib.Core.Option
use mathlib.Core.List.{List, [], ◌∷◌, ◌++◌}
use native.Mathlib.Omega.{arith}

module _ {A : Type 0} (key : A → ℕ) where
  -- WHERE key = i
  abbrev pub find_key : ℕ → List A → Option A
  find_key i = find_where (λ x. key x == i)

  -- What is found has the key.
  pub key-find_key : (i : ℕ) (x : A) (xs : List A) → find_key i xs ≡ some x → key x ≡ i
  unfolding find_where
  key-find_key i x [] h = cc
  key-find_key i x (y ∷ xs) h = ground (arith, key-find_key i x xs)

  -- An insertion keeps the rows that were found.
  pub find_key-append_found :
      (i : ℕ) (x y : A) (xs : List A)
      → find_key i xs ≡ some x
      → find_key i (xs ++ (y ∷ [])) ≡ some x
  unfolding find_where
  find_key-append_found i x y [] h = cc
  find_key-append_found i x y (z ∷ xs) h = ground (arith, find_key-append_found i x y xs)

  -- An inserted row is found by its key, if no row was.
  pub find_key-append_new :
      (i : ℕ) (y : A) (xs : List A)
      → find_key i xs ≡ none
      → find_key i (xs ++ (y ∷ [])) ≡ (if key y == i then some y else none)
  unfolding find_where
  find_key-append_new i y [] h = refl
  find_key-append_new i y (z ∷ xs) h = ground (arith, find_key-append_new i y xs)

  -- A row of another key is no hindrance.
  pub find_key-append_other :
      (i : ℕ) (y : A) (xs : List A)
      → (key y == i) ≡ Bool.false
      → find_key i (xs ++ (y ∷ [])) ≡ find_key i xs
  unfolding find_where
  find_key-append_other i y [] h = ground arith
  find_key-append_other i y (z ∷ xs) h = ground (arith, find_key-append_other i y xs h)

  -- A deletion by key takes the rows of that key and no other.
  pub find_key-delete :
      (i n : ℕ) (xs : List A)
      → find_key i (select_where (λ x. not (key x == n)) xs)
        ≡ (if i == n then none else find_key i xs)
  unfolding find_where select_where
  find_key-delete i n [] = ground arith
  find_key-delete i n (x ∷ xs) = ground (arith, find_key-delete i n xs)

  -- A deletion by another condition keeps a row that does not meet it.
  pub find_key-select :
      (i : ℕ) (q : A → Bool) (x : A) (xs : List A)
      → find_key i xs ≡ some x
      → q x ≡ true
      → find_key i (select_where q xs) ≡ some x
  unfolding find_where select_where
  find_key-select i q x [] h k = cc
  find_key-select i q x (y ∷ xs) h k = ground (arith, find_key-select i q x xs)

  -- An update of the rows of one key.
  pub find_key-update :
      (i n : ℕ) (f : A → A) (xs : List A)
      → ((x : A) → key (f x) ≡ key x)
      → find_key i (update_where (λ x. key x == n) f xs)
        ≡ (if i == n then Option.map f (find_key i xs) else find_key i xs)
  unfolding find_where update_where
  find_key-update i n f [] keeps = ground arith
  find_key-update i n f (x ∷ xs) keeps = ground (arith, keeps x, find_key-update i n f xs keeps)
