-- ===== src/Base/Text/Decimal/RoundTrip.antt =====
-- Reading a decimal number back.
use Prim.Native.Nat.{ℕ, suc, ◌+◌, ◌/◌, ◌%◌, ◌≤◌, ◌<◌}
use mathlib.Core.Path.{◌≡◌, refl, sym, subst, ◌∙◌}
use mathlib.Core.Logic.{ite, dite}
use mathlib.Core.Option.{some}
use mathlib.Core.List.{[], ◌∷◌}
use mathlib.Core.WellFounded
use mathlib.Core.WellFounded.{Acc, Acc-prop}
use native.Mathlib.Decide.{dec_lt}
use native.Mathlib.Omega.{arith}
use superkb.Base.Int.{ℤ, pos, negsuc}
use superkb.Base.Text.{Text}
use superkb.Base.Text.Decimal.{
  max_int, less_wf, tenth-lt, put_digits, decimal, int_text, scan_digits, scan_number, atoi, as_int,
}

-- The proof that a number is accessible does not matter.
put_digits_step :
    (n : ℕ) (w : Acc ◌<◌ n) (w' : Acc ◌<◌ (n / 10)) (s : Text)
    → put_digits n w s
      ≡ ite (dec_lt 9 n) (put_digits (n / 10) w' ((b'0' + n % 10) ∷ s)) ((b'0' + n) ∷ s)
unfolding put_digits
put_digits_step n (Acc.intro _ smaller) w' s = λ i.
    dite (dec_lt 9 n)
      (λ h.
        put_digits (n / 10) (Acc-prop (smaller (n / 10) (tenth-lt h)) w' i) ((b'0' + n % 10) ∷ s))
      (λ _. (b'0' + n) ∷ s)

digits_of : ℕ → Text → Text
digits_of n = put_digits n (less_wf.apply n)

digits_of_step :
    (n : ℕ) (s : Text)
    → digits_of n s ≡ ite (dec_lt 9 n) (digits_of (n / 10) ((b'0' + n % 10) ∷ s)) ((b'0' + n) ∷ s)
unfolding digits_of
digits_of_step n = put_digits_step n _ _

scan_last : (n : ℕ) (s : Text) → scan_digits ((b'0' + n % 10) ∷ s) (n / 10) ≡ scan_digits s n
unfolding scan_digits
scan_last n s = ground arith

scan_only : (n : ℕ) (s : Text) → n ≤ 9 → scan_digits ((b'0' + n) ∷ s) 0 ≡ scan_digits s n
unfolding scan_digits
scan_only n s h = ground arith

scan-digits_of : (n : ℕ) (s : Text) → scan_digits (digits_of n s) 0 ≡ scan_digits s n
scan-digits_of n =
    WellFounded.induction less_wf
      {C = λ m. (s : Text) → scan_digits (digits_of m s) 0 ≡ scan_digits s m} n
      λ m ih s. grind (arith, digits_of_step m s, scan_last m s, scan_only m s, ih (m / 10))

-- the first byte is a digit
pub data IsNumeral : Text → Type 0 where
  numeral : {c : ℕ} {s : Text} → b'0' ≤ c → c ≤ b'9' → IsNumeral (c ∷ s)

ite-IsNumeral :
    {A : Type 0} {s t : Text} (d : Dec A)
    → (A → IsNumeral s)
    → (¬ A → IsNumeral t)
    → IsNumeral (ite d s t)
ite-IsNumeral (yes a) f g = f a
ite-IsNumeral (no h) f g = g h

digits_of-IsNumeral : (n : ℕ) (s : Text) → IsNumeral (digits_of n s)
digits_of-IsNumeral n =
    WellFounded.induction less_wf {C = λ m. (s : Text) → IsNumeral (digits_of m s)} n λ m ih s.
      subst IsNumeral (sym (digits_of_step m s)) (
        ite-IsNumeral (dec_lt 9 m) (λ h. ih (m / 10) (tenth-lt h) _)
          (λ h. numeral (omega arith) (omega (arith, h))))

scan_number-numeral : {s : Text} → IsNumeral s → scan_number s ≡ scan_digits s 0
unfolding scan_number
scan_number-numeral (numeral h k) = refl

atoi-numeral : {s : Text} → IsNumeral s → atoi s ≡ as_int (scan_number s)
unfolding atoi
atoi-numeral (numeral h k) = ground arith

scan_number-decimal : (n : ℕ) → scan_number (decimal n) ≡ some n
unfolding decimal scan_digits digits_of
scan_number-decimal n = scan_number-numeral (digits_of-IsNumeral n []) ∙ scan-digits_of n []

-- a number within the range of Go's `int`
abbrev pub IsInt : ℤ → Type 0
IsInt (pos n) = n ≤ max_int
IsInt (negsuc n) = n ≤ max_int

decimal-IsNumeral : (n : ℕ) → IsNumeral (decimal n)
unfolding decimal digits_of
decimal-IsNumeral n = digits_of-IsNumeral n []

pub atoi-int_text : (z : ℤ) → IsInt z → atoi (int_text z) ≡ some z
unfolding int_text atoi
atoi-int_text (pos n) h =
    atoi-numeral (decimal-IsNumeral n) ∙ rw (scan_number-decimal n) (ground arith)
atoi-int_text (negsuc n) h = rw (scan_number-decimal (suc n)) (ground arith)
