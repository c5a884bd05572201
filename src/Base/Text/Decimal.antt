-- ===== src/Base/Text/Decimal.antt =====
-- What the program uses of Go's `strconv` and of `fmt` with `%d`: decimal numbers as text.
pub mod RoundTrip
use Prim.Native.Nat.{ℕ, zero, suc, ◌+◌, ◌-◌, ◌*◌, ◌/◌, ◌%◌, ◌^◌, ◌<◌}
use mathlib.Core.Path.{◌≡◌, refl}
use mathlib.Core.Bool.{Bool, true, false, ◌||◌}
use mathlib.Core.Logic.{dite}
use mathlib.Core.Option.{Option, none, some}
use mathlib.Core.List.{List, [], ◌∷◌}
use mathlib.Core.WellFounded.{Acc, WellFounded}
use native.Mathlib.Decide.{dec_lt}
use native.Mathlib.Omega.{arith}
use superkb.Base.Int.{ℤ, pos, negsuc}
use superkb.Base.Tests.{ltb, leb, ◌==◌, if◌then◌else◌}
use superkb.Base.Text.{Text}

-- the largest `int`, which has 64 bits
abbrev pub max_int : ℕ
max_int = 2 ^ 63 - 1

below-Acc : (k n : ℕ) → n < k → Acc ◌<◌ n
below-Acc zero n h = absurd (omega arith)
below-Acc (suc k) n h = Acc.intro n (λ m lt. below-Acc k m (omega arith))

less_wf : WellFounded ◌<◌
unfolding below-Acc
less_wf = record { apply = λ n. below-Acc (suc n) n (omega arith) }

pub tenth-lt : {n : ℕ} → 9 < n → n / 10 < n
tenth-lt h = omega arith

-- the digits of `n`, ahead of those that are written
put_digits : (n : ℕ) → Acc ◌<◌ n → Text → Text
put_digits n (Acc.intro _ smaller) s =
    dite (dec_lt 9 n)
      (λ h. put_digits (n / 10) (smaller (n / 10) (tenth-lt h)) ((b'0' + n % 10) ∷ s))
      (λ _. (b'0' + n) ∷ s)

-- the decimal digits of a number
unfoldable pub decimal : ℕ → Text
unfolding put_digits less_wf dec_lt
decimal n = put_digits n (less_wf.apply n) []

-- `%d`
unfoldable pub int_text : ℤ → Text
unfolding decimal
int_text (pos n) = decimal n
int_text (negsuc n) = b'-' ∷ decimal (suc n)

-- the number that the digits spell behind `n`, if they all are digits
unfoldable pub scan_digits : Text → ℕ → Option ℕ
scan_digits [] n = some n
scan_digits (c ∷ s) n =
    if ltb c b'0' || ltb b'9' c then none else scan_digits s (n * 10 + (c - b'0'))

-- one or more digits
unfoldable pub scan_number : Text → Option ℕ
unfolding scan_digits
scan_number [] = none
scan_number (c ∷ s) = scan_digits (c ∷ s) 0

-- `n` and `-n` as an `int`, or the error for a number out of range
abbrev pub as_int : Option ℕ → Option ℤ
as_int none = none
as_int (some n) = if leb n max_int then some (pos n) else none

abbrev pub negated : ℕ → ℤ
negated zero = pos 0
negated (suc n) = negsuc n

abbrev pub as_negative_int : Option ℕ → Option ℤ
as_negative_int none = none
as_negative_int (some n) = if leb n (max_int + 1) then some (negated n) else none

-- `strconv.Atoi`, which returns an error for a text that is no `int`
unfoldable pub atoi : Text → Option ℤ
unfolding scan_number
atoi [] = none
atoi (c ∷ s) =
    if c == b'-'
    then as_negative_int (scan_number s)
    else if c == b'+'
    then as_int (scan_number s)
    else as_int (scan_number (c ∷ s))

-- the value that `strconv.Atoi` returns, beside its error if there is one: 0 for a text that is no
-- number, and the end of the range for a number beyond it
abbrev pub clamped : Option ℕ → ℤ
clamped none = pos 0
clamped (some n) = if leb n max_int then pos n else pos max_int

abbrev pub clamped_negative : Option ℕ → ℤ
clamped_negative none = pos 0
clamped_negative (some n) = if leb n (max_int + 1) then negated n else negsuc max_int

unfoldable pub atoi_value : Text → ℤ
unfolding scan_number
atoi_value [] = pos 0
atoi_value (c ∷ s) =
    if c == b'-'
    then clamped_negative (scan_number s)
    else if c == b'+'
    then clamped (scan_number s)
    else clamped (scan_number (c ∷ s))

thousand : int_text (pos 1024) ≡ b'1' ∷ b'0' ∷ b'2' ∷ b'4' ∷ []
unfolding int_text
thousand = refl
