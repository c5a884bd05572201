-- ===== src/Domain/Errors.antt =====
-- Go errors as the program builds them: the sentinels of domain/document.go, errors of other
-- code, `fmt.Errorf` with `%w`, and `errors.Join`; what `errors.Is` and `Error()` make of them.
use superkb.Base.{Bool, true, false, ◌||◌, [], ◌++◌}
use superkb.Base.Text.{Text, lit}

pub data Sentinel : Type 0 where
  not_found invalid_input conflict : Sentinel

pub data Error : Type 0 where
  sentinel : Sentinel → Error
  -- an error with a text and no chain
  opaque : Text → Error
  -- `fmt.Errorf(before + "%w" + after, cause)`
  wrap : Text → Error → Text → Error
  -- `errors.Join`
  join : Error → Error → Error

-- `Error()`
unfoldable pub error_text : Error → Text
error_text (sentinel not_found) = lit "resource not found"
error_text (sentinel invalid_input) = lit "invalid input"
error_text (sentinel conflict) = lit "resource conflict"
error_text (opaque s) = s
error_text (wrap before e after) = before ++ (error_text e ++ after)
error_text (join d e) = error_text d ++ (lit "\n" ++ error_text e)

abbrev pub sentinel_eq : Sentinel → Sentinel → Bool
sentinel_eq not_found not_found = true
sentinel_eq invalid_input invalid_input = true
sentinel_eq conflict conflict = true
sentinel_eq _ _ = false

-- `errors.Is` for a sentinel
unfoldable pub is : Error → Sentinel → Bool
is (sentinel s) t = sentinel_eq s t
is (opaque _) t = false
is (wrap _ e _) t = is e t
is (join d e) t = is d t || is e t

-- a pair `(value, error)` of which one is set
pub data Result {ℓ} (A : Type ℓ) : Type ℓ where
  ok : A → Result A
  err : Error → Result A

-- `fmt.Errorf(before + ": %w", e)`
abbrev pub annotated : Text → Error → Error
annotated before e = wrap before e []

-- `fmt.Errorf(before + "%w" + after, s)` at a sentinel
abbrev pub refusal : Text → Sentinel → Text → Error
refusal before s after = wrap before (sentinel s) after
