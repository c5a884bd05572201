-- ===== src/Base/Text/Strings.antt =====
-- What the program uses of Go's package `strings`, on bytes. `ToLower` and the notion of white
-- space are those of ASCII: bytes from 128 on are letters that have no case.
use superkb.Base.Tests.{◌==◌, leb, if◌then◌else◌}
use superkb.Base.Text.{Text}
use Prim.Native.Nat.{ℕ, suc, ◌+◌}
use mathlib.Core.Bool.{Bool, true, false, ◌&&◌, ◌||◌}
use mathlib.Core.Option.{Option, none, some}
use mathlib.Core.List.{List, [], ◌∷◌, ◌++◌, reverse, map}

-- the white space of `unicode.IsSpace` below 128
abbrev pub is_space : ℕ → Bool
is_space c = (leb 9 c && leb c 13) || c == 32

-- `TrimLeft(s, c)`
unfoldable pub trim_left : ℕ → Text → Text
trim_left c [] = []
trim_left c (x ∷ xs) = if x == c then trim_left c xs else x ∷ xs

-- `TrimRight(s, c)`
unfoldable pub trim_right : ℕ → Text → Text
unfolding trim_left
trim_right c s = reverse (trim_left c (reverse s))

-- `TrimSpace(s) == ""`
unfoldable pub is_blank : Text → Bool
is_blank [] = true
is_blank (x ∷ xs) = is_space x && is_blank xs

-- the text behind the white space at its front
unfoldable pub trim_front : Text → Text
trim_front [] = []
trim_front (x ∷ xs) = if is_space x then trim_front xs else x ∷ xs

-- `TrimSpace(s)`
unfoldable pub trim_space : Text → Text
unfolding trim_front
trim_space s = reverse (trim_front (reverse (trim_front s)))

-- `ToLower`
unfoldable pub to_lower : Text → Text
to_lower = map (λ c. if leb b'A' c && leb c b'Z' then c + 32 else c)

-- `HasPrefix(s, p)`
unfoldable pub has_prefix : Text → Text → Bool
has_prefix s [] = true
has_prefix [] (y ∷ p) = false
has_prefix (x ∷ s) (y ∷ p) = x == y && has_prefix s p

-- `HasSuffix(s, p)`
unfoldable pub has_suffix : Text → Text → Bool
unfolding has_prefix
has_suffix s p = has_prefix (reverse s) (reverse p)

-- `Contains(s, t)`
unfoldable pub contains : Text → Text → Bool
unfolding has_prefix
contains [] t = has_prefix [] t
contains (x ∷ s) t = has_prefix (x ∷ s) t || contains s t

-- `LastIndex(s, c)` of one byte
unfoldable pub last_index : ℕ → Text → Option ℕ
last_index c [] = none
last_index c (x ∷ s) = elim (last_index c s) [
  | some i ↦ some (suc i)
  | none ↦ if x == c then some 0 else none
]

-- a word that is being read, and the words behind it
abbrev put_word : Text → List Text → List Text
put_word [] words = words
put_word (x ∷ xs) words = (x ∷ xs) ∷ words

-- the word at the front, and the other words
unfoldable pub split_word : Text → Text × List Text
split_word [] = ([], [])
split_word (x ∷ xs) =
    let (word, words) = split_word xs in
    if is_space x then ([], put_word word words) else (x ∷ word, words)

-- `Fields`
unfoldable pub fields : Text → List Text
unfolding split_word
fields s = let (word, words) = split_word s in put_word word words

-- `Join(words, " ")`
unfoldable pub join_words : List Text → Text
join_words [] = []
join_words (w ∷ []) = w
join_words (w ∷ v ∷ ws) = w ++ (32 ∷ join_words (v ∷ ws))

-- the first of the parts, and the others
abbrev pub into_part : ℕ → List Text → List Text
into_part x [] = (x ∷ []) ∷ []
into_part x (p ∷ ps) = (x ∷ p) ∷ ps

-- `Split(s, c)` at one byte
unfoldable pub split_on : ℕ → Text → List Text
split_on c [] = [] ∷ []
split_on c (x ∷ s) = let rest = split_on c s in if x == c then [] ∷ rest else into_part x rest

-- `TrimPrefix(s, p)` where the prefix is there
unfoldable pub without_prefix : Text → Text → Text
without_prefix s [] = s
without_prefix [] (y ∷ p) = []
without_prefix (x ∷ s) (y ∷ p) = without_prefix s p
