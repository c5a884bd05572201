-- ===== src/Tests/Rules.antt =====
-- The rules of module Rules at concrete inputs.
use superkb.Base.{◌≡◌, ◌⊎◌, refl, false, List, [], ◌∷◌, is_nil, take, map}
use superkb.Base.Text.{Text, lit}
use superkb.Base.Text.Strings.{to_lower, fields, split_word, join_words}
use superkb.Domain.Errors.{ok}
use superkb.Domain.Rag.{SearchResult}
use superkb.Rules.Pages.{IsFirst, Nowhere, find_page-IsFirst}
use superkb.Rules.References.{uncited, add_references-uncited}
use superkb.Tests.Fixtures.{counter, idle_world, hit}
use superkb.Usecase.References.{normalize_for_match, find_page}
use superkb.Usecase.Search.{add_references}

abbrev book : List Text
book = lit "Preface" ∷ lit "The  Answer" ∷ []

quoted : is_nil (normalize_for_match (lit "the answer")) ≡ false
unfolding normalize_for_match to_lower fields split_word join_words lit
quoted = refl

find_page-IsFirst_example :
    let needle = take 80 (normalize_for_match (lit "the answer")) in
    IsFirst needle (find_page book (lit "the answer")) book
    ⊎ ((find_page book (lit "the answer") ≡ 0) × Nowhere needle book)
find_page-IsFirst_example = find_page-IsFirst book (lit "the answer") quoted

add_references-uncited_example :
    (out : List SearchResult) × ((add_references counter [] (hit ∷ hit ∷ []) idle_world).0 ≡ ok out)
    × (map uncited out ≡ map uncited (hit ∷ hit ∷ []))
add_references-uncited_example = add_references-uncited counter (hit ∷ hit ∷ []) idle_world
