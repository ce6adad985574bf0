-- ===== src/Tests/Pages.antt =====
-- A list of three rows, in pages of two.
use mealdirectbackend.Common.{◌≡◌, refl, List, [], ◌∷◌, none, some, String}
use mealdirectbackend.Api.Pagination.{create_cursor_page}
use mealdirectbackend.Api.Pagination.Pages.{
  AreDistinct, fetch_page, rows_after, walk_pages, walk_pages-eq,
}

abbrev three_rows : List String
three_rows = "a" ∷ "b" ∷ "c" ∷ []

abbrev itself : String → String
itself row = row

first_page : (fetch_page itself 2 three_rows none).next_cursor ≡ some "b"
unfolding fetch_page rows_after create_cursor_page
first_page = refl

three_rows-AreDistinct : AreDistinct itself three_rows
three_rows-AreDistinct = ((refl, (refl, tt)), ((refl, tt), (tt, tt)))

walk_pages-eq_example : walk_pages itself 4 2 three_rows none ≡ three_rows
walk_pages-eq_example = walk_pages-eq itself 1 three_rows three_rows-AreDistinct
