-- ===== src/Pages/Tests.antt =====
-- Five items in pages of two, with cursors in unary.
use node_js_nest_course_proj.Base.{ℕ, ◌≡◌, none, some, List, [], ◌∷◌, arith}
use node_js_nest_course_proj.Base.Unary.{encode, decode, round_trip, not_empty}
use node_js_nest_course_proj.Pages.Walk.{walk, walk-all}

abbrev items : List ℕ
items = 5 ∷ 4 ∷ 3 ∷ 2 ∷ 1 ∷ []

walk-all_example : walk encode decode items 2 6 none ≡ some items
walk-all_example = walk-all encode decode round_trip not_empty items 2 (omega arith)
