-- ===== src/Outbox/Select.antt =====
-- SELECT … FROM outbox WHERE published_at IS NULL ORDER BY created_at, id LIMIT n
-- FOR UPDATE SKIP LOCKED, where another transaction holds the rows that `locked` names.
use node_js_nest_course_proj.Base.{
  ℕ, Bool, not, ◌&&◌, ◌||◌, List, [], ◌∷◌, ltb, leb, ◌==◌, keep, take, is_some, if◌then◌else◌,
}
use node_js_nest_course_proj.Shop.{OutboxRow}

-- ORDER BY created_at, id
unfoldable pub comes_first : OutboxRow → OutboxRow → Bool
comes_first a b = ltb a.created_at b.created_at || (a.created_at == b.created_at && leb a.id b.id)

unfoldable pub insert_row : OutboxRow → List OutboxRow → List OutboxRow
unfolding comes_first
insert_row r [] = r ∷ []
insert_row r (x ∷ xs) = if comes_first r x then r ∷ x ∷ xs else x ∷ insert_row r xs

unfoldable pub sort_rows : List OutboxRow → List OutboxRow
unfolding insert_row
sort_rows [] = []
sort_rows (r ∷ rs) = insert_row r (sort_rows rs)

abbrev pub is_free : (ℕ → Bool) → OutboxRow → Bool
is_free locked r = not (is_some r.published_at) && not (locked r.id)

unfoldable pub select_batch : (ℕ → Bool) → ℕ → List OutboxRow → List OutboxRow
unfolding sort_rows
select_batch locked n rows = take n (sort_rows (keep (is_free locked) rows))
