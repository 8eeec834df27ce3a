-- ===== src/Outbox/Rows.antt =====
-- The rows of the outbox as a table with a primary key, and what the SELECT hands out.
use mathlib.Core.Option.{some-injective}
use node_js_nest_course_proj.Base.{
  ℕ, ◌≡◌, refl, sym, ◌∙◌, ◌≢◌, inl, inr, Bool, true, Option, none, some, List, [], ◌∷◌, map, arith,
  ◌==◌, Bool-cases, keep, find, All, All-keep, All-take, Distinct,
}
use node_js_nest_course_proj.Shop.{OutboxRow}
use node_js_nest_course_proj.Outbox.{
  select_batch, sort_rows, insert_row, comes_first, is_free, mark_done, mark_failed,
}

abbrev pub ids : List OutboxRow → List ℕ
ids = map (λ r. r.id)

abbrev pub row_of : ℕ → List OutboxRow → Option OutboxRow
row_of id = find (λ r. r.id == id)

-- Looking a row up by its id gives that row.
abbrev pub IsRow : List OutboxRow → OutboxRow → Type 0
IsRow rs r = row_of r.id rs ≡ some r

pub All-insert_row {ℓ} :
    (P : OutboxRow → Type ℓ) (r : OutboxRow) (rs : List OutboxRow)
    → P r
    → All P rs
    → All P (insert_row r rs)
unfolding insert_row
All-insert_row P r [] p h = (p, tt)
All-insert_row P r (x ∷ xs) p h = elim (Bool-cases (comes_first r x)) [
  | inl before ↦ rw before (p, h)
  | inr after ↦ rw after (h.0, All-insert_row P r xs p h.1)
]

pub All-sort_rows {ℓ} :
    (P : OutboxRow → Type ℓ) (rs : List OutboxRow) → All P rs → All P (sort_rows rs)
unfolding sort_rows
All-sort_rows P [] h = tt
All-sort_rows P (r ∷ rs) h = All-insert_row P r (sort_rows rs) h.0 (All-sort_rows P rs h.1)

-- What all rows have, the selected ones have.
pub All-select_batch {ℓ} :
    (P : OutboxRow → Type ℓ) (locked : ℕ → Bool) (n : ℕ) (rs : List OutboxRow)
    → All P rs
    → All P (select_batch locked n rs)
unfolding select_batch
All-select_batch P locked n rs h =
    All-take P n (sort_rows (keep (is_free locked) rs))
      (All-sort_rows P (keep (is_free locked) rs) (All-keep P (is_free locked) rs h))

All-keep_self : {A : Type 0} (p : A → Bool) (xs : List A) → All (λ x. p x ≡ true) (keep p xs)
All-keep_self p [] = tt
All-keep_self p (x ∷ xs) = elim (Bool-cases (p x)) [
  | inl hit ↦ rw hit (hit, All-keep_self p xs)
  | inr miss ↦ rw miss (All-keep_self p xs)
]

-- Every selected row is unpublished and not locked.
pub select_batch-free :
    (locked : ℕ → Bool) (n : ℕ) (rs : List OutboxRow)
    → All (λ r. is_free locked r ≡ true) (select_batch locked n rs)
unfolding select_batch
select_batch-free locked n rs =
    All-take _ n (sort_rows (keep (is_free locked) rs))
      (All-sort_rows _ (keep (is_free locked) rs) (All-keep_self (is_free locked) rs))

IsRow-cons :
    (r : OutboxRow) (more rs : List OutboxRow)
    → All (λ m. m ≢ r.id) (ids rs)
    → All (IsRow more) rs
    → All (IsRow (r ∷ more)) rs
IsRow-cons r more [] d h = tt
IsRow-cons r more (x ∷ xs) d h = (ground (arith, d.0, h.0), IsRow-cons r more xs d.1 h.1)

-- With distinct ids every row is the one that its id finds.
pub Distinct-IsRow : (rs : List OutboxRow) → Distinct (ids rs) → All (IsRow rs) rs
Distinct-IsRow [] d = tt
Distinct-IsRow (r ∷ rs) d = (ground arith, IsRow-cons r rs rs d.0 (Distinct-IsRow rs d.1))

pub ids-mark_done :
    (now : ℕ) (done : List ℕ) (rs : List OutboxRow) → ids (mark_done now done rs) ≡ ids rs
unfolding mark_done
ids-mark_done now done [] = refl
ids-mark_done now done (r ∷ rs) = ground (arith, ids-mark_done now done rs)

ids-mark_failed : (id : Option ℕ) (rs : List OutboxRow) → ids (mark_failed id rs) ≡ ids rs
unfolding mark_failed
ids-mark_failed none rs = refl
ids-mark_failed (some id) [] = refl
ids-mark_failed (some id) (r ∷ rs) = ground (arith, ids-mark_failed (some id) rs)

-- Two rows of a table with one id are one row.
pub IsRow-eq :
    (table : List OutboxRow) (x r : OutboxRow) → IsRow table x → IsRow table r → x.id ≡ r.id → x ≡ r
IsRow-eq table x r hx hr same = some-injective x r (sym hx ∙ rw same hr)
