-- ===== src/Outbox/Pending.antt =====
-- Counting the unpublished rows: a pass that publishes its whole batch lowers their number by the
-- length of the batch.
use node_js_nest_course_proj.Base.{
  ℕ, zero, suc, ◌+◌, ◌<◌, ◌≡◌, refl, sym, subst, ◌≢◌, inl, inr, Bool, true, false, not, ◌&&◌, some,
  List, [], ◌∷◌, arith, ◌==◌, Bool-cases, if_elim, is_some, length, take, keep, count, any,
  length-take_eq, All, All-imp, All-keep, All-and, All-take, Distinct,
}
use node_js_nest_course_proj.Shop.{OutboxRow}
use node_js_nest_course_proj.Outbox.{
  select_batch, sort_rows, insert_row, comes_first, is_free, mark_done,
}
use node_js_nest_course_proj.Outbox.Rows.{
  ids, IsRow, row_of, All-select_batch, Distinct-IsRow, select_batch-free, All-insert_row,
  All-sort_rows,
}

abbrev pub is_pending : OutboxRow → Bool
is_pending r = not (is_some r.published_at)

abbrev pub pending : List OutboxRow → ℕ
pending = count is_pending

-- Unpublished, and not among the finished ids.
abbrev left_over : List ℕ → OutboxRow → Bool
left_over done r = is_pending r && not (any (λ id. id == r.id) done)

pub pending-mark_done :
    (now : ℕ) (done : List ℕ) (rs : List OutboxRow)
    → pending (mark_done now done rs) ≡ count (left_over done) rs
unfolding mark_done
pending-mark_done now done [] = refl
pending-mark_done now done (r ∷ rs) = ground (arith, pending-mark_done now done rs)

count-left_over_absent :
    (id : ℕ) (done : List ℕ) (rs : List OutboxRow)
    → All (λ m. m ≢ id) (ids rs)
    → count (left_over (id ∷ done)) rs ≡ count (left_over done) rs
count-left_over_absent id done [] d = refl
count-left_over_absent id done (r ∷ rs) d =
    ground (arith, d.0, count-left_over_absent id done rs d.1)

any-absent : (id : ℕ) (done : List ℕ) → All (λ m. m ≢ id) done → any (λ d. d == id) done ≡ false
any-absent id [] h = refl
any-absent id (d ∷ ds) h = ground (arith, h.0, any-absent id ds h.1)

-- Finishing one more unpublished row leaves one fewer.
count-left_over :
    (id : ℕ) (done : List ℕ) (rs : List OutboxRow) (x : OutboxRow)
    → Distinct (ids rs)
    → row_of id rs ≡ some x
    → is_pending x ≡ true
    → All (λ m. m ≢ id) done
    → count (left_over done) rs ≡ count (left_over (id ∷ done)) rs + 1
count-left_over id done [] x d e p h = absurd (cc)
count-left_over id done (r ∷ rs) x d e p h = elim (Bool-cases (r.id == id)) [
  | inl hit ↦
      let same : r.id ≡ id = ground arith in
      let found : r ≡ x = ground arith in
      let gone : count (left_over (id ∷ done)) rs ≡ count (left_over done) rs =
        count-left_over_absent id done rs (subst (λ k. All (λ m. m ≢ k) (ids rs)) same d.0) in
      let absent : any (λ d. d == id) done ≡ false = any-absent id done h in
      let absent' : any (λ d. d == r.id) done ≡ false = rw same absent in
      ground (arith, gone, absent')
  | inr miss ↦ ground (arith, count-left_over id done rs x d.1)
]

count-left_over_nil : (rs : List OutboxRow) → count (left_over []) rs ≡ pending rs
count-left_over_nil [] = refl
count-left_over_nil (r ∷ rs) = ground (arith, count-left_over_nil rs)

-- A batch of different unpublished rows of the table.
abbrev pub IsBatch : List OutboxRow → List OutboxRow → Type 0
IsBatch table rows = Distinct (ids rows) × All (λ r. IsRow table r × (is_pending r ≡ true)) rows

pub count-batch :
    (table rows : List OutboxRow)
    → Distinct (ids table)
    → IsBatch table rows
    → pending table ≡ count (left_over (ids rows)) table + length rows
count-batch table [] d h = omega (arith, count-left_over_nil table)
count-batch table (r ∷ rows) d h = omega (
  arith,
  count-batch table rows d (h.0.1, h.1.1),
  count-left_over r.id (ids rows) table r d h.1.0.0 h.1.0.1 h.0.0,
)

ids-rows : (k : ℕ) (rs : List OutboxRow) → All (λ m. m ≢ k) (ids rs) → All (λ r. r.id ≢ k) rs
ids-rows k [] h = tt
ids-rows k (r ∷ rs) h = (h.0, ids-rows k rs h.1)

rows-ids : (k : ℕ) (rs : List OutboxRow) → All (λ r. r.id ≢ k) rs → All (λ m. m ≢ k) (ids rs)
rows-ids k [] h = tt
rows-ids k (r ∷ rs) h = (h.0, rows-ids k rs h.1)

keep-Distinct :
    (p : OutboxRow → Bool) (rs : List OutboxRow) → Distinct (ids rs) → Distinct (ids (keep p rs))
keep-Distinct p [] d = tt
keep-Distinct p (r ∷ rs) d =
    if_elim (λ (x : List OutboxRow). Distinct (ids x)) (p r)
      (λ _. (
        rows-ids r.id (keep p rs) (All-keep _ p rs (ids-rows r.id rs d.0)),
        keep-Distinct p rs d.1,
      ))
      (λ _. keep-Distinct p rs d.1)

take-Distinct : (n : ℕ) (rs : List OutboxRow) → Distinct (ids rs) → Distinct (ids (take n rs))
take-Distinct zero rs d = tt
take-Distinct (suc n) [] d = tt
take-Distinct (suc n) (r ∷ rs) d =
    (rows-ids r.id (take n rs) (All-take _ n rs (ids-rows r.id rs d.0)), take-Distinct n rs d.1)

insert_row-Distinct :
    (r : OutboxRow) (rs : List OutboxRow)
    → All (λ x. x.id ≢ r.id) rs
    → Distinct (ids rs)
    → Distinct (ids (insert_row r rs))
unfolding insert_row
insert_row-Distinct r [] h d = (tt, tt)
insert_row-Distinct r (x ∷ xs) h d =
    if_elim (λ (l : List OutboxRow). Distinct (ids l)) (comes_first r x)
      (λ _. (rows-ids r.id (x ∷ xs) h, d))
      (λ _. (
        rows-ids x.id (insert_row r xs)
            (All-insert_row _ r xs (λ e. h.0 (sym e)) (ids-rows x.id xs d.0)),
        insert_row-Distinct r xs h.1 d.1,
      ))

sort_rows-Distinct : (rs : List OutboxRow) → Distinct (ids rs) → Distinct (ids (sort_rows rs))
unfolding sort_rows
sort_rows-Distinct [] d = tt
sort_rows-Distinct (r ∷ rs) d =
    insert_row-Distinct r (sort_rows rs) (All-sort_rows _ rs (ids-rows r.id rs d.0))
      (sort_rows-Distinct rs d.1)

free-pending : (locked : ℕ → Bool) (r : OutboxRow) → is_free locked r ≡ true → is_pending r ≡ true
free-pending locked r h = ground arith

pub select_batch-IsBatch :
    (locked : ℕ → Bool) (n : ℕ) (rs : List OutboxRow)
    → Distinct (ids rs)
    → IsBatch rs (select_batch locked n rs)
unfolding select_batch
select_batch-IsBatch locked n rs d = (
  take-Distinct n _ (sort_rows-Distinct (keep (is_free locked) rs) (keep-Distinct _ rs d)),
  All-and (IsRow rs) (λ r. is_pending r ≡ true) (select_batch locked n rs)
      (All-select_batch (IsRow rs) locked n rs (Distinct-IsRow rs d))
      (All-imp (free-pending locked) _ (select_batch-free locked n rs)),
)

length-insert_row :
    (r : OutboxRow) (rs : List OutboxRow) → length (insert_row r rs) ≡ suc (length rs)
unfolding insert_row
length-insert_row r [] = refl
length-insert_row r (x ∷ xs) = ground (arith, length-insert_row r xs)

length-sort_rows : (rs : List OutboxRow) → length (sort_rows rs) ≡ length rs
unfolding sort_rows
length-sort_rows [] = refl
length-sort_rows (r ∷ rs) = omega (arith, length-insert_row r (sort_rows rs), length-sort_rows rs)

length-keep : (p : OutboxRow → Bool) (rs : List OutboxRow) → length (keep p rs) ≡ count p rs
length-keep p [] = refl
length-keep p (r ∷ rs) = ground (arith, length-keep p rs)

count-free :
    (locked : ℕ → Bool) (rs : List OutboxRow)
    → ((id : ℕ) → locked id ≡ false)
    → count (is_free locked) rs ≡ pending rs
count-free locked [] h = refl
count-free locked (r ∷ rs) h = ground (arith, h r.id, count-free locked rs h)

-- With no locks a batch is empty only when nothing is pending.
pub select_batch-empty :
    (locked : ℕ → Bool) (n : ℕ) (rs : List OutboxRow)
    → ((id : ℕ) → locked id ≡ false)
    → 0 < n
    → length (select_batch locked n rs) ≡ 0
    → pending rs ≡ 0
unfolding select_batch
select_batch-empty locked n rs h pos e = omega (
  arith,
  count-free locked rs h,
  length-keep (is_free locked) rs,
  length-sort_rows (keep (is_free locked) rs),
  length-take_eq n (sort_rows (keep (is_free locked) rs)),
)
