-- ===== src/Files/Listing.antt =====
-- The listing of an upload's parts ends, and what is missing is missing.
use node_js_nest_course_proj.Base.{
  ℕ, zero, suc, ◌+◌, ◌≤◌, ◌<◌, ◌≡◌, subst, inl, inr, true, Option, none, some, List, [], arith,
  ◌==◌, ==_iff, Bool-cases, is_some, get_or,
}
use node_js_nest_course_proj.Files.{Part, Page, list_all_parts, has_part, missing_parts}

-- What S3 documents of the markers: the next one lies behind the last, and numbers end at a bound.
abbrev pub IsPaged : ℕ → (Option ℕ → Page) → Type 0
IsPaged bound list =
    (m : Option ℕ)
    → (list m).is_truncated ≡ true
    → (get_or m 0 < (list m).next_part_number_marker) × ((list m).next_part_number_marker ≤ bound)

list_all_parts-from :
    (bound : ℕ) (list : Option ℕ → Page) (fuel : ℕ) (m : Option ℕ)
    → IsPaged bound list
    → get_or m 0 ≤ bound
    → bound < get_or m 0 + fuel
    → is_some (list_all_parts list fuel m) ≡ true
unfolding list_all_parts
list_all_parts-from bound list zero m h b l = absurd (omega (arith, b, l))
list_all_parts-from bound list (suc fuel) m h b l = elim (Bool-cases (list m).is_truncated) [
  | inl more ↦
      let (ahead, below) = h m more in
      let rest =
        list_all_parts-from bound list fuel (some (list m).next_part_number_marker) h below
          (omega (arith, ahead, l)) in
      ground arith
  | inr last ↦ ground arith
]

-- With a page for each of `bound` markers, `listAllParts` returns.
pub list_all_parts-total :
    (bound : ℕ) (list : Option ℕ → Page)
    → IsPaged bound list
    → is_some (list_all_parts list (suc bound) none) ≡ true
list_all_parts-total bound list h =
    list_all_parts-from bound list (suc bound) none h (omega arith) (omega arith)

-- Nothing missing means that every number in the range has its part.
missing_parts-none :
    (have : List Part) (from total n : ℕ)
    → missing_parts have from total ≡ []
    → from ≤ n
    → n < from + total
    → has_part have n ≡ true
unfolding missing_parts
missing_parts-none have from zero n h a b = absurd (omega arith)
missing_parts-none have from (suc total) n h a b = elim (Bool-cases (has_part have from)) [
  | inl there ↦ elim (Bool-cases (from == n)) [
    | inl here ↦ subst (λ k. has_part have k ≡ true) ((==_iff from n).0 here) there
    | inr later ↦
        missing_parts-none have (suc from) total n (rw there at h) (ground arith) (omega arith)
  ]
  | inr gone ↦ absurd (ground arith)
]
