-- ===== src/Storage.antt =====
-- The limits of a multipart upload (src/storage/limits.ts), in bytes. A size is a natural number;
-- `Math.ceil` of a quotient is `ceil_div`, exact below 2 ^ 53, where all sizes up to `max_object` lie.
pub mod Limits
mod Tests
use node_js_nest_course_proj.Base.{
  ℕ, zero, suc, ◌+◌, ◌-◌, ◌*◌, ◌/◌, ◌%◌, ◌^◌, ◌≤◌, ◌<◌, min, max, String, ◌≡◌, refl, sym, ap, subst,
  ◌∙◌, fun_ext, ◌≢◌, ◌↔◌, ◌⊎◌, inl, inr, Bool, true, false, not, ◌&&◌, ◌||◌, Option, none, some,
  List, [], ◌∷◌, ◌++◌, map, append-nil, append_assoc, map-append, arith, eq_iff, ltb, leb, ◌==◌,
  str_eq, if◌then◌else◌, ==_iff, str_eq_self, Bool-cases, if_elim, Option-cases, is_some, get_or,
  length, take, drop, head?, keep, find, sum_of, count, any, length-append, sum_of-append,
  find-append, any-find, find-none_of_any, any-append, length-take, length-take_eq, length-drop,
  take-append-drop, All, All-append, All-imp, find-All, any-All, All-keep, All-and, All-take,
  Distinct, length-map,
}

abbrev pub mib : ℕ
mib = 1048576

abbrev pub gib : ℕ
gib = 1073741824

abbrev pub min_part : ℕ
min_part = 5242880

abbrev pub max_part : ℕ
max_part = 5368709120

abbrev pub max_parts : ℕ
max_parts = 10000

abbrev pub max_object : ℕ
max_object = 5497558138880

-- `Math.ceil(a / suc b)`: the divisor is one more than the second argument.
abbrev pub ceil_div : ℕ → ℕ → ℕ
ceil_div a b = (a + b) / suc b

-- `none` is the RangeError.
unfoldable pub compute_part_size : ℕ → Option ℕ
compute_part_size size =
    let needed = ceil_div size 9999 in
    let rounded = ceil_div needed 1048575 * mib in
    let part = max min_part rounded in if ltb max_part part then none else some part

unfoldable pub part_count : ℕ → ℕ → ℕ
part_count size part_size = elim part_size [ zero ↦ 0 | suc d ↦ ceil_div size d ]

-- The length of the n-th part, counted from 1.
unfoldable pub part_length : ℕ → ℕ → ℕ → ℕ
part_length size part_size n = min part_size (size - (n - 1) * part_size)

-- The lengths of the parts from the n-th on, `count` of them.
abbrev pub lengths : ℕ → ℕ → ℕ → ℕ → List ℕ
lengths size part_size n zero = []
lengths size part_size n (suc count) =
    part_length size part_size n ∷ lengths size part_size (suc n) count
