-- ===== src/Storage/Limits.antt =====
-- The parts of an upload keep to the limits of S3 and cover the file.
use node_js_nest_course_proj.Base.{
  ℕ, zero, suc, ◌+◌, ◌-◌, ◌*◌, ◌%◌, ◌≤◌, ◌<◌, max, ◌≡◌, ap, inl, inr, some, arith, leb, ◌==◌,
  Bool-cases, sum_of,
}
use node_js_nest_course_proj.Storage.{
  max_object, max_parts, min_part, max_part, mib, ceil_div, compute_part_size, part_count,
  part_length, lengths,
}

pub mul_le : (a b c : ℕ) → a ≤ b → a * c ≤ b * c
mul_le a b zero h = omega arith
mul_le a b (suc c) h = omega (arith, mul_le a b c h)

-- A quotient that is rounded up, bounded from above and from below.
ceil_div-le : (a d c : ℕ) → a ≤ c * suc d → ceil_div a d ≤ c
ceil_div-le a d c h = elim (Bool-cases (leb (ceil_div a d) c)) [
  | inl small ↦ ground arith
  | inr big ↦
      let more : suc c ≤ ceil_div a d = ground arith in
      absurd (omega (arith, mul_le (suc c) (ceil_div a d) (suc d) more))
]

ceil_div-covers : (a d : ℕ) → a ≤ ceil_div a d * suc d
ceil_div-covers a d = omega arith

part_count-le : (size part c : ℕ) → 0 < part → size ≤ c * part → part_count size part ≤ c
unfolding part_count
part_count-le size zero c p h = absurd (omega arith)
part_count-le size (suc d) c p h = ceil_div-le size d c h

-- The parts cover the file, and the last one holds at least a byte.
pub part_count-covers :
    (size part : ℕ)
    → 0 < part
    → (size ≤ part_count size part * part) × (part_count size part * part < size + part)
unfolding part_count
part_count-covers size zero p = absurd (omega arith)
part_count-covers size (suc d) p = (omega arith, omega arith)

part_count-positive : (size part : ℕ) → 0 < part → 0 < size → 0 < part_count size part
part_count-positive size part p s = elim (Bool-cases (part_count size part == 0)) [
  | inl empty ↦
      let none_left : part_count size part ≡ 0 = ground arith in
      absurd (omega (arith, (part_count-covers size part p).0, ap (λ c. c * part) none_left))
  | inr some_part ↦ ground arith
]

-- A size within the limits gets a part size between 5 MiB and 5 GiB, in whole MiB, with which it
-- takes at least one part and at most 10 000.
pub compute_part_size-limits :
    (size : ℕ)
    → 0 < size
    → size ≤ max_object
    → (part : ℕ) × (compute_part_size size ≡ some part)
      × (min_part ≤ part)
      × (part ≤ max_part)
      × (part % mib ≡ 0)
      × (0 < part_count size part)
      × (part_count size part ≤ max_parts)
unfolding compute_part_size
compute_part_size-limits size pos small =
    let part = max min_part (ceil_div (ceil_div size 9999) 1048575 * mib) in
    let big : min_part ≤ part = omega arith in
    let fits : part ≤ max_part = omega arith in
    (
      part,
      ground arith,
      big,
      fits,
      omega arith,
      part_count-positive size part (omega arith) pos,
      part_count-le size part max_parts (omega arith) (omega arith),
    )

add_mul : (a b c : ℕ) → (a + b) * c ≡ a * c + b * c
add_mul zero b c = omega (arith)
add_mul (suc a) b c = omega (arith, add_mul a b c)

first_offset : (k part : ℕ) → (suc k - 1) * part ≡ k * part
first_offset k part = ap (λ n. n * part) (omega arith)

lengths-sum :
    (size part k more : ℕ)
    → size ≤ (k + suc more) * part
    → (k + suc more) * part < size + part
    → k * part + sum_of (λ x. x) (lengths size part (suc k) (suc more)) ≡ size
unfolding part_length
lengths-sum size part k zero over under = omega (arith, first_offset k part, add_mul k 1 part)
lengths-sum size part k (suc more) over under =
    let shift : (k + suc (suc more)) * part ≡ (suc k + suc more) * part =
      ap (λ n. n * part) (omega arith) in
    omega (
      arith,
      first_offset k part,
      add_mul 1 k part,
      add_mul (suc k) (suc more) part,
      add_mul 1 more part,
      lengths-sum size part (suc k) more (omega (arith, shift)) (omega (arith, shift)),
    )

-- With any part size the parts of a non-empty file add up to the file.
pub lengths-cover :
    (size part : ℕ)
    → 0 < part
    → 0 < size
    → sum_of (λ x. x) (lengths size part 1 (part_count size part)) ≡ size
lengths-cover size part p s =
    go (part_count size part) (part_count-positive size part p s) (part_count-covers size part p)
  where
    go :
        (n : ℕ)
        → 0 < n
        → (size ≤ n * part) × (n * part < size + part)
        → sum_of (λ x. x) (lengths size part 1 n) ≡ size
    go zero h c = absurd (omega arith)
    go (suc n) h c =
        omega (arith, lengths-sum size part 0 n (omega (arith, c.0)) (omega (arith, c.1)))

part_length-below :
    (size part n total : ℕ)
    → n < total
    → total * part < size + part
    → 0 < n
    → part_length size part n ≡ part
unfolding part_length
part_length-below size part zero total h under pos = absurd (omega arith)
part_length-below size part (suc k) total h under pos =
    omega (arith, mul_le (suc (suc k)) total part h, first_offset k part, add_mul 2 k part)

-- Every part before the last has the full part size, so that none of them falls below 5 MiB.
part_length-full :
    (size part n : ℕ) → 0 < part → 0 < n → n < part_count size part → part_length size part n ≡ part
part_length-full size part n p pos h =
    part_length-below size part n (part_count size part) h (part_count-covers size part p).1 pos
