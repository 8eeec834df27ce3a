-- ===== src/Storage/Tests.antt =====
-- A file of 60 GiB, for which parts of 5 MiB would be too many.
use node_js_nest_course_proj.Base.{ℕ, ◌*◌, ◌%◌, ◌≤◌, ◌<◌, ◌≡◌, refl, some, arith}
use node_js_nest_course_proj.Storage.{
  max_parts, min_part, max_part, mib, gib, compute_part_size, part_count,
}
use node_js_nest_course_proj.Storage.Limits.{compute_part_size-limits}

sixty_gib : compute_part_size (60 * gib) ≡ some (7 * mib)
unfolding compute_part_size
sixty_gib = refl

compute_part_size-limits_example :
    (part : ℕ) × (compute_part_size (60 * gib) ≡ some part)
    × (min_part ≤ part)
    × (part ≤ max_part)
    × (part % mib ≡ 0)
    × (0 < part_count (60 * gib) part)
    × (part_count (60 * gib) part ≤ max_parts)
compute_part_size-limits_example = compute_part_size-limits (60 * gib) (omega arith) (omega arith)
