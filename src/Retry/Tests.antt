-- ===== src/Retry/Tests.antt =====
-- A transaction that meets a deadlock twice and then commits.
use node_js_nest_course_proj.Base.{ℕ, ◌≤◌, ◌≡◌, refl, some, arith, ltb, if◌then◌else◌}
use node_js_nest_course_proj.Retry.{Attempt, committed, rolled_back, with_retry}
use node_js_nest_course_proj.Retry.Attempts.{EndsAt, with_retry-EndsAt}

abbrev attempts : ℕ → Attempt ℕ
attempts n = if ltb n 3 then rolled_back (record { code = some "40P01" }) else committed n

third : with_retry attempts 8 8 1 ≡ (committed 3, 3)
unfolding with_retry
third = refl

gives_up : (with_retry attempts 2 2 1).1 ≡ 2
unfolding with_retry
gives_up = refl

with_retry-EndsAt_example :
    EndsAt attempts 8 1 (with_retry attempts 8 8 1) × ((with_retry attempts 8 8 1).1 ≤ 8)
with_retry-EndsAt_example = with_retry-EndsAt attempts 8 (omega arith)
