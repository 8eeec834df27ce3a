-- ===== src/RateLimit/Tests.antt =====
-- Five requests against a limit of two in a second.
use node_js_nest_course_proj.Base.{ℕ, ◌≤◌, ◌≡◌, refl, inr, true, false, some, List, [], ◌∷◌, arith}
use node_js_nest_course_proj.RateLimit.{
  Request, kept, sliding_window, serve_all, RateLimitOptions, check,
}
use node_js_nest_course_proj.RateLimit.Counts.{in_window}
use node_js_nest_course_proj.RateLimit.Bound.{IsServed, fresh, window_limit}

abbrev at : ℕ → Request
at now = record { now = now; redis_down = false }

abbrev requests : List Request
requests = at 100 ∷ at 900 ∷ at 1000 ∷ at 1100 ∷ at 1150 ∷ []

abbrev two_a_second : RateLimitOptions
two_a_second = record { limit = 2; window_ms = 1000; fail_open = true }

log : (serve_all two_a_second requests (fresh, [])).1 ≡ 1100 ∷ 900 ∷ 100 ∷ []
unfolding serve_all check sliding_window kept
log = refl

abbrev options : RateLimitOptions
options = record { limit = 0; window_ms = 1000; fail_open = true }

-- With a limit of 0 the script fails on the empty set, and a limiter that fails open lets all pass.
no_limit :
    (check options 5 false fresh).0
    ≡ some (record { allowed = true; remaining = 0; retry_after_sec = 0 })
unfolding check sliding_window kept
no_limit = refl

-- A limiter that fails open lets a third request pass while Redis is down.
fails_open :
    in_window 1000 150
      (serve_all two_a_second
        (at 100 ∷ at 110 ∷ record { now = 120; redis_down = true } ∷ [])
        (fresh, [])).1
    ≡ 3
unfolding serve_all check sliding_window kept
fails_open = refl

served : (now : ℕ) → IsServed two_a_second (at now)
served now = inr (omega arith, refl)

window_limit_example : in_window 1000 1100 (serve_all two_a_second requests (fresh, [])).1 ≤ 2
window_limit_example =
    window_limit two_a_second requests 1100
      (omega arith, (omega arith, (omega arith, (omega arith, (omega arith, tt)))))
      (served 100, (served 900, (served 1000, (served 1100, (served 1150, tt)))))
