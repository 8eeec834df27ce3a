-- ===== src/RateLimit.antt =====
-- The rate limiter (src/redis/rate-limit.ts): a sliding window in a sorted set of Redis, in one
-- script, so that requests of all pods are served one after another by the clock of Redis, in
-- milliseconds. The members are drawn at random and differ; only their scores count.
pub mod Counts
pub mod Bound
mod Tests
use node_js_nest_course_proj.Base.{
  ℕ, zero, suc, ◌+◌, ◌-◌, ◌*◌, ◌/◌, ◌%◌, ◌^◌, ◌≤◌, ◌<◌, min, max, String, ◌≡◌, refl, sym, ap, subst,
  ◌∙◌, fun_ext, ◌≢◌, ◌↔◌, ◌⊎◌, inl, inr, Bool, true, false, not, ◌&&◌, ◌||◌, Option, none, some,
  List, [], ◌∷◌, ◌++◌, map, append-nil, append_assoc, map-append, arith, eq_iff, ltb, leb, ◌==◌,
  str_eq, if◌then◌else◌, ==_iff, str_eq_self, Bool-cases, if_elim, Option-cases, is_some, get_or,
  length, take, drop, head?, keep, find, sum_of, count, any, length-append, sum_of-append,
  find-append, any-find, find-none_of_any, any-append, length-take, length-take_eq, length-drop,
  take-append-drop, All, All-append, All-imp, find-All, any-All, All-keep, All-and, All-take,
  Distinct, length-map, get, set, get-set_same, get-set_other, remove, get-All, All-set, All-remove,
  take-all, drop-nil, drop-drop, drop-append, drop-all, keep-append,
}

-- The sorted set of one client, and the time at which Redis drops it.
pub record Window : Type 0 where
  pub scores : List ℕ
  pub expires_at : Option ℕ

pub record RateLimitOptions : Type 0 where
  pub limit : ℕ
  pub window_ms : ℕ
  pub fail_open : Bool

pub record RateLimitResult : Type 0 where
  pub allowed : Bool
  pub remaining : ℕ
  pub retry_after_sec : ℕ

pub data ScriptResult : Type 0 where
  allows : (remaining : ℕ) → ScriptResult
  denies : (retry_ms : ℕ) → ScriptResult
  script_throws : ScriptResult

abbrev pub is_expired : ℕ → Option ℕ → Bool
is_expired now none = false
is_expired now (some e) = leb e now

-- The lowest score: ZRANGE 0 0.
abbrev pub oldest : List ℕ → Option ℕ
oldest [] = none
oldest (t ∷ ts) = some (elim (oldest ts) [ none ↦ t | some u ↦ min t u ])

-- ZREMRANGEBYSCORE 0 (now - win) on what has not expired
unfoldable pub kept : ℕ → ℕ → Window → List ℕ
kept now win w =
    keep (λ t. ltb now (t + win)) (if is_expired now w.expires_at then [] else w.scores)

-- The script, with the set that it leaves.
unfoldable pub sliding_window : ℕ → ℕ → ℕ → Window → ScriptResult × Window
sliding_window win lim now w =
    let ts = kept now win w in
    let n = length ts in
    if ltb n lim
    then (allows (lim - n - 1), record { scores = ts ++ now ∷ []; expires_at = some (now + win) })
    else elim (oldest ts) [
      | none ↦ (script_throws, record w { scores = ts })
      | some t ↦ (denies (t + win - now), record w { scores = ts })
    ]

-- `check`: none when it throws.
abbrev pub answer : RateLimitOptions → ScriptResult → Option RateLimitResult
answer opts (allows remaining) =
    some (record { allowed = true; remaining = remaining; retry_after_sec = 0 })
answer opts (denies retry_ms) =
    some
      (record { allowed = false; remaining = 0; retry_after_sec = max 1 ((retry_ms + 999) / 1000) })
answer opts script_throws =
    if opts.fail_open
    then some (record { allowed = true; remaining = opts.limit; retry_after_sec = 0 })
    else none

unfoldable pub check : RateLimitOptions → ℕ → Bool → Window → Option RateLimitResult × Window
check opts now redis_down w = if redis_down then (answer opts script_throws, w) else (
  answer opts (sliding_window opts.window_ms opts.limit now w).0,
  (sliding_window opts.window_ms opts.limit now w).1,
)

-- What the middleware does with a request: it goes on, answers 429 with the header Retry-After, or
-- hands an exception on.
pub data Handling : Type 0 where
  goes_on : Handling
  too_many_requests : (retry_after_sec : ℕ) → Handling
  hands_on_error : Handling

abbrev pub handling_of : Option RateLimitResult → Handling
handling_of none = hands_on_error
handling_of (some r) = if r.allowed then goes_on else too_many_requests r.retry_after_sec

unfoldable pub rate_limit_middleware : RateLimitOptions → ℕ → Bool → Window → Handling × Window
unfolding check
rate_limit_middleware opts now redis_down w =
    let (result, after) = check opts now redis_down w in (handling_of result, after)

abbrev pub is_allowed : Option RateLimitResult → Bool
is_allowed none = false
is_allowed (some r) = r.allowed

-- One request of a client: when it comes, and whether Redis is down.
pub record Request : Type 0 where
  pub now : ℕ
  pub redis_down : Bool

abbrev pub logged : ℕ → Option RateLimitResult × Window → List ℕ → Window × List ℕ
logged now (result, w) log = (w, if is_allowed result then now ∷ log else log)

-- `check` for one request after the other; the log has the times of those that were allowed, the
-- latest first.
unfoldable pub serve_all : RateLimitOptions → List Request → Window × List ℕ → Window × List ℕ
unfolding check
serve_all opts [] s = s
serve_all opts (r ∷ rs) (w, log) =
    serve_all opts rs (logged r.now (check opts r.now r.redis_down w) log)
