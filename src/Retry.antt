-- ===== src/Retry.antt =====
-- The retry of a whole transaction (src/concurrency/lib.ts): it is run again when Postgres reports a
-- serialization failure or a deadlock, up to a number of attempts; any other error goes to the caller.
pub mod Attempts
mod Tests
use node_js_nest_course_proj.Base.{
  ℕ, zero, suc, ◌+◌, ◌-◌, ◌*◌, ◌/◌, ◌%◌, ◌^◌, ◌≤◌, ◌<◌, min, max, String, ◌≡◌, refl, sym, ap, subst,
  ◌∙◌, fun_ext, ◌≢◌, ◌↔◌, ◌⊎◌, inl, inr, Bool, true, false, not, ◌&&◌, ◌||◌, Option, none, some,
  List, [], ◌∷◌, ◌++◌, map, append-nil, append_assoc, map-append, arith, eq_iff, ltb, leb, ◌==◌,
  str_eq, if◌then◌else◌, ==_iff, str_eq_self, Bool-cases, if_elim, Option-cases, is_some, get_or,
  length, take, drop, head?, keep, find, sum_of, count, any, length-append, sum_of-append,
  find-append, any-find, find-none_of_any, any-append, length-take, length-take_eq, length-drop,
  take-append-drop, All, All-append, All-imp, find-All, any-All, All-keep, All-and, All-take,
  Distinct, length-map,
}

-- What a transaction throws: its code, if it has one.
pub record PgError : Type 0 where
  pub code : Option String

pub data Attempt (A : Type 0) : Type 0 where
  committed : A → Attempt A
  rolled_back : PgError → Attempt A

abbrev pub is_retryable : Option String → Bool
is_retryable none = false
is_retryable (some code) = str_eq code "40001" || str_eq code "40P01"

-- The `catch`: another attempt, or the error; the second component counts the attempts.
abbrev pub after_attempt : {A : Type 0} → ℕ → ℕ → Attempt A × ℕ → Attempt A → Attempt A × ℕ
after_attempt attempt max_attempts again (committed a) = (committed a, attempt)
after_attempt attempt max_attempts again (rolled_back e) =
    if is_retryable e.code && ltb attempt max_attempts then again else (rolled_back e, attempt)

-- `withRetry` from an attempt on. The n-th attempt ends as `attempts n` says; each retry raises the
-- number of the attempt, so that the fuel never runs out before the last one.
unfoldable pub with_retry : {A : Type 0} → (ℕ → Attempt A) → ℕ → ℕ → ℕ → Attempt A × ℕ
with_retry attempts max_attempts zero attempt = (attempts attempt, attempt)
with_retry attempts max_attempts (suc fuel) attempt =
    after_attempt attempt max_attempts (with_retry attempts max_attempts fuel (suc attempt))
      (attempts attempt)
