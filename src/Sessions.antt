-- ===== src/Sessions.antt =====
-- Sessions with a rolling lifetime (src/redis/session.ts). A session is a key of Redis with the time,
-- in seconds, at which Redis drops it; the latest write of a key stands first.
pub mod Cookie
pub mod Jar
pub mod Browser
mod Tests
use node_js_nest_course_proj.Base.{
  ℕ, zero, suc, ◌+◌, ◌-◌, ◌*◌, ◌/◌, ◌%◌, ◌^◌, ◌≤◌, ◌<◌, min, max, String, ◌≡◌, refl, sym, ap, subst,
  ◌∙◌, fun_ext, ◌≢◌, ◌↔◌, ◌⊎◌, inl, inr, Bool, true, false, not, ◌&&◌, ◌||◌, Option, none, some,
  List, [], ◌∷◌, ◌++◌, map, append-nil, append_assoc, map-append, arith, eq_iff, ltb, leb, ◌==◌,
  str_eq, if◌then◌else◌, ==_iff, str_eq_self, Bool-cases, if_elim, Option-cases, is_some, get_or,
  length, take, drop, head?, keep, find, sum_of, count, any, length-append, sum_of-append,
  find-append, any-find, find-none_of_any, any-append, length-take, length-take_eq, length-drop,
  take-append-drop, All, All-append, All-imp, find-All, any-All, All-keep, All-and, All-take,
  Distinct, length-map,
}

pub record Session (D : Type 0) : Type 0 where
  pub sid : String
  pub value : D
  pub expires_at : ℕ

abbrev pub is_alive : {D : Type 0} → ℕ → String → Session D → Bool
is_alive now sid s = str_eq s.sid sid && ltb now s.expires_at

-- SET … EX: the key, whatever it held, with a new lifetime.
unfoldable pub save : {D : Type 0} → ℕ → String → D → ℕ → List (Session D) → List (Session D)
save ttl sid value now ss =
    record { sid = sid; value = value; expires_at = now + ttl }
    ∷ keep (λ s. not (str_eq s.sid sid)) ss

-- `create`, with the identifier that is drawn.
unfoldable pub create : {D : Type 0} → ℕ → String → D → ℕ → List (Session D) → List (Session D)
create ttl sid value now ss = save ttl sid value now ss

abbrev pub touched :
    {D : Type 0}
    → ℕ
    → String
    → ℕ
    → List (Session D)
    → Option (Session D)
    → Option D × List (Session D)
touched ttl sid now ss none = (none, ss)
touched ttl sid now ss (some s) = (some s.value, save ttl sid s.value now ss)

-- GETEX … EX: the value, with a new lifetime.
unfoldable pub touch :
    {D : Type 0} → ℕ → String → ℕ → List (Session D) → Option D × List (Session D)
touch ttl sid now ss = touched ttl sid now ss (find (is_alive now sid) ss)

unfoldable pub destroy : {D : Type 0} → String → List (Session D) → List (Session D)
destroy sid ss = keep (λ s. not (str_eq s.sid sid)) ss

pub record RequestSession (D : Type 0) : Type 0 where
  pub id : String
  pub value : D
  pub is_new : Bool

abbrev pub fresh_session :
    {D : Type 0} → ℕ → String → D → ℕ → List (Session D) → RequestSession D × List (Session D)
fresh_session ttl drawn empty now ss =
    (record { id = drawn; value = empty; is_new = true }, create ttl drawn empty now ss)

abbrev pub resume :
    {D : Type 0}
    → ℕ
    → String
    → String
    → D
    → ℕ
    → Option D × List (Session D)
    → RequestSession D × List (Session D)
resume ttl sid drawn empty now (none, ss) = fresh_session ttl drawn empty now ss
resume ttl sid drawn empty now (some value, ss) =
    (record { id = sid; value = value; is_new = false }, ss)

-- `sessionMiddleware` behind the cookie: the session that the cookie names, or a new one.
unfoldable pub session_of :
    {D : Type 0}
    → ℕ
    → Option String
    → String
    → D
    → ℕ
    → List (Session D)
    → RequestSession D × List (Session D)
session_of ttl none drawn empty now ss = fresh_session ttl drawn empty now ss
session_of ttl (some sid) drawn empty now ss =
    if str_eq sid ""
    then fresh_session ttl drawn empty now ss
    else resume ttl sid drawn empty now (touch ttl sid now ss)
