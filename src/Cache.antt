-- ===== src/Cache.antt =====
-- The cache in front of the database (src/redis/cache.ts): cache-aside with a lock for a single
-- flight. A run of `get` is its result with what it did, in order. What Redis answers is given by
-- number of the read; an operation that fails counts as a miss, which is what `safe` makes of it,
-- but the parsing of what a read found stands outside of `safe`.
pub mod Flight
mod Tests
use node_js_nest_course_proj.Base.{
  ℕ, zero, suc, ◌+◌, ◌-◌, ◌*◌, ◌/◌, ◌%◌, ◌^◌, ◌≤◌, ◌<◌, min, max, String, ◌≡◌, refl, sym, ap, subst,
  ◌∙◌, fun_ext, ◌≢◌, ◌↔◌, ◌⊎◌, inl, inr, Bool, true, false, not, ◌&&◌, ◌||◌, Option, none, some,
  List, [], ◌∷◌, ◌++◌, map, append-nil, append_assoc, map-append, arith, eq_iff, ltb, leb, ◌==◌,
  str_eq, if◌then◌else◌, ==_iff, str_eq_self, Bool-cases, if_elim, Option-cases, is_some, get_or,
  length, take, drop, head?, keep, find, sum_of, count, any, length-append, sum_of-append,
  find-append, any-find, find-none_of_any, any-append, length-take, length-take_eq, length-drop,
  take-append-drop, All, All-append, All-imp, find-All, any-All, All-keep, All-and, All-take,
  Distinct, length-map,
}

pub record CacheOptions : Type 0 where
  pub ttl_sec : ℕ
  pub jitter_sec : ℕ
  pub single_flight : Bool

-- What surrounds one `get`: the value that each read of the key finds, what SET NX and the script that frees the lock answer,
-- how many polls fit before the deadline, the database, and the jitter that is drawn.
pub data Loaded (A : Type 0) : Type 0 where
  loaded : Option A → Loaded A
  load_throws : Loaded A

-- `read`: nothing there, a value, or a text that is no JSON, at which JSON.parse throws.
pub data Reading (A : Type 0) : Type 0 where
  miss malformed : Reading A
  value : A → Reading A

-- What SET NX answers: OK, or that another has the lock; or it throws, which `safe` makes the same of.
pub data LockReply : Type 0 where
  granted held lock_threw : LockReply

-- What becomes of the script that frees the lock: it deletes the key if that has the token of the run,
-- and it may throw, which `safe` swallows. A lock that stays ends with its own lifetime.
pub data UnlockReply : Type 0 where
  deleted not_own unlock_threw : UnlockReply

-- The queries and the commands that a run sends and that change something.
-- How a `get` ends.
pub data Answer (A : Type 0) : Type 0 where
  answered : Option A → Answer A
  load_failed parse_failed : Answer A

pub record Around (A : Type 0) : Type 0 where
  pub reads : ℕ → Reading A
  pub lock : LockReply
  pub unlock : UnlockReply
  pub polls : ℕ
  pub load : Loaded A
  pub jitter : ℕ

pub data Effect (A : Type 0) : Type 0 where
  queried took_lock : Effect A
  unlocked : UnlockReply → Effect A
  wrote : A → (ttl : ℕ) → Effect A

pub record Run (A : Type 0) : Type 0 where
  pub result : Answer A
  pub effects : List (Effect A)

-- `jitteredTtl`, with the part of the second argument that the draw selects.
abbrev pub jittered_ttl : ℕ → ℕ → ℕ → ℕ
jittered_ttl ttl_sec jitter_sec drawn = ttl_sec + drawn % suc jitter_sec

abbrev pub hit : {A : Type 0} → A → Run A
hit v = record { result = answered (some v); effects = [] }

-- `fill`: the database, and the write of what it has.
abbrev pub fill_with : {A : Type 0} → ℕ → Loaded A → Run A
fill_with ttl (loaded (some v)) = record {
  result = answered (some v);
  effects = queried ∷ wrote v ttl ∷ [];
}
fill_with ttl (loaded none) = record { result = answered none; effects = queried ∷ [] }
fill_with ttl load_throws = record { result = load_failed; effects = queried ∷ [] }

abbrev pub fill : {A : Type 0} → CacheOptions → Around A → Run A
fill opts env = fill_with (jittered_ttl opts.ttl_sec opts.jitter_sec env.jitter) env.load

abbrev pub or_else : {A : Type 0} → Reading A → Run A → Run A
or_else (value v) r = hit v
or_else miss r = r
or_else malformed r = record { result = parse_failed; effects = [] }

-- The leader: the second look at the cache, then the database; `finally` sends the script that frees
-- the lock.
abbrev pub locked : {A : Type 0} → UnlockReply → Run A → Run A
locked reply r = record {
  result = r.result;
  effects = took_lock ∷ (r.effects ++ unlocked reply ∷ []);
}

abbrev pub is_granted : LockReply → Bool
is_granted granted = true
is_granted held = false
is_granted lock_threw = false

-- The followers: the reads from the k-th on, until one hits or the deadline is over.
unfoldable pub wait : {A : Type 0} → (ℕ → Reading A) → Run A → ℕ → ℕ → Run A
wait reads last k zero = last
wait reads last k (suc polls) = or_else (reads k) (wait reads last (suc k) polls)

unfoldable pub get : {A : Type 0} → CacheOptions → Around A → Run A
unfolding wait
get opts env = or_else (env.reads 0) (
    if not opts.single_flight
    then fill opts env
    else if is_granted env.lock
    then locked env.unlock (or_else (env.reads 1) (fill opts env))
    else wait env.reads (fill opts env) 1 env.polls)
