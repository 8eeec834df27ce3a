-- ===== src/Cache/Flight.antt =====
-- What a run of the cache does, on all its paths.
use node_js_nest_course_proj.Base.{ℕ, ◌≤◌, ◌≡◌, ◌≢◌, ◌⊎◌, Bool, true, false, none, some, count, All}
use node_js_nest_course_proj.Cache.{
  Loaded, loaded, load_throws, Around, Effect, queried, took_lock, unlocked, wrote, Run, Answer,
  Reading, value, malformed, answered, miss, load_failed, parse_failed,
}

abbrev pub is_query : {A : Type 0} → Effect A → Bool
is_query queried = true
is_query took_lock = false
is_query (unlocked reply) = false
is_query (wrote v ttl) = false

abbrev pub is_took : {A : Type 0} → Effect A → Bool
is_took queried = false
is_took took_lock = true
is_took (unlocked reply) = false
is_took (wrote v ttl) = false

abbrev pub is_unlock : {A : Type 0} → Effect A → Bool
is_unlock queried = false
is_unlock took_lock = false
is_unlock (unlocked reply) = true
is_unlock (wrote v ttl) = false

-- What is written is what the database has.
abbrev pub IsLoaded : {A : Type 0} → Around A → Effect A → Type 0
IsLoaded env queried = Unit
IsLoaded env took_lock = Unit
IsLoaded env (unlocked reply) = Unit
IsLoaded env (wrote v ttl) = env.load ≡ loaded (some v)

abbrev pub of_load : {A : Type 0} → Loaded A → Answer A
of_load (loaded v) = answered v
of_load load_throws = load_failed

abbrev pub of_read : {A : Type 0} → Reading A → Answer A
of_read miss = answered none
of_read (value v) = answered (some v)
of_read malformed = parse_failed

-- The result is that of a read of the cache that was no miss, or the database's answer, its
-- exception included.
abbrev pub Comes : {A : Type 0} → Around A → Answer A → Type 0
Comes env r =
    ((k : ℕ) × (env.reads k ≢ miss) × (r ≡ of_read (env.reads k))) ⊎ (r ≡ of_load env.load)

pub record IsOrderly {A : Type 0} (env : Around A) (r : Run A) : Type 0 where
  pub comes : Comes env r.result
  pub one_query : count is_query r.effects ≤ 1
  pub unlocks : count is_took r.effects ≡ count is_unlock r.effects
  pub faithful : All (IsLoaded env) r.effects
