-- ===== src/Cache/Tests.antt =====
-- A leader whose database throws and whose lock stays, and a follower whose third read hits.
use node_js_nest_course_proj.Base.{ℕ, ◌≡◌, refl, true, some, [], ◌∷◌, ◌==◌, if◌then◌else◌}
use node_js_nest_course_proj.Cache.{
  CacheOptions, loaded, load_throws, Around, queried, took_lock, granted, held, deleted,
  unlock_threw, unlocked, wait, get, miss, load_failed, value, answered, malformed, parse_failed,
}

abbrev options : CacheOptions
options = record { ttl_sec = 300; jitter_sec = 60; single_flight = true }

abbrev leader : Around ℕ
leader = record {
  reads = λ k. miss;
  lock = granted;
  unlock = unlock_threw;
  polls = 0;
  load = load_throws;
  jitter = 7;
}

throws :
    get options leader
    ≡ record { result = load_failed; effects = took_lock ∷ queried ∷ unlocked unlock_threw ∷ [] }
unfolding get wait
throws = refl

abbrev follower : Around ℕ
follower = record {
  reads = λ k. if k == 2 then value 5 else miss;
  lock = held;
  unlock = deleted;
  polls = 9;
  load = loaded (some 6);
  jitter = 7;
}

waits : (get options follower).result ≡ answered (some 5)
unfolding get wait
waits = refl

-- A value that is no JSON fails the request.
abbrev broken : Around ℕ
broken = record {
  reads = λ k. malformed;
  lock = granted;
  unlock = unlock_threw;
  polls = 0;
  load = loaded (some 6);
  jitter = 7;
}

fails : (get options broken).result ≡ parse_failed
unfolding get wait
fails = refl
