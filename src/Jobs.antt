-- ===== src/Jobs.antt =====
-- The pool of workers (src/queue-worker.ts): each takes one free job in a transaction that holds the
-- job's lock to its end, and stops when no job is new. A worker whose transaction runs meanwhile sees
-- the job as locked, which is how overlapping turns become a sequence.
pub mod Once
pub mod Drain
mod Tests
use node_js_nest_course_proj.Base.{
  ℕ, zero, suc, ◌+◌, ◌-◌, ◌*◌, ◌/◌, ◌%◌, ◌^◌, ◌≤◌, ◌<◌, min, max, String, ◌≡◌, refl, sym, ap, subst,
  ◌∙◌, fun_ext, ◌≢◌, ◌↔◌, ◌⊎◌, inl, inr, Bool, true, false, not, ◌&&◌, ◌||◌, Option, none, some,
  List, [], ◌∷◌, ◌++◌, map, append-nil, append_assoc, map-append, arith, eq_iff, ltb, leb, ◌==◌,
  str_eq, if◌then◌else◌, ==_iff, str_eq_self, Bool-cases, if_elim, Option-cases, is_some, get_or,
  length, take, drop, head?, keep, find, sum_of, count, any, length-append, sum_of-append,
  find-append, any-find, find-none_of_any, any-append, length-take, length-take_eq, length-drop,
  take-append-drop, All, All-append, All-imp, find-All, any-All, All-keep, All-and, All-take,
  Distinct, length-map,
}
use node_js_nest_course_proj.Shop.{JobQueue, JobStatus, new, done}

-- What surrounds one turn: its worker, the locks that others hold, and what throws.
pub record Turn : Type 0 where
  pub worker : String
  pub locked : ℕ → Bool
  pub select_throws : Bool
  pub update_throws : Bool
  pub commit_throws : Bool

pub data ClaimResult : Type 0 where
  job_done empty claim_threw : ClaimResult

abbrev pub is_new : JobQueue → Bool
is_new j = elim j.status [ new ↦ true | done ↦ false ]

abbrev pub lower : ℕ → Option ℕ → ℕ
lower id none = id
lower id (some other) = min id other

-- SELECT id FROM job_queue WHERE status = 'new' ORDER BY id LIMIT 1 FOR UPDATE SKIP LOCKED
unfoldable pub next_job : (ℕ → Bool) → List JobQueue → Option ℕ
next_job locked [] = none
next_job locked (j ∷ js) =
    let rest = next_job locked js in
    if is_new j && not (locked j.id) then some (lower j.id rest) else rest

-- UPDATE job_queue SET status = 'done', worker = $1, processed = processed + 1 WHERE id = $2
abbrev pub process : String → JobQueue → JobQueue
process worker j = record j { status = done; worker = some worker; processed = j.processed + 1 }

unfoldable pub finish_job : String → ℕ → List JobQueue → List JobQueue
finish_job worker id [] = []
finish_job worker id (j ∷ js) =
    (if j.id == id then process worker j else j) ∷ finish_job worker id js

abbrev pub claim_job : Turn → List JobQueue → Option ℕ → ClaimResult × List JobQueue
claim_job turn jobs none = if turn.commit_throws then (claim_threw, jobs) else (empty, jobs)
claim_job turn jobs (some id) =
    if turn.update_throws || turn.commit_throws
    then (claim_threw, jobs)
    else (job_done, finish_job turn.worker id jobs)

unfoldable pub claim_one : Turn → List JobQueue → ClaimResult × List JobQueue
claim_one turn jobs =
    if turn.select_throws
    then (claim_threw, jobs)
    else claim_job turn jobs (next_job turn.locked jobs)

-- SELECT count(*) FROM job_queue WHERE status = 'new'
abbrev pub count_new : List JobQueue → ℕ
count_new = count is_new

-- How the loop of `runWorker` goes on: an exception ends it, `some false`; the queue being empty too.
abbrev pub after_claim :
    (List JobQueue → Option (Bool × List JobQueue))
    → ClaimResult × List JobQueue
    → Option (Bool × List JobQueue)
after_claim again (claim_threw, jobs) = some (false, jobs)
after_claim again (job_done, jobs) = again jobs
after_claim again (empty, jobs) = if count_new jobs == 0 then some (true, jobs) else again jobs

-- `runWorker`, with the turns as a function of their number; `none` when the fuel runs out.
unfoldable pub run_worker : ℕ → (ℕ → Turn) → ℕ → List JobQueue → Option (Bool × List JobQueue)
run_worker zero turns k jobs = none
run_worker (suc fuel) turns k jobs =
    after_claim (λ js. run_worker fuel turns (suc k) js) (claim_one (turns k) jobs)

-- Turns of any workers, one after another.
unfoldable pub run_turns : List Turn → List JobQueue → List JobQueue
run_turns [] jobs = jobs
run_turns (t ∷ ts) jobs = run_turns ts (claim_one t jobs).1
