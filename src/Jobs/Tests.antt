-- ===== src/Jobs/Tests.antt =====
-- Two workers and three jobs: one turn finds a job locked, one throws at its commit.
use node_js_nest_course_proj.Base.{
  ℕ, String, ◌≡◌, refl, Bool, true, false, none, List, [], ◌∷◌, map, arith, ◌==◌,
}
use node_js_nest_course_proj.Shop.{JobQueue, new}
use node_js_nest_course_proj.Jobs.{Turn, claim_one, next_job, finish_job, run_turns, run_worker}
use node_js_nest_course_proj.Jobs.Once.{IsSound, run_turns-IsSound}
use node_js_nest_course_proj.Jobs.Drain.{IsSmooth, Stopped, run_worker-Stopped}

abbrev job : ℕ → JobQueue
job n = record {
  id = n;
  order_id = n;
  kind = "post_processing";
  status = new;
  worker = none;
  processed = 0;
  created_at = n;
}

abbrev jobs : List JobQueue
jobs = job 3 ∷ job 1 ∷ job 2 ∷ []

abbrev turn : String → (ℕ → Bool) → Bool → Turn
turn worker locked commit_throws = record {
  worker = worker;
  locked = locked;
  select_throws = false;
  update_throws = false;
  commit_throws = commit_throws;
}

abbrev turns : List Turn
turns =
    turn "a" (λ id. false) false
    ∷ turn "b" (λ id. id == 2) true
    ∷ turn "a" (λ id. id == 2) false
    ∷ []

left : map (λ j. j.processed) (run_turns turns jobs) ≡ 1 ∷ 1 ∷ 0 ∷ []
unfolding run_turns claim_one next_job finish_job
left = refl

jobs-IsSound : IsSound jobs
jobs-IsSound = record {
  distinct = (
    (λ e. absurd (omega (arith, e)), (λ e. absurd (omega (arith, e)), tt)),
    ((λ e. absurd (omega (arith, e)), tt), (tt, tt)),
  );
  once = (refl, (refl, (refl, tt)));
}

run_turns-IsSound_example : IsSound (run_turns turns jobs)
run_turns-IsSound_example = run_turns-IsSound turns jobs jobs-IsSound

smooth : IsSmooth (turn "a" (λ id. false) false)
smooth = record { unlocked = λ id. refl; selects = refl; updates = refl; commits = refl }

run_worker-Stopped_example : Stopped (run_worker 4 (λ n. turn "a" (λ id. false) false) 0 jobs)
run_worker-Stopped_example =
    run_worker-Stopped 4 (λ n. turn "a" (λ id. false) false) 0 jobs (λ n. smooth) jobs-IsSound
      (omega arith)
