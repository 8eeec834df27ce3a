-- ===== src/Jobs/Drain.antt =====
-- A worker stops, and only when no job is new.
use node_js_nest_course_proj.Base.{
  ℕ, zero, suc, ◌≤◌, ◌<◌, String, ◌≡◌, refl, sym, subst, Bool, true, false, Option, none, some,
  List, [], ◌∷◌, arith, ◌==◌, if_elim, any,
}
use node_js_nest_course_proj.Shop.{JobQueue}
use node_js_nest_course_proj.Jobs.{
  Turn, job_done, empty, next_job, finish_job, claim_one, count_new, after_claim, run_worker,
}
use node_js_nest_course_proj.Jobs.Once.{IsSound, claim_one-IsSound, next_job-new, is_new_at}

-- Nothing throws, and no other worker holds a lock.
pub record IsSmooth (turn : Turn) : Type 0 where
  pub unlocked : (id : ℕ) → turn.locked id ≡ false
  pub selects : turn.select_throws ≡ false
  pub updates : turn.update_throws ≡ false
  pub commits : turn.commit_throws ≡ false

next_job-none :
    (locked : ℕ → Bool) (js : List JobQueue)
    → ((id : ℕ) → locked id ≡ false)
    → next_job locked js ≡ none
    → count_new js ≡ 0
unfolding next_job
next_job-none locked [] u h = refl
next_job-none locked (j ∷ js) u h = ground (arith, u j.id, next_job-none locked js u)

finish_job-le :
    (worker : String) (id : ℕ) (js : List JobQueue)
    → count_new (finish_job worker id js) ≤ count_new js
unfolding finish_job
finish_job-le worker id [] = omega arith
finish_job-le worker id (j ∷ js) = ground (arith, finish_job-le worker id js)

finish_job-less :
    (worker : String) (id : ℕ) (js : List JobQueue)
    → any (is_new_at id) js ≡ true
    → count_new (finish_job worker id js) < count_new js
unfolding finish_job
finish_job-less worker id [] h = absurd (cc)
finish_job-less worker id (j ∷ js) h =
    ground (arith, finish_job-le worker id js, finish_job-less worker id js)

claim_one-empty :
    (turn : Turn) (js : List JobQueue)
    → IsSmooth turn
    → next_job turn.locked js ≡ none
    → claim_one turn js ≡ (empty, js)
unfolding claim_one
claim_one-empty turn js s e = ground (arith, s.selects, s.commits)

claim_one-done :
    (turn : Turn) (js : List JobQueue) (id : ℕ)
    → IsSmooth turn
    → next_job turn.locked js ≡ some id
    → claim_one turn js ≡ (job_done, finish_job turn.worker id js)
unfolding claim_one
claim_one-done turn js id s e = ground (arith, s.selects, s.updates, s.commits)

-- What a worker that has stopped leaves.
abbrev pub Stopped : Option (Bool × List JobQueue) → Type 0
Stopped none = ⊥
Stopped (some (false, js)) = ⊥
Stopped (some (true, js)) = (count_new js ≡ 0) × IsSound js

-- When no other worker holds a lock and nothing throws, a worker with more fuel than there are new
-- jobs stops without an exception, and leaves no job new and every job processed exactly once.
pub run_worker-Stopped :
    (fuel : ℕ) (turns : ℕ → Turn) (k : ℕ) (js : List JobQueue)
    → ((n : ℕ) → IsSmooth (turns n))
    → IsSound js
    → count_new js < fuel
    → Stopped (run_worker fuel turns k js)
unfolding run_worker
run_worker-Stopped zero turns k js smooth s h = absurd (omega arith)
run_worker-Stopped (suc fuel) turns k js smooth s h =
    go (λ js' s' l. run_worker-Stopped fuel turns (suc k) js' smooth s' l)
      (next_job (turns k).locked js) refl
  where
    go :
        ((js' : List JobQueue)
          → IsSound js'
          → count_new js' < fuel
          → Stopped (run_worker fuel turns (suc k) js'))
        → (o : Option ℕ) → next_job (turns k).locked js ≡ o
        → Stopped (after_claim (λ js'. run_worker fuel turns (suc k) js') (claim_one (turns k) js))
    go ih none e =
        let nothing = next_job-none (turns k).locked js (smooth k).unlocked e in
        subst (λ x. Stopped (after_claim (λ js'. run_worker fuel turns (suc k) js') x))
          (sym (claim_one-empty (turns k) js (smooth k) e))
          (if_elim Stopped (count_new js == 0) (λ _. (nothing, s)) λ other. absurd (ground arith))
    go ih (some id) e =
        let fewer =
          finish_job-less (turns k).worker id js (next_job-new (turns k).locked js id e) in
        let step = claim_one-done (turns k) js id (smooth k) e in
        subst (λ x. Stopped (after_claim (λ js'. run_worker fuel turns (suc k) js') x)) (sym step)
          (ih (finish_job (turns k).worker id js)
            (subst (λ x. IsSound x.1) step (claim_one-IsSound (turns k) js s))
            (omega (arith, fewer, h)))
