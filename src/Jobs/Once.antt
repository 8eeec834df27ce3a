-- ===== src/Jobs/Once.antt =====
-- No job is processed twice, whichever workers take their turns.
use node_js_nest_course_proj.Base.{
  ℕ, ◌+◌, String, ◌≡◌, refl, sym, ap, subst, ◌∙◌, ◌≢◌, ◌⊎◌, inl, inr, Bool, true, not, ◌&&◌, ◌||◌,
  Option, none, some, List, [], ◌∷◌, map, arith, leb, ◌==◌, Bool-cases, if_elim, any, All, All-imp,
  any-All, Distinct,
}
use mathlib.Core.Option.{some-injective}
use node_js_nest_course_proj.Shop.{JobQueue, JobStatus, new, done}
use node_js_nest_course_proj.Jobs.{
  is_new, lower, next_job, finish_job, claim_one, run_turns, Turn, claim_job, ClaimResult,
}

-- How often a job of this status has been processed.
abbrev pub times : JobStatus → ℕ
times new = 0
times done = 1

abbrev pub IsOnce : JobQueue → Type 0
IsOnce j = j.processed ≡ times j.status

abbrev pub ids : List JobQueue → List ℕ
ids js = map (λ j. j.id) js

-- The job that is taken: its row is new, wherever it stands.
abbrev pub IsNewAt : ℕ → JobQueue → Type 0
IsNewAt id j = j.id ≡ id → is_new j ≡ true

All-ids : (P : ℕ → Type 0) (js : List JobQueue) → All P (ids js) → All (λ j. P j.id) js
All-ids P [] h = tt
All-ids P (j ∷ js) h = (h.0, All-ids P js h.1)

abbrev pub is_new_at : ℕ → JobQueue → Bool
is_new_at id j = j.id == id && is_new j

lower-is : (a : ℕ) (o : Option ℕ) (id : ℕ) → lower a o ≡ id → (a ≡ id) ⊎ (o ≡ some id)
lower-is a none id h = inl h
lower-is a (some b) id h = elim (Bool-cases (leb a b)) [
  | inl first ↦ inl (ground arith)
  | inr second ↦ inr (ap some (ground arith))
]

-- The job that the query returns is new.
pub next_job-new :
    (locked : ℕ → Bool) (js : List JobQueue) (id : ℕ)
    → next_job locked js ≡ some id
    → any (is_new_at id) js ≡ true
unfolding next_job
next_job-new locked [] id h = absurd (cc)
next_job-new locked (j ∷ js) id h = elim (Bool-cases (is_new j && not (locked j.id))) [
  | inl free ↦ elim (lower-is j.id (next_job locked js) id (some-injective _ _ (rw free at h))) [
    | inl here ↦ ground arith
    | inr there ↦ ground (arith, next_job-new locked js id there)
  ]
  | inr taken ↦ ground (arith, next_job-new locked js id (rw taken at h))
]

any-IsNewAt :
    (id : ℕ) (js : List JobQueue)
    → Distinct (ids js)
    → any (is_new_at id) js ≡ true
    → All (IsNewAt id) js
any-IsNewAt id [] d h = tt
any-IsNewAt id (j ∷ js) d h = elim (Bool-cases (is_new_at id j)) [
  | inl here ↦ (
    λ _. ground arith,
    All-imp (λ x differs same. absurd (differs (same ∙ ground arith))) js
        (All-ids (λ m. m ≢ j.id) js d.0),
  )
  | inr not_here ↦
      let rest : any (is_new_at id) js ≡ true = ground arith in
      let (x, hit, differs) =
        any-All (λ x. x.id ≢ j.id) (is_new_at id) js (All-ids (λ m. m ≢ j.id) js d.0) rest in
      (λ same. absurd (differs (ground arith)), any-IsNewAt id js d.1 rest)
]

finish_job-IsOnce :
    (worker : String) (id : ℕ) (js : List JobQueue)
    → All (IsNewAt id) js
    → All IsOnce js
    → All IsOnce (finish_job worker id js)
unfolding finish_job
finish_job-IsOnce worker id [] n h = tt
finish_job-IsOnce worker id (j ∷ js) n h = (
  if_elim IsOnce (j.id == id) (λ same. new-once j.status refl (n.0 (ground arith))) (λ _. h.0),
  finish_job-IsOnce worker id js n.1 h.1,
)
  where
    new-once : (s : JobStatus) → j.status ≡ s → is_new j ≡ true → j.processed + 1 ≡ 1
    new-once new e k = omega (arith, subst (λ s. j.processed ≡ times s) e h.0)
    new-once done e k = absurd (ground arith)

ids-finish_job :
    (worker : String) (id : ℕ) (js : List JobQueue) → ids (finish_job worker id js) ≡ ids js
unfolding finish_job
ids-finish_job worker id [] = refl
ids-finish_job worker id (j ∷ js) = ground (arith, ids-finish_job worker id js)

pub record IsSound (js : List JobQueue) : Type 0 where
  pub distinct : Distinct (ids js)
  pub once : All IsOnce js

pub claim_one-IsSound :
    (turn : Turn) (js : List JobQueue) → IsSound js → IsSound (claim_one turn js).1
unfolding claim_one
claim_one-IsSound turn js s =
    if_elim (λ (x : ClaimResult × List JobQueue). IsSound x.1) turn.select_throws (λ _. s)
      λ _. go (next_job turn.locked js) refl
  where
    go : (o : Option ℕ) → next_job turn.locked js ≡ o → IsSound (claim_job turn js o).1
    go none e =
        if_elim (λ (x : ClaimResult × List JobQueue). IsSound x.1) turn.commit_throws (λ _. s)
          (λ _. s)
    go (some id) e =
        if_elim (λ (x : ClaimResult × List JobQueue). IsSound x.1)
          (turn.update_throws || turn.commit_throws) (λ _. s)
          λ _. record {
            distinct = subst Distinct (sym (ids-finish_job turn.worker id js)) s.distinct;
            once =
                finish_job-IsOnce turn.worker id js
                  (any-IsNewAt id js s.distinct (next_job-new turn.locked js id e)) s.once;
          }

-- Whatever turns the workers take, with whatever locks and exceptions, a job that is new has never
-- been processed and a job that is done has been processed exactly once, if that held before.
pub run_turns-IsSound :
    (turns : List Turn) (js : List JobQueue) → IsSound js → IsSound (run_turns turns js)
unfolding run_turns
run_turns-IsSound [] js s = s
run_turns-IsSound (t ∷ ts) js s = run_turns-IsSound ts (claim_one t js).1 (claim_one-IsSound t js s)
