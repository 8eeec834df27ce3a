-- ===== src/Retry/Attempts.antt =====
-- Which attempt ends a retried transaction.
use node_js_nest_course_proj.Base.{
  ℕ, zero, suc, ◌+◌, ◌≤◌, ◌<◌, ◌≡◌, refl, sym, subst, inl, inr, true, ◌&&◌, arith, ltb, ◌==◌,
  ==_iff, Bool-cases, if_elim,
}
use node_js_nest_course_proj.Retry.{
  Attempt, committed, rolled_back, is_retryable, after_attempt, with_retry,
}

-- An attempt after which there is another one.
abbrev pub IsRetried : {A : Type 0} → ℕ → ℕ → Attempt A → Type 0
IsRetried max_attempts n (committed a) = ⊥
IsRetried max_attempts n (rolled_back e) = (is_retryable e.code ≡ true) × (n < max_attempts)

-- The result is that of attempt `last`; all attempts from the first to it were retried, and after it
-- there is none.
pub record EndsAt {A : Type 0} (attempts : ℕ → Attempt A) (max_attempts first : ℕ)
    (r : Attempt A × ℕ) : Type 0 where
  pub result : r.0 ≡ attempts r.1
  pub from_first : first ≤ r.1
  pub earlier : (n : ℕ) → first ≤ n → n < r.1 → IsRetried max_attempts n (attempts n)
  pub last : ¬ IsRetried max_attempts r.1 (attempts r.1)

ends_here :
    {A : Type 0} (attempts : ℕ → Attempt A) (max_attempts first : ℕ) (x : Attempt A)
    → attempts first ≡ x
    → ¬ IsRetried max_attempts first x
    → EndsAt attempts max_attempts first (x, first)
ends_here attempts max_attempts first x e h = record {
  result = sym e;
  from_first = omega arith;
  earlier = λ n a b. absurd (omega (arith, a, b));
  last = λ k. h (subst (IsRetried max_attempts first) e k);
}

last_attempt :
    {A : Type 0} (max_attempts n : ℕ) (x : Attempt A)
    → max_attempts ≤ n
    → ¬ IsRetried max_attempts n x
last_attempt max_attempts n (committed a) l h = h
last_attempt max_attempts n (rolled_back e) l h = omega (arith, l, h.1)

-- One attempt more in front.
ends_later :
    {A : Type 0} (attempts : ℕ → Attempt A) (max_attempts first : ℕ) (r : Attempt A × ℕ)
    → IsRetried max_attempts first (attempts first)
    → EndsAt attempts max_attempts (suc first) r
    → EndsAt attempts max_attempts first r
ends_later attempts max_attempts first r h b = record {
  result = b.result;
  from_first = omega (arith, b.from_first);
  earlier = λ n a l. elim (Bool-cases (first == n)) [
    | inl same ↦ subst (λ k. IsRetried max_attempts k (attempts k)) ((==_iff first n).0 same) h
    | inr other ↦ b.earlier n (ground arith) l
  ];
  last = b.last;
}

with_retry-from :
    {A : Type 0} (attempts : ℕ → Attempt A) (max_attempts fuel first : ℕ)
    → first ≤ max_attempts
    → max_attempts ≤ first + fuel
    → EndsAt attempts max_attempts first (with_retry attempts max_attempts fuel first)
unfolding with_retry
with_retry-from attempts max_attempts zero first l m =
    ends_here attempts max_attempts first (attempts first) refl
      (last_attempt max_attempts first (attempts first) (omega arith))
with_retry-from {A} attempts max_attempts (suc fuel) first l m =
    go (λ early. with_retry-from attempts max_attempts fuel (suc first) early (omega arith))
      (attempts first) refl
  where
    go :
        (first < max_attempts
          → EndsAt attempts max_attempts
              (suc first)
              (with_retry attempts max_attempts fuel (suc first)))
        → (x : Attempt A) → attempts first ≡ x
        → EndsAt attempts max_attempts first
            (after_attempt first max_attempts (with_retry attempts max_attempts fuel (suc first)) x)
    go ih (committed a) e = ends_here attempts max_attempts first (committed a) e (λ h. h)
    go ih (rolled_back x) e =
        if_elim (EndsAt attempts max_attempts first) (is_retryable x.code && ltb first max_attempts)
          (λ retried.
            ends_later attempts max_attempts first _
              (subst (IsRetried max_attempts first) (sym e) (ground arith, ground arith))
              (ih (ground arith)))
          (λ final.
            ends_here attempts max_attempts first (rolled_back x) e
              λ h. absurd (ground (arith, h.0, h.1)))

IsRetried-below :
    {A : Type 0} (max_attempts n : ℕ) (x : Attempt A)
    → IsRetried max_attempts n x
    → n < max_attempts
IsRetried-below max_attempts n (committed a) h = elim h [ ]
IsRetried-below max_attempts n (rolled_back e) h = h.1

EndsAt-below :
    {A : Type 0} (attempts : ℕ → Attempt A) (max_attempts : ℕ) (r : Attempt A × ℕ)
    → 0 < max_attempts
    → EndsAt attempts max_attempts 1 r
    → r.1 ≤ max_attempts
EndsAt-below attempts max_attempts (x, zero) pos b = omega arith
EndsAt-below attempts max_attempts (x, suc zero) pos b = omega arith
EndsAt-below attempts max_attempts (x, suc (suc n)) pos b = omega (
  arith,
  IsRetried-below max_attempts (suc n) (attempts (suc n))
      (b.earlier (suc n) (omega arith) (omega arith)),
)

-- A retried transaction ends with its first attempt that commits, or that fails in a way that is not
-- worth a retry, or with its last attempt; it makes at least one and at most `max_attempts`.
pub with_retry-EndsAt :
    {A : Type 0} (attempts : ℕ → Attempt A) (max_attempts : ℕ)
    → 0 < max_attempts
    → EndsAt attempts max_attempts 1 (with_retry attempts max_attempts max_attempts 1)
      × ((with_retry attempts max_attempts max_attempts 1).1 ≤ max_attempts)
with_retry-EndsAt attempts max_attempts pos = (
  with_retry-from attempts max_attempts max_attempts 1 pos (omega arith),
  EndsAt-below attempts max_attempts _ pos
      (with_retry-from attempts max_attempts max_attempts 1 pos (omega arith)),
)
