-- ===== src/RateLimit/Bound.antt =====
-- No window of time holds more allowed requests than the limit.
use node_js_nest_course_proj.Base.{
  ℕ, ◌+◌, ◌-◌, ◌≤◌, ◌<◌, ◌≡◌, refl, sym, ◌∙◌, ◌⊎◌, inl, inr, false, Option, none, some, List, [],
  ◌∷◌, ◌++◌, arith, ltb, leb, Bool-cases, if_elim, length, All, All-append, All-imp,
}
use mathlib.Core.Option.{some-injective}
use node_js_nest_course_proj.RateLimit.{
  Window, ScriptResult, denies, script_throws, oldest, kept, sliding_window, logged, serve_all,
  RateLimitOptions, RateLimitResult, Request, answer, check,
}
use node_js_nest_course_proj.RateLimit.Counts.{
  in_window, count-live, in_window-live, IsBounded, count-kept, All-kept, length-kept-window,
}

-- A request that is refused changes no window.
refused-IsBounded :
    (win lim before now : ℕ) (w : Window) (log : List ℕ)
    → before ≤ now
    → IsBounded win lim before (w, log)
    → IsBounded win lim now (record w { scores = kept now win w }, log)
refused-IsBounded win lim before now w log l b = record {
  same = λ y h. b.same y (omega arith) ∙ sym (count-kept win now y w b.covers h);
  past =
      All-imp (λ t h. omega (arith, h, l)) (kept now win w)
        (All-kept (λ t. t ≤ before) win now w b.past);
  covers = λ e h. All-kept (λ t. t + win ≤ e) win now w (b.covers e h);
  bound = b.bound;
}

allowed-IsBounded :
    (win lim before now : ℕ) (w : Window) (log : List ℕ)
    → before ≤ now
    → length (kept now win w) < lim
    → IsBounded win lim before (w, log)
    → IsBounded win lim now
        (record { scores = kept now win w ++ now ∷ []; expires_at = some (now + win) }, now ∷ log)
allowed-IsBounded win lim before now w log l free b = record {
  same = λ y h. omega (
    arith,
    b.same y (omega arith),
    count-kept win now y w b.covers h,
    count-live win y (kept now win w) (now ∷ []),
  );
  past =
      All-append (λ t. t ≤ now) (kept now win w) (now ∷ [])
        (All-imp (λ t h. omega (arith, h, l)) (kept now win w)
          (All-kept (λ t. t ≤ before) win now w b.past))
        (omega arith, tt);
  covers = λ e h.
      let ends : now + win ≡ e = some-injective _ _ h in
      let old =
        All-imp (λ t early. omega (arith, early, l, ends)) (kept now win w)
          (All-kept (λ t. t ≤ before) win now w b.past) in
      All-append (λ t. t + win ≤ e) (kept now win w) (now ∷ []) old (omega (arith, ends), tt);
  bound = λ x. elim (Bool-cases (leb now x)) [
    | inl late ↦ ground (
      arith,
      in_window-live win now x log (ground arith),
      b.same now l,
      length-kept-window win now w b.covers,
    )
    | inr early ↦ ground (arith, b.bound x)
  ];
}

later-IsBounded :
    (win lim before now : ℕ) (s : Window × List ℕ)
    → before ≤ now
    → IsBounded win lim before s
    → IsBounded win lim now s
later-IsBounded win lim before now s l b = record {
  same = λ y h. b.same y (omega arith);
  past = All-imp (λ t h. omega (arith, h, l)) s.0.scores b.past;
  covers = b.covers;
  bound = b.bound;
}

-- No request passes because Redis failed: the limiter fails closed, or the limit is no 0 and Redis is
-- there, so that the script does not fail.
abbrev pub IsServed : RateLimitOptions → Request → Type 0
IsServed opts r = (opts.fail_open ≡ false) ⊎ ((0 < opts.limit) × (r.redis_down ≡ false))

-- Only an empty set has no oldest score.
oldest-none : (ts : List ℕ) → oldest ts ≡ none → length ts ≡ 0
oldest-none [] h = refl
oldest-none (t ∷ ts) h = absurd (cc)

closed-IsBounded :
    (opts : RateLimitOptions) (now : ℕ) (w : Window) (log : List ℕ)
    → opts.fail_open ≡ false
    → IsBounded opts.window_ms opts.limit now (w, log)
    → IsBounded opts.window_ms opts.limit now (logged now (answer opts script_throws, w) log)
closed-IsBounded opts now w log closed b = rw closed b

sliding_window-IsBounded :
    (opts : RateLimitOptions) (before now : ℕ) (w : Window) (log : List ℕ)
    → before ≤ now
    → (opts.fail_open ≡ false) ⊎ (0 < opts.limit)
    → IsBounded opts.window_ms opts.limit before (w, log)
    → IsBounded opts.window_ms opts.limit now (
        logged now
          (
            answer opts (sliding_window opts.window_ms opts.limit now w).0,
            (sliding_window opts.window_ms opts.limit now w).1,
          )
          log)
unfolding sliding_window
sliding_window-IsBounded opts before now w log l served b =
    if_elim
      (λ (x : ScriptResult × Window).
        IsBounded opts.window_ms opts.limit now (logged now (answer opts x.0, x.1) log))
      (ltb (length (kept now opts.window_ms w)) opts.limit)
      (λ free. allowed-IsBounded opts.window_ms opts.limit before now w log l (ground arith) b)
      λ full. go full (oldest (kept now opts.window_ms w)) refl
  where
    refused :
        IsBounded opts.window_ms opts.limit now
          (record w { scores = kept now opts.window_ms w }, log)
    refused = refused-IsBounded opts.window_ms opts.limit before now w log l b

    go :
        ltb (length (kept now opts.window_ms w)) opts.limit ≡ false
        → (o : Option ℕ) → oldest (kept now opts.window_ms w) ≡ o
        → (let x : ScriptResult × Window = elim o [
          | none ↦ (script_throws, record w { scores = kept now opts.window_ms w })
          | some t ↦
              (denies (t + opts.window_ms - now), record w { scores = kept now opts.window_ms w })
        ] in
            IsBounded opts.window_ms opts.limit now (logged now (answer opts x.0, x.1) log))
    go full none e = elim served [
      | inl closed ↦ closed-IsBounded opts now _ log closed refused
      | inr positive ↦
          absurd (ground (arith, oldest-none (kept now opts.window_ms w) e, positive, full))
    ]
    go full (some t) e = refused

check-IsBounded :
    (opts : RateLimitOptions) (before : ℕ) (r : Request) (w : Window) (log : List ℕ)
    → before ≤ r.now
    → IsServed opts r
    → IsBounded opts.window_ms opts.limit before (w, log)
    → IsBounded opts.window_ms opts.limit r.now (logged r.now (check opts r.now r.redis_down w) log)
unfolding check
check-IsBounded opts before r w log l (inr (positive, up)) b =
    rw up (sliding_window-IsBounded opts before r.now w log l (inr positive) b)
check-IsBounded opts before r w log l (inl closed) b =
    if_elim
      (λ (x : Option RateLimitResult × Window).
        IsBounded opts.window_ms opts.limit r.now (logged r.now x log))
      r.redis_down
      (λ down.
        closed-IsBounded opts r.now w log closed
          (later-IsBounded opts.window_ms opts.limit before r.now (w, log) l b))
      (λ up. sliding_window-IsBounded opts before r.now w log l (inl closed) b)

-- Times that do not run backwards, from a given one on.
abbrev pub IsSorted : ℕ → List Request → Type 0
IsSorted before [] = Unit
IsSorted before (r ∷ rs) = (before ≤ r.now) × IsSorted r.now rs

serve_all-bound :
    (opts : RateLimitOptions) (before : ℕ) (rs : List Request) (w : Window) (log : List ℕ)
    → IsSorted before rs
    → All (IsServed opts) rs
    → IsBounded opts.window_ms opts.limit before (w, log)
    → (x : ℕ) → in_window opts.window_ms x (serve_all opts rs (w, log)).1 ≤ opts.limit
unfolding serve_all
serve_all-bound opts before [] w log s h b x = b.bound x
serve_all-bound opts before (r ∷ rs) w log s h b x =
    let next = logged r.now (check opts r.now r.redis_down w) log in
    serve_all-bound opts r.now rs next.0 next.1 s.1 h.1
      (check-IsBounded opts before r w log s.0 h.0 b) x

abbrev pub fresh : Window
fresh = record { scores = []; expires_at = none }

-- However the requests of a client come, at times that do not run backwards, no window of the given
-- length holds more allowed requests than the limit, wherever it ends: there is no burst at a border.
-- It is assumed that the limiter fails closed, or that the limit is positive and Redis is there at
-- each request; a limiter that fails open lets every request pass that Redis does not answer.
pub window_limit :
    (opts : RateLimitOptions) (rs : List Request) (x : ℕ)
    → IsSorted 0 rs
    → All (IsServed opts) rs
    → in_window opts.window_ms x (serve_all opts rs (fresh, [])).1 ≤ opts.limit
window_limit opts rs x s h =
    serve_all-bound opts 0 rs fresh [] s h
      (record {
        same = λ y h. refl;
        past = tt;
        covers = λ e h. absurd (cc);
        bound = λ y. omega arith;
      })
      x
