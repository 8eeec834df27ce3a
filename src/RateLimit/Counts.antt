-- ===== src/RateLimit/Counts.antt =====
-- Counting the allowed requests of a window, and what the script keeps of them.
use node_js_nest_course_proj.Base.{
  ℕ, ◌+◌, ◌≤◌, ◌≡◌, refl, sym, ◌∙◌, Bool, ◌&&◌, Option, none, some, List, [], ◌∷◌, ◌++◌, arith, ltb,
  leb, if◌then◌else◌, if_elim, length, keep, count, All, All-keep,
}
use node_js_nest_course_proj.RateLimit.{Window, is_expired, kept}

-- Still in the window at a time.
abbrev pub is_live : ℕ → ℕ → ℕ → Bool
is_live win now t = ltb now (t + win)

-- The allowed requests in the window that ends at a time.
abbrev pub in_window : ℕ → ℕ → List ℕ → ℕ
in_window win end log = count (λ t. leb t end && ltb end (t + win)) log

count-keep :
    (win now y : ℕ) (ts : List ℕ)
    → now ≤ y
    → count (is_live win y) (keep (is_live win now) ts) ≡ count (is_live win y) ts
count-keep win now y [] l = refl
count-keep win now y (t ∷ ts) l = ground (arith, count-keep win now y ts l)

length-kept :
    (win now : ℕ) (ts : List ℕ) → length (keep (is_live win now) ts) ≡ count (is_live win now) ts
length-kept win now [] = refl
length-kept win now (t ∷ ts) = ground (arith, length-kept win now ts)

pub count-live :
    (win y : ℕ) (ts more : List ℕ)
    → count (is_live win y) (ts ++ more) ≡ count (is_live win y) ts + count (is_live win y) more
count-live win y [] more = omega arith
count-live win y (t ∷ ts) more = ground (arith, count-live win y ts more)

count-expired :
    (win e y : ℕ) (ts : List ℕ) → All (λ t. t + win ≤ e) ts → e ≤ y → count (is_live win y) ts ≡ 0
count-expired win e y [] h l = refl
count-expired win e y (t ∷ ts) h l = ground (arith, count-expired win e y ts h.1 l)

-- A later window holds less of what is past.
pub in_window-live :
    (win now x : ℕ) (log : List ℕ) → now ≤ x → in_window win x log ≤ count (is_live win now) log
in_window-live win now x [] l = omega arith
in_window-live win now x (t ∷ ts) l = ground (arith, in_window-live win now x ts l)

-- The set's expiry comes after all its scores have left the window.
abbrev pub Covers : ℕ → Window → Type 0
Covers win w = (e : ℕ) → w.expires_at ≡ some e → All (λ t. t + win ≤ e) w.scores

pub record IsBounded (win lim now : ℕ) (s : Window × List ℕ) : Type 0 where
  pub same : (y : ℕ) → now ≤ y → count (is_live win y) s.1 ≡ count (is_live win y) s.0.scores
  pub past : All (λ t. t ≤ now) s.0.scores
  pub covers : Covers win s.0
  pub bound : (x : ℕ) → in_window win x s.1 ≤ lim

pub count-kept :
    (win now y : ℕ) (w : Window)
    → Covers win w
    → now ≤ y
    → count (is_live win y) (kept now win w) ≡ count (is_live win y) w.scores
unfolding kept
count-kept win now y w c l = go w.expires_at refl
  where
    go :
        (o : Option ℕ)
        → w.expires_at ≡ o
        → count (is_live win y) (keep (is_live win now) (if is_expired now o then [] else w.scores))
          ≡ count (is_live win y) w.scores
    go none e = count-keep win now y w.scores l
    go (some e) h =
        if_elim
          (λ ts. count (is_live win y) (keep (is_live win now) ts) ≡ count (is_live win y) w.scores)
          (leb e now) (λ old. sym (count-expired win e y w.scores (c e h) (ground arith)))
          (λ _. count-keep win now y w.scores l)

pub All-kept : (P : ℕ → Type 0) (win now : ℕ) (w : Window) → All P w.scores → All P (kept now win w)
unfolding kept
All-kept P win now w h =
    if_elim (λ ts. All P (keep (is_live win now) ts)) (is_expired now w.expires_at) (λ _. tt)
      λ _. All-keep P (is_live win now) w.scores h

pub length-kept-window :
    (win now : ℕ) (w : Window)
    → Covers win w
    → length (kept now win w) ≡ count (is_live win now) w.scores
unfolding kept
length-kept-window win now w c =
    length-kept win now (if is_expired now w.expires_at then [] else w.scores)
    ∙ sym (
        count-keep win now now (if is_expired now w.expires_at then [] else w.scores) (omega arith))
    ∙ count-kept win now now w c (omega arith)
