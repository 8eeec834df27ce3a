-- ===== src/Sessions/Browser.antt =====
-- The sessions of a browser among those of others (src/redis/session.ts): requests that go through the
-- middleware, and what their handlers save.
use node_js_nest_course_proj.Base.{
  ℕ, ◌+◌, ◌<◌, String, ◌≡◌, refl, sym, ap, subst, ◌∙◌, ◌⊎◌, inl, inr, Bool, true, false, not,
  Option, none, some, List, [], ◌∷◌, arith, eq_iff, str_eq, if◌then◌else◌, str_eq_self, Bool-cases,
  if_elim, get_or, keep, find,
}
use Prim.Native.Char.{Char}
use node_js_nest_course_proj.Sessions.{
  Session, RequestSession, save, create, touch, touched, session_of, fresh_session, resume,
  is_alive,
}
use node_js_nest_course_proj.Sessions.Cookie.{read_cookie, session_cookie, session_middleware}

-- A request, with the identifier that is drawn should it get a new session, its time, and what its
-- handler saves, if it saves anything.
pub record Request (D : Type 0) : Type 0 where
  pub header : Option String
  pub drawn : String
  pub now : ℕ
  pub saves : Option D

abbrev pub saved : {D : Type 0} → ℕ → String → ℕ → Option D → List (Session D) → List (Session D)
saved ttl id now none ss = ss
saved ttl id now (some value) ss = save ttl id value now ss

abbrev pub names : String → Option String → Bool
names sid none = false
names sid (some cookie) = str_eq cookie sid

first {ℓ} :
    {A : Type ℓ} (p : A → Bool) (x : A) (xs : List A) → p x ≡ true → find p (x ∷ xs) ≡ some x
first p x xs h = rw h refl

find-saved :
    {D : Type 0} (ttl : ℕ) (sid : String) (value : D) (before now : ℕ) (ss : List (Session D))
    → now < before + ttl
    → find (is_alive now sid) (save ttl sid value before ss)
      ≡ some (record { sid = sid; value = value; expires_at = before + ttl })
unfolding save
find-saved ttl sid value before now ss early =
    first (is_alive now sid) _ _ (ground (arith, str_eq_self sid))

module _ {D : Type 0} (is_space : Char → Bool) (ttl : ℕ) (empty : D) (sid : String) where
  abbrev pub is_own : Request D → Bool
  is_own r = names sid (read_cookie is_space r.header session_cookie)

  -- What the requests of one cookie get, its session and the header Set-Cookie, while all are served.
  unfoldable pub answers :
      List (Request D) → List (Session D) → List (RequestSession D × Option String)
  unfolding session_middleware
  answers [] ss = []
  answers (r ∷ rs) ss =
      let (session, cookie, after) =
        session_middleware is_space ttl r.header r.drawn empty r.now ss in
      let rest = answers rs (saved ttl session.id r.now r.saves after) in
      if is_own r then (session, cookie) ∷ rest else rest

  -- Each time the session of the cookie, with what was saved last, and no other cookie.
  unfoldable pub unbroken : D → List (Request D) → List (RequestSession D × Option String)
  unbroken value [] = []
  unbroken value (r ∷ rs) =
      let next = unbroken (get_or r.saves value) rs in
      let rest = unbroken value rs in
      if is_own r then (record { id = sid; value = value; is_new = false }, none) ∷ next else rest

  -- Each request of the cookie comes within the lifetime of the one before it; no other draws its
  -- identifier.
  abbrev pub IsActive : ℕ → List (Request D) → Type 0
  IsActive before [] = Unit
  IsActive before (r ∷ rs) =
      ((is_own r ≡ true) × (r.now < before + ttl) × IsActive r.now rs)
      ⊎ ((is_own r ≡ false) × (str_eq r.drawn sid ≡ false) × IsActive before rs)

  abbrev pub Holds : D → ℕ → List (Session D) → Type 0
  Holds value before ss =
      (now : ℕ)
      → now < before + ttl
      → find (is_alive now sid) ss
        ≡ some (record { sid = sid; value = value; expires_at = before + ttl })

  save-own :
      (value : D) (now : ℕ) (ss : List (Session D)) → Holds value now (save ttl sid value now ss)
  save-own value now ss later early = find-saved ttl sid value now later ss early

  find-keep :
      (other : String) (now : ℕ) (ss : List (Session D))
      → str_eq other sid ≡ false
      → find (is_alive now sid) (keep (λ s. not (str_eq s.sid other)) ss)
        ≡ find (is_alive now sid) ss
  find-keep other now [] h = refl
  find-keep other now (s ∷ ss) h = elim (Bool-cases (str_eq s.sid other)) [
    | inl same ↦
        let ih = find-keep other now ss h in
        let equal : s.sid ≡ other = (eq_iff s.sid other).0 same in
        let away : str_eq s.sid sid ≡ false = subst (λ x. str_eq x sid ≡ false) (sym equal) h in
        ground (arith, ih, same, away)
    | inr miss ↦ let ih = find-keep other now ss h in ground (arith, ih, miss)
  ]

  save-other :
      (other : String) (theirs value : D) (before now : ℕ) (ss : List (Session D))
      → str_eq other sid ≡ false
      → Holds value before ss
      → Holds value before (save ttl other theirs now ss)
  unfolding save
  save-other other theirs value before now ss h holds later early =
      let same = find-keep other later ss h in
      let found = holds later early in ground (arith, h, same, found)

  stored-other :
      (other : String) (value : D) (before now : ℕ) (o : Option D) (ss : List (Session D))
      → str_eq other sid ≡ false
      → Holds value before ss
      → Holds value before (saved ttl other now o ss)
  stored-other other value before now none ss h holds = holds
  stored-other other value before now (some theirs) ss h holds =
      save-other other theirs value before now ss h holds

  abbrev pub Apart : D → ℕ → RequestSession D × List (Session D) → Type 0
  Apart value before (session, after) = (str_eq session.id sid ≡ false) × Holds value before after

  fresh-Apart :
      (drawn : String) (value : D) (before now : ℕ) (ss : List (Session D))
      → str_eq drawn sid ≡ false
      → Holds value before ss
      → Apart value before (fresh_session ttl drawn empty now ss)
  unfolding create
  fresh-Apart drawn value before now ss h holds =
      (h, save-other drawn empty value before now ss h holds)

  resume-Apart :
      (other drawn : String) (value : D) (before now : ℕ) (ss : List (Session D))
      (o : Option (Session D))
      → str_eq other sid ≡ false
      → str_eq drawn sid ≡ false
      → Holds value before ss
      → Apart value before (resume ttl other drawn empty now (touched ttl other now ss o))
  resume-Apart other drawn value before now ss none ho hd holds =
      fresh-Apart drawn value before now ss hd holds
  resume-Apart other drawn value before now ss (some s) ho hd holds =
      (ho, save-other other s.value value before now ss ho holds)

  session-Apart :
      (cookie : Option String) (drawn : String) (value : D) (before now : ℕ) (ss : List (Session D))
      → names sid cookie ≡ false
      → str_eq drawn sid ≡ false
      → Holds value before ss
      → Apart value before (session_of ttl cookie drawn empty now ss)
  unfolding session_of touch
  session-Apart none drawn value before now ss hc hd holds =
      fresh-Apart drawn value before now ss hd holds
  session-Apart (some cookie) drawn value before now ss hc hd holds =
      if_elim (Apart value before) (str_eq cookie "")
        (λ h. fresh-Apart drawn value before now ss hd holds)
        (λ h.
          resume-Apart cookie drawn value before now ss (find (is_alive now cookie) ss) hc hd holds)

  session-own :
      (value : D) (drawn : String) (before now : ℕ) (ss : List (Session D))
      → str_eq sid "" ≡ false
      → now < before + ttl
      → Holds value before ss
      → session_of ttl (some sid) drawn empty now ss
        ≡ (record { id = sid; value = value; is_new = false }, save ttl sid value now ss)
  unfolding session_of touch
  session-own value drawn before now ss named early holds =
      rw named
        (ap (λ o. resume ttl sid drawn empty now (touched ttl sid now ss o)) (holds now early))

  names-own : (cookie : Option String) → names sid cookie ≡ true → cookie ≡ some sid
  names-own none h = absurd (cc)
  names-own (some cookie) h = ap some ((eq_iff cookie sid).0 h)

  stored-own :
      (value : D) (now : ℕ) (o : Option D) (ss : List (Session D))
      → Holds (get_or o value) now (saved ttl sid now o (save ttl sid value now ss))
  stored-own value now none ss = save-own value now ss
  stored-own value now (some next) ss = save-own next now (save ttl sid value now ss)

  answers-unbroken :
      (value : D) (before : ℕ) (rs : List (Request D)) (ss : List (Session D))
      → str_eq sid "" ≡ false
      → IsActive before rs
      → Holds value before ss
      → answers rs ss ≡ unbroken value rs
  unfolding answers unbroken
  answers-unbroken value before [] ss named h holds = refl
  answers-unbroken value before (r ∷ rs) ss named (inl (own, early, next)) holds =
      let cookie = names-own (read_cookie is_space r.header session_cookie) own in
      let served =
        ap (λ c. session_of ttl c r.drawn empty r.now ss) cookie
        ∙ session-own value r.drawn before r.now ss named early holds in
      let ih =
        answers-unbroken (get_or r.saves value) r.now rs
          (saved ttl sid r.now r.saves (save ttl sid value r.now ss)) named next
          (stored-own value r.now r.saves ss) in
      rw served (rw own (rw ih refl))
  answers-unbroken value before (r ∷ rs) ss named (inr (own, drawn, next)) holds =
      let cookie = read_cookie is_space r.header session_cookie in
      let (session, after) = session_of ttl cookie r.drawn empty r.now ss in
      let apart = session-Apart cookie r.drawn value before r.now ss own drawn holds in
      rw own (
        answers-unbroken value before rs (saved ttl session.id r.now r.saves after) named next
          (stored-other session.id value before r.now r.saves after apart.0 apart.1))

  -- A session that was saved stays what it is, whatever requests other browsers make meanwhile: as
  -- long as each request of its cookie comes before the lifetime has run since the one before it, and
  -- no request without it draws its identifier, every request of the cookie is given the session with
  -- the value that the handler of the one before it left, and no other cookie is set.
  pub browser_stays :
      (value : D) (before : ℕ) (rs : List (Request D)) (ss : List (Session D))
      → str_eq sid "" ≡ false
      → IsActive before rs
      → answers rs (save ttl sid value before ss) ≡ unbroken value rs
  browser_stays value before rs ss named h =
      answers-unbroken value before rs (save ttl sid value before ss) named h
        (save-own value before ss)
