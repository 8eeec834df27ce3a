-- ===== src/Auth/Single.antt =====
-- One token at a time: a family has at most one refresh token that can still be exchanged.
use node_js_nest_course_proj.Base.{
  ℕ, ◌+◌, ◌≤◌, String, ◌≡◌, refl, sym, ap, subst, ◌∙◌, inl, inr, Bool, true, false, not, ◌&&◌, none,
  some, List, [], ◌∷◌, ◌++◌, arith, eq_iff, str_eq, if◌then◌else◌, Bool-cases, is_some, count, All,
}
use mathlib.Core.Option.{some-injective}
use node_js_nest_course_proj.Auth.{
  AuthUser, AuthDb, RefreshRow, NewPair, issue, find_token, mark_used, revoke_row, revoke_family,
  logout, purge_denylist,
}
use node_js_nest_course_proj.Auth.History.{
  AuthOp, logs_in, refreshes, logs_out, purges, operate, history, refresh-cases, login-cases,
}
use node_js_nest_course_proj.Auth.Reuse.{Spares}

abbrev pub is_live : String → RefreshRow → Bool
is_live f r = str_eq r.family_id f && not (is_some r.used_at) && not (is_some r.revoked_at)

-- How many tokens of a family are neither used nor revoked.
abbrev pub live_tokens : String → List RefreshRow → ℕ
live_tokens f rs = count (is_live f) rs

count-append :
    {A : Type 0} (p : A → Bool) (xs ys : List A) → count p (xs ++ ys) ≡ count p xs + count p ys
count-append p [] ys = omega arith
count-append p (x ∷ xs) ys = omega (arith, count-append p xs ys)

revoke_row-live :
    (f g : String) (now : ℕ) (r : RefreshRow)
    → is_live f (revoke_row now g r) ≡ true
    → is_live f r ≡ true
revoke_row-live f g now r = ground arith

live-revoke_family :
    (f g : String) (now : ℕ) (rs : List RefreshRow)
    → live_tokens f (revoke_family now g rs) ≤ live_tokens f rs
unfolding revoke_family
live-revoke_family f g now [] = omega arith
live-revoke_family f g now (r ∷ rs) =
    ground (arith, revoke_row-live f g now r, live-revoke_family f g now rs)

find_token-hash :
    (h : String) (rs : List RefreshRow) (row : RefreshRow)
    → find_token h rs ≡ some row
    → row.token_hash ≡ h
find_token-hash h [] row e = absurd (cc)
find_token-hash h (r ∷ rs) row e = elim (Bool-cases (str_eq r.token_hash h)) [
  | inl hit ↦
      let same : r ≡ row = some-injective _ _ (rw hit at e) in
      sym (ap (λ x. x.token_hash) same) ∙ (eq_iff r.token_hash h).0 hit
  | inr miss ↦ find_token-hash h rs row (rw miss at e)
]

live-first :
    (f : String) (now : ℕ) (r : RefreshRow) (rs : List RefreshRow)
    → is_some r.used_at ≡ false
    → is_some r.revoked_at ≡ false
    → live_tokens f (r ∷ rs)
      ≡ live_tokens f (record r { used_at = some now } ∷ rs)
        + (if str_eq r.family_id f then 1 else 0)
live-first f now r rs unused live = ground (arith, unused, live)

live-new :
    (f : String) (r : RefreshRow)
    → is_some r.used_at ≡ false
    → is_some r.revoked_at ≡ false
    → live_tokens f (r ∷ []) ≡ (if str_eq r.family_id f then 1 else 0)
live-new f r unused live = ground (arith, unused, live)

-- Marking the token that was found takes it from the live ones of its family.
live-mark_used :
    (f h : String) (now : ℕ) (rs : List RefreshRow) (row : RefreshRow)
    → find_token h rs ≡ some row
    → is_some row.used_at ≡ false
    → is_some row.revoked_at ≡ false
    → live_tokens f rs
      ≡ live_tokens f (mark_used now h rs) + (if str_eq row.family_id f then 1 else 0)
unfolding mark_used
live-mark_used f h now [] row e unused live = absurd (cc)
live-mark_used f h now (r ∷ rs) row e unused live = elim (Bool-cases (str_eq r.token_hash h)) [
  | inl hit ↦
      let same : r ≡ row = some-injective _ _ (rw hit at e) in
      rw hit (
        live-first f now r rs (ap (λ y. is_some y.used_at) same ∙ unused)
          (ap (λ y. is_some y.revoked_at) same ∙ live)
        ∙ ap
            (λ y.
              live_tokens f (record r { used_at = some now } ∷ rs)
              + (if str_eq y.family_id f then 1 else 0))
            same)
  | inr miss ↦
      let ih = live-mark_used f h now rs row (rw miss at e) unused live in
      rw miss (omega (arith, ih))
]

module _ (hash : String → String) (sign : AuthUser → String) (access_ttl refresh_ttl : ℕ)
    (scrypt_matches : String → String → String → Bool) (dummy : List String) (f : String) where
  abbrev pub IsSingle : AuthDb → Type 0
  IsSingle db = live_tokens f db.refresh_tokens ≤ 1

  abbrev new_row : NewPair → String → ℕ → ℕ → RefreshRow
  new_row pair family user_id now = record {
    token_hash = hash pair.raw;
    family_id = family;
    user_id = user_id;
    used_at = none;
    revoked_at = none;
    expires_at = now + refresh_ttl;
  }

  operate-IsSingle :
      (op : AuthOp) (db : AuthDb)
      → Spares f op
      → IsSingle db
      → IsSingle (operate hash sign access_ttl refresh_ttl scrypt_matches dummy op db)
  unfolding operate issue logout purge_denylist
  operate-IsSingle (logs_in email password family pair now) db spares h =
      login-cases hash sign access_ttl refresh_ttl scrypt_matches dummy IsSingle email password
        family pair now db h
        (λ user.
          let other : str_eq family f ≡ false = ground (arith, (eq_iff family f).0) in
          let added =
            live-new f (new_row pair family user.id now) refl refl
            ∙ ap (λ b. if b then 1 else 0) other in
          omega (
            arith,
            h,
            count-append (is_live f) db.refresh_tokens (new_row pair family user.id now ∷ []),
            added,
          ))
  operate-IsSingle (refreshes raw pair now) db spares h =
      refresh-cases hash sign access_ttl refresh_ttl scrypt_matches dummy (λ x. IsSingle x.1) raw
        pair now db h
        (λ row e used. omega (arith, h, live-revoke_family f row.family_id now db.refresh_tokens))
        (λ row user e unused live.
          let found =
            subst (λ k. find_token k db.refresh_tokens ≡ some row)
              (sym (find_token-hash (hash raw) db.refresh_tokens row e)) e in
          let taken = live-mark_used f row.token_hash now db.refresh_tokens row found unused live in
          let added = live-new f (new_row pair row.family_id row.user_id now) refl refl in
          omega (
            arith,
            h,
            taken,
            added,
            count-append (is_live f) (mark_used now row.token_hash db.refresh_tokens)
                (new_row pair row.family_id row.user_id now ∷ []),
          ))
  operate-IsSingle (logs_out user now) db spares h =
      omega (arith, h, live-revoke_family f user.fid now db.refresh_tokens)
  operate-IsSingle (purges now) db spares h = h

  -- A family never has two refresh tokens that could be exchanged: if it has at most one, it has at
  -- most one after any logins, refreshes, logouts and purges, as long as no login draws the
  -- identifier of that family once more.
  pub history-IsSingle :
      (ops : List AuthOp) (db : AuthDb)
      → All (Spares f) ops
      → IsSingle db
      → IsSingle (history hash sign access_ttl refresh_ttl scrypt_matches dummy ops db)
  unfolding history
  history-IsSingle [] db s h = h
  history-IsSingle (op ∷ ops) db s h =
      history-IsSingle ops (operate hash sign access_ttl refresh_ttl scrypt_matches dummy op db) s.1
        (operate-IsSingle op db s.0 h)
