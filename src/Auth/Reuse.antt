-- ===== src/Auth/Reuse.antt =====
-- Detection of reuse: a used token that comes again ends its whole family.
use node_js_nest_course_proj.Base.{
  ℕ, String, ◌≡◌, refl, sym, subst, ◌∙◌, ◌≢◌, Bool, true, false, not, ◌&&◌, some, List, [], ◌∷◌,
  arith, eq_iff, str_eq, if_elim, is_some, All, All-append, find-All,
}
use mathlib.Core.Option.{some-injective}
use node_js_nest_course_proj.Auth.{
  AuthUser, AuthDb, RefreshRow, NewPair, refused, invalid_refresh_token, issue, refresh, find_token,
  mark_used, revoke_row, revoke_family, logout, purge_denylist,
}
use node_js_nest_course_proj.Auth.History.{
  AuthOp, logs_in, refreshes, logs_out, purges, operate, history, refresh-cases, login-cases,
}

-- Every token of the family is revoked.
abbrev pub IsEnded : String → RefreshRow → Type 0
IsEnded f r = r.family_id ≡ f → is_some r.revoked_at ≡ true

abbrev pub IsDead : String → AuthDb → Type 0
IsDead f db = All (IsEnded f) db.refresh_tokens

-- No login draws the family's identifier again.
abbrev pub Spares : String → AuthOp → Type 0
Spares f (logs_in email password family pair now) = family ≢ f
Spares f (refreshes raw pair now) = Unit
Spares f (logs_out user now) = Unit
Spares f (purges now) = Unit

revoke_row-IsEnded :
    (f g : String) (now : ℕ) (r : RefreshRow) → IsEnded f r → IsEnded f (revoke_row now g r)
revoke_row-IsEnded f g now r h =
    if_elim (IsEnded f) (str_eq r.family_id g && not (is_some r.revoked_at)) (λ _ _. refl) (λ _. h)

revoke_family-IsEnded :
    (f g : String) (now : ℕ) (rs : List RefreshRow)
    → All (IsEnded f) rs
    → All (IsEnded f) (revoke_family now g rs)
unfolding revoke_family
revoke_family-IsEnded f g now [] h = tt
revoke_family-IsEnded f g now (r ∷ rs) h =
    (revoke_row-IsEnded f g now r h.0, revoke_family-IsEnded f g now rs h.1)

-- Revoking a family ends it.
revoke_row-ends : (f : String) (now : ℕ) (r : RefreshRow) → IsEnded f (revoke_row now f r)
revoke_row-ends f now r =
    if_elim (IsEnded f) (str_eq r.family_id f && not (is_some r.revoked_at)) (λ _ _. refl)
      λ other same. ground (arith, (eq_iff r.family_id f).1 same)

revoke_family-ends :
    (f : String) (now : ℕ) (rs : List RefreshRow) → All (IsEnded f) (revoke_family now f rs)
unfolding revoke_family
revoke_family-ends f now [] = tt
revoke_family-ends f now (r ∷ rs) = (revoke_row-ends f now r, revoke_family-ends f now rs)

mark_used-IsEnded :
    (f h : String) (now : ℕ) (rs : List RefreshRow)
    → All (IsEnded f) rs
    → All (IsEnded f) (mark_used now h rs)
unfolding mark_used
mark_used-IsEnded f h now [] d = tt
mark_used-IsEnded f h now (r ∷ rs) d =
    if_elim (All (IsEnded f)) (str_eq r.token_hash h) (λ _. (d.0, d.1))
      (λ _. (d.0, mark_used-IsEnded f h now rs d.1))

module _ (hash : String → String) (sign : AuthUser → String) (access_ttl refresh_ttl : ℕ)
    (scrypt_matches : String → String → String → Bool) (dummy : List String) where
  refresh-IsDead :
      (f raw : String) (pair : NewPair) (now : ℕ) (db : AuthDb)
      → IsDead f db
      → IsDead f (refresh hash sign access_ttl refresh_ttl raw pair now db).1
  unfolding issue
  refresh-IsDead f raw pair now db d =
      refresh-cases hash sign access_ttl refresh_ttl scrypt_matches dummy (λ x. IsDead f x.1) raw
        pair now db d (λ row _ _. revoke_family-IsEnded f row.family_id now db.refresh_tokens d)
        λ row user e unused live.
          All-append (IsEnded f) (mark_used now row.token_hash db.refresh_tokens) _
            (mark_used-IsEnded f row.token_hash now db.refresh_tokens d)
            (
              λ same. absurd (
                  ground (
                    arith,
                    find-All (IsEnded f) (λ r. str_eq r.token_hash (hash raw)) db.refresh_tokens d e
                        same,
                  )),
              tt,
            )

  operate-IsDead :
      (f : String) (op : AuthOp) (db : AuthDb)
      → Spares f op
      → IsDead f db
      → IsDead f (operate hash sign access_ttl refresh_ttl scrypt_matches dummy op db)
  unfolding operate issue logout purge_denylist
  operate-IsDead f (logs_in email password family pair now) db s d =
      login-cases hash sign access_ttl refresh_ttl scrypt_matches dummy (IsDead f) email password
        family pair now db d
        λ user. All-append (IsEnded f) db.refresh_tokens _ d (λ same. absurd (s same), tt)
  operate-IsDead f (refreshes raw pair now) db s d = refresh-IsDead f raw pair now db d
  operate-IsDead f (logs_out user now) db s d =
      revoke_family-IsEnded f user.fid now db.refresh_tokens d
  operate-IsDead f (purges now) db s d = d

  history-IsDead :
      (f : String) (ops : List AuthOp) (db : AuthDb)
      → All (Spares f) ops
      → IsDead f db
      → IsDead f (history hash sign access_ttl refresh_ttl scrypt_matches dummy ops db)
  unfolding history
  history-IsDead f [] db s d = d
  history-IsDead f (op ∷ ops) db s d = history-IsDead f ops _ s.1 (operate-IsDead f op db s.0 d)

  refresh-dead :
      (f raw : String) (pair : NewPair) (now : ℕ) (db : AuthDb) (r : RefreshRow)
      → IsDead f db
      → find_token (hash raw) db.refresh_tokens ≡ some r
      → r.family_id ≡ f
      → (refresh hash sign access_ttl refresh_ttl raw pair now db).0 ≡ refused invalid_refresh_token
  refresh-dead f raw pair now db r d found same =
      refresh-cases hash sign access_ttl refresh_ttl scrypt_matches dummy
        (λ x. x.0 ≡ refused invalid_refresh_token) raw pair now db refl (λ _ _ _. refl)
        λ row user e unused live.
          let row_is : r ≡ row = some-injective _ _ (sym found ∙ e) in
          absurd (
            ground (
              arith,
              find-All (IsEnded f) (λ r. str_eq r.token_hash (hash raw)) db.refresh_tokens d e
                  (subst (λ x. x.family_id ≡ f) row_is same),
            ))

  reuse-IsDead :
      (raw : String) (pair : NewPair) (now : ℕ) (db : AuthDb) (r : RefreshRow)
      → find_token (hash raw) db.refresh_tokens ≡ some r
      → is_some r.revoked_at ≡ false
      → is_some r.used_at ≡ true
      → IsDead r.family_id (refresh hash sign access_ttl refresh_ttl raw pair now db).1
  unfolding refresh
  reuse-IsDead raw pair now db r found live used =
      rw found (rw live (rw used (revoke_family-ends r.family_id now db.refresh_tokens)))

  -- When a token that was used and is not revoked comes again, it is refused and its family ends:
  -- from then on, whatever follows, every token of the family is refused, the latest one included,
  -- as long as no login draws the identifier of that family once more.
  pub reuse_ends_family :
      (raw : String) (pair : NewPair) (now : ℕ) (db : AuthDb) (r : RefreshRow) (ops : List AuthOp)
      (other : String) (next : NewPair) (later : ℕ) (r' : RefreshRow)
      → find_token (hash raw) db.refresh_tokens ≡ some r
      → is_some r.revoked_at ≡ false
      → is_some r.used_at ≡ true
      → All (Spares r.family_id) ops
      → let db' =
          history hash sign access_ttl refresh_ttl scrypt_matches dummy ops
            (refresh hash sign access_ttl refresh_ttl raw pair now db).1 in
        find_token (hash other) db'.refresh_tokens ≡ some r'
        → r'.family_id ≡ r.family_id
        → (refresh hash sign access_ttl refresh_ttl other next later db').0
          ≡ refused invalid_refresh_token
  reuse_ends_family raw pair now db r ops other next later r' found live used s found' same =
      refresh-dead r.family_id other next later _ r'
        (history-IsDead r.family_id ops _ s (reuse-IsDead raw pair now db r found live used)) found'
        same
