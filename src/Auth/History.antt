-- ===== src/Auth/History.antt =====
-- The operations of the service one after another.
use node_js_nest_course_proj.Base.{
  ℕ, String, ◌≡◌, refl, Bool, true, false, Option, none, some, List, [], ◌∷◌, leb, if_elim, is_some,
}
use node_js_nest_course_proj.Auth.{
  AuthUser, AuthDb, RefreshRow, NewPair, Account, TokenPair, Answered, refused,
  invalid_refresh_token, issue, rotate, grant, refresh_user, refresh_row, refresh, login_user,
  login, logout, purge_denylist, find_token, user_by_id, revoke_family, mark_used, user_by_email,
}
use node_js_nest_course_proj.Auth.Rows.{
  Grows, Grows-refl, Grows-trans, Grows-append, revoke_family-Grows, mark_used-Grows,
}

pub data AuthOp : Type 0 where
  logs_in : (email password family : String) → NewPair → ℕ → AuthOp
  refreshes : (raw : String) → NewPair → ℕ → AuthOp
  logs_out : AuthUser → ℕ → AuthOp
  purges : ℕ → AuthOp

module _ (hash : String → String) (sign : AuthUser → String) (access_ttl refresh_ttl : ℕ)
    (scrypt_matches : String → String → String → Bool) (dummy : List String) where
  unfoldable pub operate : AuthOp → AuthDb → AuthDb
  operate (logs_in email password family pair now) db =
      (login hash sign access_ttl refresh_ttl scrypt_matches dummy email password family pair now
        db).1
  operate (refreshes raw pair now) db = (refresh hash sign access_ttl refresh_ttl raw pair now db).1
  operate (logs_out user now) db = logout user now db
  operate (purges now) db = purge_denylist now db

  unfoldable pub history : List AuthOp → AuthDb → AuthDb
  history [] db = db
  history (op ∷ ops) db = history ops (operate op db)

  -- To prove a statement about the tables after a refresh: nothing happened, a family was revoked
  -- because its used token came again, or an unused and unrevoked token was exchanged.
  pub refresh-cases {ℓ} :
      (P : Answered TokenPair × AuthDb → Type ℓ) (raw : String) (pair : NewPair) (now : ℕ)
      (db : AuthDb)
      → P (refused invalid_refresh_token, db)
      → ((row : RefreshRow)
          → find_token (hash raw) db.refresh_tokens ≡ some row
          → is_some row.used_at ≡ true
          → P (
            refused invalid_refresh_token,
            record db { refresh_tokens = revoke_family now row.family_id db.refresh_tokens },
          ))
      → ((row : RefreshRow) (user : Account)
          → find_token (hash raw) db.refresh_tokens ≡ some row
          → is_some row.used_at ≡ false
          → is_some row.revoked_at ≡ false
          → P (
              grant hash sign access_ttl refresh_ttl
                (rotate hash sign access_ttl refresh_ttl row user pair now db)))
      → P (refresh hash sign access_ttl refresh_ttl raw pair now db)
  unfolding refresh
  refresh-cases P raw pair now db same revoked exchanged =
      go (find_token (hash raw) db.refresh_tokens) refl
    where
      user :
          (row : RefreshRow) (u : Option Account)
          → find_token (hash raw) db.refresh_tokens ≡ some row
          → is_some row.used_at ≡ false
          → is_some row.revoked_at ≡ false
          → P (refresh_user hash sign access_ttl refresh_ttl row u pair now db)
      user row none e a b = same
      user row (some u) e a b = exchanged row u e a b

      go :
          (o : Option RefreshRow)
          → find_token (hash raw) db.refresh_tokens ≡ o
          → P (refresh_row hash sign access_ttl refresh_ttl o pair now db)
      go none e = same
      go (some row) e =
          if_elim P (is_some row.revoked_at) (λ _. same)
            λ live.
              if_elim P (is_some row.used_at) (λ used. revoked row e used)
                λ unused.
                  if_elim P (leb row.expires_at now) (λ _. same)
                    λ _. user row (user_by_id row.user_id db.users) e unused live

  refresh-Grows :
      (raw : String) (pair : NewPair) (now : ℕ) (db : AuthDb)
      → Grows db.refresh_tokens
          (refresh hash sign access_ttl refresh_ttl raw pair now db).1.refresh_tokens
  unfolding issue
  refresh-Grows raw pair now db =
      refresh-cases (λ x. Grows db.refresh_tokens x.1.refresh_tokens) raw pair now db
        (Grows-refl db.refresh_tokens)
        (λ row _ _. revoke_family-Grows now row.family_id db.refresh_tokens)
        (λ row user _ _ _.
          Grows-trans db.refresh_tokens (mark_used now row.token_hash db.refresh_tokens) _
            (mark_used-Grows now row.token_hash db.refresh_tokens)
            (Grows-append (mark_used now row.token_hash db.refresh_tokens) _))

  -- After a login the tables are as before, or have one token more, of the family that was drawn.
  pub login-cases {ℓ} :
      (P : AuthDb → Type ℓ) (email password family : String) (pair : NewPair) (now : ℕ)
      (db : AuthDb)
      → P db
      → ((user : Account)
          → P (issue hash sign access_ttl refresh_ttl user.id user.role family pair now db).1)
      → P
          (login hash sign access_ttl refresh_ttl scrypt_matches dummy email password family pair
            now db).1
  unfolding login
  login-cases P email password family pair now db same issued = go (user_by_email email db.users) _
    where
      go :
          (o : Option Account) (ok : Bool)
          → P (login_user hash sign access_ttl refresh_ttl o ok family pair now db).1
      go none ok = same
      go (some user) true = issued user
      go (some user) false = same

  operate-Grows :
      (op : AuthOp) (db : AuthDb) → Grows db.refresh_tokens (operate op db).refresh_tokens
  unfolding operate issue logout purge_denylist
  operate-Grows (logs_in email password family pair now) db =
      login-cases (λ d. Grows db.refresh_tokens d.refresh_tokens) email password family pair now db
        (Grows-refl db.refresh_tokens) (λ user. Grows-append db.refresh_tokens _)
  operate-Grows (refreshes raw pair now) db = refresh-Grows raw pair now db
  operate-Grows (logs_out user now) db = revoke_family-Grows now user.fid db.refresh_tokens
  operate-Grows (purges now) db = Grows-refl db.refresh_tokens

  pub history-Grows :
      (ops : List AuthOp) (db : AuthDb) → Grows db.refresh_tokens (history ops db).refresh_tokens
  unfolding history
  history-Grows [] db = Grows-refl db.refresh_tokens
  history-Grows (op ∷ ops) db =
      Grows-trans db.refresh_tokens (operate op db).refresh_tokens _ (operate-Grows op db)
        (history-Grows ops (operate op db))
