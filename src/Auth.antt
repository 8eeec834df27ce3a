-- ===== src/Auth.antt =====
-- Sessions (src/auth/auth.service.ts): login, refresh tokens with rotation and detection of reuse,
-- logout, and the check of access tokens against the denylist. Times are in seconds of one clock. A
-- password hash is the list of its parts between `$`. The HMAC, scrypt and the JSON Web Token
-- library are parameters, and so is what Node draws at random.
pub mod Token
pub mod Guard
pub mod Signing
pub mod Rows
pub mod History
pub mod Rotation
pub mod Reuse
pub mod Single
pub mod Denylist
pub mod Logout
pub mod Access
mod Tests
use node_js_nest_course_proj.Base.{
  ℕ, zero, suc, ◌+◌, ◌-◌, ◌*◌, ◌/◌, ◌%◌, ◌^◌, ◌≤◌, ◌<◌, min, max, String, ◌≡◌, refl, sym, ap, subst,
  ◌∙◌, fun_ext, ◌≢◌, ◌↔◌, ◌⊎◌, inl, inr, Bool, true, false, not, ◌&&◌, ◌||◌, Option, none, some,
  List, [], ◌∷◌, ◌++◌, map, append-nil, append_assoc, map-append, arith, eq_iff, ltb, leb, ◌==◌,
  str_eq, if◌then◌else◌, ==_iff, str_eq_self, Bool-cases, if_elim, Option-cases, is_some, get_or,
  length, take, drop, head?, keep, find, sum_of, count, any, length-append, sum_of-append,
  find-append, any-find, find-none_of_any, any-append, length-take, length-take_eq, length-drop,
  take-append-drop, All, All-append, All-imp, find-All, any-All, All-keep, All-and, All-take,
  Distinct, length-map,
}

pub data Role : Type 0 where
  customer seller admin : Role

pub record AuthUser : Type 0 where
  pub id : ℕ
  pub role : Role
  pub jti : String
  pub exp : ℕ
  pub fid : String

pub record RefreshRow : Type 0 where
  pub token_hash : String
  pub family_id : String
  pub user_id : ℕ
  pub used_at : Option ℕ
  pub revoked_at : Option ℕ
  pub expires_at : ℕ

pub record Denied : Type 0 where
  pub jti : String
  pub expires_at : ℕ

pub record Account : Type 0 where
  pub id : ℕ
  pub email : String
  pub role : Role
  pub password_hash : Option (List String)

pub record AuthDb : Type 0 where
  pub users : List Account
  pub refresh_tokens : List RefreshRow
  pub access_denylist : List Denied

pub record TokenPair : Type 0 where
  pub access_token : String
  pub refresh_token : String
  pub expires_in : ℕ

-- What is drawn for one new pair: the refresh token and the identifier of the access token.
pub record NewPair : Type 0 where
  pub raw : String
  pub jti : String

pub data AuthError : Type 0 where
  invalid_credentials invalid_refresh_token token_expired invalid_token token_revoked missing_token
        insufficient_role :
      AuthError

pub data Answered (A : Type 0) : Type 0 where
  granted : A → Answered A
  refused : AuthError → Answered A

-- `verifyPassword`, over scrypt with the constant-time comparison; `dummy` is the hash that stands in
-- for a missing one.
abbrev pub check_parts : (String → String → String → Bool) → String → Bool → List String → Bool
check_parts scrypt_matches password is_stored (scheme ∷ salt ∷ key ∷ _) =
    if not (str_eq scheme "scrypt") || (str_eq salt "" || str_eq key "")
    then false
    else is_stored && scrypt_matches password salt key
check_parts scrypt_matches password is_stored _ = false

unfoldable pub verify_password :
    (String → String → String → Bool) → List String → String → Option (List String) → Bool
verify_password scrypt_matches dummy password stored =
    check_parts scrypt_matches password (is_some stored) (get_or stored dummy)

-- UPDATE refresh_tokens SET revoked_at = now() WHERE family_id = $1 AND revoked_at IS NULL
abbrev pub revoke_row : ℕ → String → RefreshRow → RefreshRow
revoke_row now family r =
    if str_eq r.family_id family && not (is_some r.revoked_at)
    then record r { revoked_at = some now }
    else r

unfoldable pub revoke_family : ℕ → String → List RefreshRow → List RefreshRow
revoke_family now family rs = map (revoke_row now family) rs

-- UPDATE refresh_tokens SET used_at = now() WHERE id = $1, for the row that the hash has found
unfoldable pub mark_used : ℕ → String → List RefreshRow → List RefreshRow
mark_used now token_hash [] = []
mark_used now token_hash (r ∷ rs) =
    let rest = mark_used now token_hash rs in
    if str_eq r.token_hash token_hash then record r { used_at = some now } ∷ rs else r ∷ rest

-- INSERT INTO access_denylist … ON CONFLICT (jti) DO NOTHING
unfoldable pub deny : String → ℕ → List Denied → List Denied
deny jti exp ds =
    if any (λ d. str_eq d.jti jti) ds then ds else ds ++ record { jti = jti; expires_at = exp } ∷ []

abbrev pub find_token : String → List RefreshRow → Option RefreshRow
find_token token_hash = find (λ r. str_eq r.token_hash token_hash)

abbrev pub user_by_id : ℕ → List Account → Option Account
user_by_id id = find (λ u. u.id == id)

abbrev pub user_by_email : String → List Account → Option Account
user_by_email email = find (λ u. str_eq u.email email)

-- `hash` is the HMAC with the pepper and `sign` the signature of an access token; the durations are
-- those of the configuration.
module _ (hash : String → String) (sign : AuthUser → String) (access_ttl refresh_ttl : ℕ) where
  unfoldable pub issue : ℕ → Role → String → NewPair → ℕ → AuthDb → TokenPair × AuthDb
  issue user_id role family pair now db = (
    record {
      access_token = sign (record {
        id = user_id;
        role = role;
        jti = pair.jti;
        exp = now + access_ttl;
        fid = family;
      });
      refresh_token = pair.raw;
      expires_in = access_ttl;
    },
    record db {
      refresh_tokens =
          db.refresh_tokens
          ++ record {
            token_hash = hash pair.raw;
            family_id = family;
            user_id = user_id;
            used_at = none;
            revoked_at = none;
            expires_at = now + refresh_ttl;
          }
            ∷ [];
    },
  )

  -- The first three checks of a row that was found: revoked, used before, expired.
  abbrev pub rotate : RefreshRow → Account → NewPair → ℕ → AuthDb → TokenPair × AuthDb
  rotate row user pair now db =
      issue row.user_id user.role row.family_id pair now
        (record db { refresh_tokens = mark_used now row.token_hash db.refresh_tokens })

  abbrev pub grant : TokenPair × AuthDb → Answered TokenPair × AuthDb
  grant (pair, db) = (granted pair, db)

  abbrev pub refresh_user :
      RefreshRow → Option Account → NewPair → ℕ → AuthDb → Answered TokenPair × AuthDb
  refresh_user row none pair now db = (refused invalid_refresh_token, db)
  refresh_user row (some user) pair now db = grant (rotate row user pair now db)

  abbrev pub refresh_row : Option RefreshRow → NewPair → ℕ → AuthDb → Answered TokenPair × AuthDb
  refresh_row none pair now db = (refused invalid_refresh_token, db)
  refresh_row (some row) pair now db =
      if is_some row.revoked_at
      then (refused invalid_refresh_token, db)
      else if is_some row.used_at
      then (
        refused invalid_refresh_token,
        record db { refresh_tokens = revoke_family now row.family_id db.refresh_tokens },
      )
      else if leb row.expires_at now
      then (refused invalid_refresh_token, db)
      else refresh_user row (user_by_id row.user_id db.users) pair now db

  unfoldable pub refresh : String → NewPair → ℕ → AuthDb → Answered TokenPair × AuthDb
  refresh raw pair now db = refresh_row (find_token (hash raw) db.refresh_tokens) pair now db

  abbrev pub login_user :
      Option Account → Bool → String → NewPair → ℕ → AuthDb → Answered TokenPair × AuthDb
  login_user none ok family pair now db = (refused invalid_credentials, db)
  login_user (some user) ok family pair now db =
      if ok
      then grant (issue user.id user.role family pair now db)
      else (refused invalid_credentials, db)

  unfoldable pub login :
      (String → String → String → Bool)
      → List String
      → String
      → String
      → String
      → NewPair
      → ℕ
      → AuthDb
      → Answered TokenPair × AuthDb
  unfolding verify_password
  login scrypt_matches dummy email password family pair now db =
      let user = user_by_email email db.users in
      let stored : Option (List String) = elim user [ none ↦ none | some u ↦ u.password_hash ] in
      login_user user (verify_password scrypt_matches dummy password stored) family pair now db

unfoldable pub logout : AuthUser → ℕ → AuthDb → AuthDb
logout user now db = record db {
  refresh_tokens = revoke_family now user.fid db.refresh_tokens;
  access_denylist = deny user.jti user.exp db.access_denylist;
}

-- DELETE FROM access_denylist WHERE expires_at < now()
unfoldable pub purge_denylist : ℕ → AuthDb → AuthDb
purge_denylist now db = record db {
  access_denylist = keep (λ d. leb now d.expires_at) db.access_denylist;
}
