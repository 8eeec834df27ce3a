-- ===== src/Auth/Tests.antt =====
-- A session of one user: login, rotation, reuse and logout, and each theorem at it.
use node_js_nest_course_proj.Base.{
  ℕ, ◌<◌, String, ◌≡◌, refl, sym, ap, ◌∙◌, ◌≢◌, inl, inr, Bool, true, false, Option, none, some,
  List, [], ◌∷◌, arith, eq_iff, ltb, str_eq, if◌then◌else◌, Bool-cases,
}
use node_js_nest_course_proj.Auth.{
  seller, admin, AuthUser, AuthDb, RefreshRow, NewPair, Answered, granted, refused,
  invalid_refresh_token, verify_password, mark_used, revoke_family, issue, login, refresh, logout,
}
use node_js_nest_course_proj.Auth.Token.{
  Payload, Verified, payload, expired, VerifyOptions, verify, authenticate,
}
use node_js_nest_course_proj.Auth.Signing.{
  TokenConfig, verify_keys, sign as sign_token, signed_stays,
}
use node_js_nest_course_proj.Auth.Guard.{Context, auth_guard, roles_guard, guarded}
use node_js_nest_course_proj.Auth.Access.{IsAllowed, guarded-IsAllowed}
use node_js_nest_course_proj.Auth.History.{logs_in, refreshes, purges, operate, history}
use node_js_nest_course_proj.Auth.Rotation.{refresh_once}
use node_js_nest_course_proj.Auth.Single.{IsSingle, history-IsSingle}
use node_js_nest_course_proj.Auth.Reuse.{reuse_ends_family}
use node_js_nest_course_proj.Auth.Logout.{logout_ends_token}

abbrev hash : String → String
hash raw = raw

abbrev sign : AuthUser → String
sign user = user.jti

abbrev matches : String → String → String → Bool
matches password salt key = str_eq password key

abbrev dummy : List String
dummy = "scrypt" ∷ "x" ∷ "y" ∷ []

abbrev start : AuthDb
start = record {
  users =
      record {
        id = 9;
        email = "a@b.c";
        role = seller;
        password_hash = some ("scrypt" ∷ "x" ∷ "pw" ∷ []);
      }
      ∷ [];
  refresh_tokens = [];
  access_denylist = [];
}

abbrev pair : String → NewPair
pair raw = record { raw = raw; jti = raw }

abbrev logged_in : AuthDb
logged_in = record start {
  refresh_tokens =
      record {
        token_hash = "r1";
        family_id = "f";
        user_id = 9;
        used_at = none;
        revoked_at = none;
        expires_at = 1000;
      }
      ∷ [];
}

logs_in_once :
    login hash sign 60 990 matches dummy "a@b.c" "pw" "f" (pair "r1") 10 start
    ≡ (granted (record { access_token = "r1"; refresh_token = "r1"; expires_in = 60 }), logged_in)
unfolding login verify_password issue
logs_in_once = refl

wrong_password :
    (login hash sign 60 990 matches dummy "a@b.c" "no" "f" (pair "r1") 10 start).1 ≡ start
unfolding login verify_password issue
wrong_password = refl

refresh_once_example :
    (refresh hash sign 60 990 "r1" (pair "r3") 30 (
      history hash sign 60 990 matches dummy
        (purges 25 ∷ [])
        (refresh hash sign 60 990 "r1" (pair "r2") 20 logged_in).1)).0
    ≡ refused invalid_refresh_token
unfolding refresh issue mark_used
refresh_once_example =
    refresh_once hash sign 60 990 matches dummy "r1" (pair "r2") (pair "r3") 20 30 logged_in
      (record { access_token = "r2"; refresh_token = "r2"; expires_in = 60 }) (purges 25 ∷ []) refl

abbrev row : String → Option ℕ → RefreshRow
row raw used = record {
  token_hash = raw;
  family_id = "f";
  user_id = 9;
  used_at = used;
  revoked_at = none;
  expires_at = 1000;
}

-- "r1" was exchanged for "r2" and comes again.
abbrev rotated : AuthDb
rotated = record start { refresh_tokens = row "r1" (some 20) ∷ row "r2" none ∷ [] }

reuse_ends_family_example :
    (refresh hash sign 60 990 "r2" (pair "r4") 50 (
      history hash sign 60 990 matches dummy
        (logs_in "a@b.c" "pw" "g" (pair "r5") 40 ∷ [])
        (refresh hash sign 60 990 "r1" (pair "r3") 30 rotated).1)).0
    ≡ refused invalid_refresh_token
unfolding refresh history operate login issue verify_password revoke_family
reuse_ends_family_example =
    reuse_ends_family hash sign 60 990 matches dummy "r1" (pair "r3") 30 rotated
      (row "r1" (some 20)) (logs_in "a@b.c" "pw" "g" (pair "r5") 40 ∷ []) "r2" (pair "r4") 50
      (record (row "r2" none) { revoked_at = some 30 }) refl refl refl
      ((λ same. let clash : false ≡ true = (eq_iff "g" "f").1 same in absurd (cc)), tt) refl refl

-- A library with one key that accepts one token until its expiry at 70.
abbrev claims : Payload
claims = record {
  sub = some 9;
  role = some "seller";
  jti = some "j";
  exp = some 70;
  fid = some "f";
}

abbrev decode : String → Option String
decode token = some "kid"

abbrev library : VerifyOptions → ℕ → ℕ → String → Verified
library o key now token = if ltb now 70 then payload claims else expired

abbrev keys : List (String × ℕ)
keys = ("kid", 1) ∷ []

abbrev user : AuthUser
user = record { id = 9; role = seller; jti = "j"; exp = 70; fid = "f" }

library-accepts :
    (o : VerifyOptions) (k now : ℕ) (token : String) (p : Payload)
    → library o k now token ≡ payload p
    → (claims ≡ p) × (now < 70)
library-accepts o k now token p h = elim (Bool-cases (ltb now 70)) [
  | inl early ↦ (ground arith, ground arith)
  | inr late ↦ absurd (ground arith)
]

library-expires :
    (o : VerifyOptions) (k now : ℕ) (token : String) (p : Payload) (exp : ℕ)
    → library o k now token ≡ payload p
    → p.exp ≡ some exp
    → now < exp
library-expires o k now token p exp h e =
    let (same, early) = library-accepts o k now token p h in
    let at_70 : 70 ≡ exp = ground (arith, ap (λ x. x.exp) same) in omega arith

library-stable :
    (o : VerifyOptions) (k now later : ℕ) (token : String) (p p' : Payload)
    → library o k now token ≡ payload p
    → library o k later token ≡ payload p'
    → p' ≡ p
library-stable o k now later token p p' h h' =
    sym (library-accepts o k later token p' h').0 ∙ (library-accepts o k now token p h).0

logout_ends_token_example :
    authenticate
      (verify decode library keys)
      60
      "t"
      (history hash sign 60 990 matches dummy (purges 30 ∷ []) (logout user 20 logged_in))
    ≢ granted user
unfolding verify
logout_ends_token_example =
    logout_ends_token hash sign 60 990 matches dummy decode library keys library-expires
      library-stable 20 60 "t" user user logged_in (purges 30 ∷ []) refl tt (omega arith, tt)

abbrev accepts : String → Answered AuthUser
accepts token = granted user

abbrev seller_route : Context
seller_route = record {
  is_http = true;
  is_public = false;
  roles = some (seller ∷ admin ∷ []);
  bearer = some "t";
}

guarded-IsAllowed_example :
    (token : String) × (u : AuthUser) × (seller_route.bearer ≡ some token)
    × (accepts token ≡ granted u)
    × (some user ≡ some u)
    × IsAllowed seller_route.roles u
unfolding guarded auth_guard roles_guard
guarded-IsAllowed_example = guarded-IsAllowed accepts seller_route (some user) refl refl refl

-- Two configurations with a number for each key, the second with the first one's key as its previous,
-- and a library whose tokens of user 9 are the text "t" for an hour.
abbrev first_keys : TokenConfig ℕ ℕ
first_keys = record {
  private_key = 1;
  public_key = 11;
  kid = "k1";
  access_ttl_sec = 3600;
  previous_kid = none;
  previous_key = none;
}

abbrev rotated_keys : TokenConfig ℕ ℕ
rotated_keys = record {
  private_key = 2;
  public_key = 12;
  kid = "k2";
  access_ttl_sec = 3600;
  previous_kid = some "k1";
  previous_key = some 11;
}

abbrev claims_of_t : Payload
claims_of_t = record {
  sub = some 9;
  role = some "seller";
  jti = some "j";
  exp = some 3700;
  fid = some "f";
}

abbrev library_of_t : VerifyOptions → ℕ → ℕ → String → Verified
library_of_t options key now token = if ltb now 3700 then payload claims_of_t else expired

in_time :
    (now : ℕ)
    → now < 3700
    → (if ltb now 3700 then payload claims_of_t else expired) ≡ payload claims_of_t
in_time now early = ground arith

signed_stays_example :
    verify (λ token. some "k1") library_of_t (verify_keys rotated_keys) 3000 "t"
    ≡ granted (record { id = 9; role = seller; jti = "j"; exp = 3700; fid = "f" })
unfolding sign_token
signed_stays_example =
    signed_stays (λ claims key options now. "t") (λ token. 3700) (λ token. some "k1") library_of_t
      first_keys rotated_keys 9 seller "f" "j" 100 3000 refl refl
      (λ v now allowed a b early. in_time now early) (inr (refl, refl)) (omega arith)

history-IsSingle_example : IsSingle hash sign 60 990 matches dummy "f" (
    history hash sign 60 990 matches dummy
      (refreshes "r2" (pair "r3") 30
        ∷ logs_in "a@b.c" "pw" "g" (pair "r5") 40
        ∷ refreshes "r2" (pair "r4") 50
        ∷ [])
      rotated)
history-IsSingle_example =
    history-IsSingle hash sign 60 990 matches dummy "f"
      (refreshes "r2" (pair "r3") 30
        ∷ logs_in "a@b.c" "pw" "g" (pair "r5") 40
        ∷ refreshes "r2" (pair "r4") 50
        ∷ [])
      rotated
      (tt, ((λ same. let clash : false ≡ true = (eq_iff "g" "f").1 same in absurd (cc)), (tt, tt)))
      (omega arith)
