-- ===== src/Auth/Token.antt =====
-- Access tokens (src/auth/token.service.ts). The library's decoder and verifier are parameters, with
-- the allowlist of algorithms, the issuer and the audience handed to the verifier.
use node_js_nest_course_proj.Base.{
  ℕ, String, Option, none, some, List, [], ◌∷◌, str_eq, if◌then◌else◌, find, any,
}
use node_js_nest_course_proj.Auth.{
  Role, customer, seller, admin, AuthUser, AuthDb, token_expired, invalid_token, token_revoked,
  Answered, granted, refused,
}

abbrev pub issuer : String
issuer = "marketplace-api"

abbrev pub audience : String
audience = "marketplace-clients"

abbrev pub allowed_algorithms : List String
allowed_algorithms = "ES256" ∷ []

-- The claims of a token as the library gives them, each of the type that the service wants or none.
pub record Payload : Type 0 where
  pub sub : Option ℕ
  pub role : Option String
  pub jti : Option String
  pub exp : Option ℕ
  pub fid : Option String

-- What `jwt.verify` gives or throws.
pub data Verified : Type 0 where
  payload : Payload → Verified
  a_text expired failed : Verified

pub record VerifyOptions : Type 0 where
  pub algorithms : List String
  pub issuer : String
  pub audience : String

infixl 5 ◌>>=◌
abbrev pub ◌>>=◌ : {A B : Type 0} → Option A → (A → Option B) → Option B
none >>= k = none
some a >>= k = k a

abbrev pub role_named : String → Option Role
role_named s =
    if str_eq s "customer"
    then some customer
    else if str_eq s "seller"
    then some seller
    else if str_eq s "admin"
    then some admin
    else none

-- Any claim that is missing or of another type refuses the token.
abbrev pub claims_of : Payload → Option AuthUser
claims_of p = do
  id ← p.sub
  jti ← p.jti
  exp ← p.exp
  fid ← p.fid
  name ← p.role
  role ← role_named name
  some (record { id = id; role = role; jti = jti; exp = exp; fid = fid })

abbrev pub accept : Option AuthUser → Answered AuthUser
accept none = refused invalid_token
accept (some user) = granted user

abbrev pub verified_claims : Verified → Answered AuthUser
verified_claims (payload p) = accept (claims_of p)
verified_claims a_text = refused invalid_token
verified_claims expired = refused token_expired
verified_claims failed = refused invalid_token

-- `kids` lists the identifiers of the keys with which a token can be verified, the current one first.
module _ {Key : Type 0} (decode_kid : String → Option String)
    (jwt_verify : VerifyOptions → Key → ℕ → String → Verified) where
  abbrev pub key_for : List (String × Key) → Option String → Option Key
  key_for keys none = none
  key_for keys (some kid) = elim (find (λ k. str_eq k.0 kid) keys) [
    | none ↦ none
    | some k ↦ some k.1
  ]

  abbrev pub verify_with : ℕ → String → Option Key → Answered AuthUser
  verify_with now token none = refused invalid_token
  verify_with now token (some key) = verified_claims (
      jwt_verify (record { algorithms = allowed_algorithms; issuer = issuer; audience = audience })
        key now token)

  unfoldable pub verify : List (String × Key) → ℕ → String → Answered AuthUser
  verify keys now token = verify_with now token (key_for keys (decode_kid token))

-- `authenticate` behind the verification.
abbrev pub check_denied : AuthDb → Answered AuthUser → Answered AuthUser
check_denied db (refused e) = refused e
check_denied db (granted user) =
    if any (λ d. str_eq d.jti user.jti) db.access_denylist
    then refused token_revoked
    else granted user

unfoldable pub authenticate :
    (ℕ → String → Answered AuthUser) → ℕ → String → AuthDb → Answered AuthUser
authenticate verify_at now token db = check_denied db (verify_at now token)
