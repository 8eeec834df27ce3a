-- ===== src/Auth/Signing.antt =====
-- Signing access tokens (src/auth/token.service.ts), and the keys with which they are verified while
-- keys are rotated. The library's signer and the `exp` that its decoder reads are parameters.
use node_js_nest_course_proj.Base.{
  ℕ, ◌+◌, ◌<◌, String, ◌≡◌, refl, sym, ap, subst, ◌∙◌, ◌≢◌, ◌⊎◌, inl, inr, Bool, true, false,
  Option, none, some, List, [], ◌∷◌, arith, eq_iff, str_eq, if◌then◌else◌, Bool-cases, any, get,
  set, get-set_same, get-set_other,
}
use node_js_nest_course_proj.Auth.{
  Role, customer, seller, admin, AuthUser, Answered, granted, refused,
}
use node_js_nest_course_proj.Auth.Token.{
  issuer, audience, Verified, payload, VerifyOptions, role_named, accept, ◌>>=◌, verified_claims,
  key_for, verify_with, verify, Payload,
}

abbrev pub role_text : Role → String
role_text customer = "customer"
role_text seller = "seller"
role_text admin = "admin"

pub record PrivateClaims : Type 0 where
  pub role : String
  pub fid : String

pub record SignOptions : Type 0 where
  pub algorithm : String
  pub keyid : String
  pub subject : ℕ
  pub issuer : String
  pub audience : String
  pub expires_in : ℕ
  pub jwtid : String

pub record SignedToken : Type 0 where
  pub token : String
  pub jti : String
  pub exp : ℕ

-- The configuration that the constructor reads, its keys parsed; an empty variable is none.
pub record TokenConfig (PrivateKey Key : Type 0) : Type 0 where
  pub private_key : PrivateKey
  pub public_key : Key
  pub kid : String
  pub access_ttl_sec : ℕ
  pub previous_kid : Option String
  pub previous_key : Option Key

abbrev pub with_previous :
    {Key : Type 0} → Option String → Option Key → List (String × Key) → List (String × Key)
with_previous none key keys = keys
with_previous (some kid) none keys = keys
with_previous (some kid) (some key) keys = set kid key keys

abbrev pub is_granted : Answered AuthUser → Bool
is_granted (granted _) = true
is_granted (refused _) = false

module _ {PrivateKey Key : Type 0} where
  unfoldable pub verify_keys : TokenConfig PrivateKey Key → List (String × Key)
  verify_keys c = with_previous c.previous_kid c.previous_key (set c.kid c.public_key [])

  abbrev pub sign_options : TokenConfig PrivateKey Key → ℕ → String → SignOptions
  sign_options c sub jti = record {
    algorithm = "ES256";
    keyid = c.kid;
    subject = sub;
    issuer = issuer;
    audience = audience;
    expires_in = c.access_ttl_sec;
    jwtid = jti;
  }

  module _ (jwt_sign : PrivateClaims → PrivateKey → SignOptions → ℕ → String)
      (decode_exp : String → ℕ) where
    -- `jti` is drawn, and `now` is the library's clock.
    unfoldable pub sign : TokenConfig PrivateKey Key → ℕ → Role → String → String → ℕ → SignedToken
    sign c sub role fid jti now =
        let token =
          jwt_sign (record { role = role_text role; fid = fid }) c.private_key
            (sign_options c sub jti) now in
        record { token = token; jti = jti; exp = decode_exp token }

    module _ (decode_kid : String → Option String)
        (jwt_verify : VerifyOptions → Key → ℕ → String → Verified) where
      -- The constructor: none when the service would refuse its own tokens.
      unfoldable pub start_tokens :
          TokenConfig PrivateKey Key → String → String → ℕ → Option (List (String × Key))
      unfolding sign verify_keys
      start_tokens c fid jti now =
          if is_granted
            (verify decode_kid jwt_verify (verify_keys c) now (sign c 0 customer fid jti now).token)
          then some (verify_keys c)
          else none

role_named-text : (role : Role) → role_named (role_text role) ≡ some role
role_named-text customer = refl
role_named-text seller = refl
role_named-text admin = refl

-- A key is kept for a configuration: it is its own, and no previous key takes its identifier; or it is
-- its previous one.
abbrev pub Keeps :
    {PrivateKey Key : Type 0} → TokenConfig PrivateKey Key → TokenConfig PrivateKey Key → Type 0
Keeps old current =
    ((current ≡ old) × (old.previous_kid ≢ some old.kid))
    ⊎ ((current.previous_kid ≡ some old.kid) × (current.previous_key ≡ some old.public_key))

previous-get :
    {Key : Type 0} (kid : String) (public_key : Key) (previous : Option String) (key : Option Key)
    → previous ≢ some kid
    → get kid (with_previous previous key (set kid public_key [])) ≡ some public_key
previous-get kid public_key none key differ = get-set_same kid public_key []
previous-get kid public_key (some other) none differ = get-set_same kid public_key []
previous-get kid public_key (some other) (some key) differ = elim (Bool-cases (str_eq other kid)) [
  | inl same ↦ absurd (differ (ap some ((eq_iff other kid).0 same)))
  | inr miss ↦
      get-set_other other kid key (set kid public_key []) miss ∙ get-set_same kid public_key []
]

module _ {PrivateKey Key : Type 0} where
  verify_keys-get :
      (old current : TokenConfig PrivateKey Key)
      → Keeps old current
      → get old.kid (verify_keys current) ≡ some old.public_key
  unfolding verify_keys
  verify_keys-get old current (inl (same, differ)) =
      subst (λ c. get old.kid (verify_keys c) ≡ some old.public_key) (sym same)
        (previous-get old.kid old.public_key old.previous_kid old.previous_key differ)
  verify_keys-get old current (inr (kid, key)) =
      ap
        (λ k.
          get old.kid
            (with_previous k current.previous_key (set current.kid current.public_key [])))
        kid
      ∙ ap
          (λ k.
            get old.kid (with_previous (some old.kid) k (set current.kid current.public_key [])))
          key
      ∙ get-set_same old.kid old.public_key (set current.kid current.public_key [])

  module _ (jwt_sign : PrivateClaims → PrivateKey → SignOptions → ℕ → String)
      (decode_exp : String → ℕ) (decode_kid : String → Option String)
      (jwt_verify : VerifyOptions → Key → ℕ → String → Verified) where
    key_for-get :
        (kid : String) (keys : List (String × Key))
        → key_for decode_kid jwt_verify keys (some kid) ≡ get kid keys
    key_for-get kid [] = refl
    key_for-get kid (k ∷ keys) = ground (arith, key_for-get kid keys)

    -- The token that a configuration signs.
    abbrev pub token_of : TokenConfig PrivateKey Key → ℕ → Role → String → String → ℕ → String
    token_of c sub role fid jti signed_at =
        jwt_sign (record { role = role_text role; fid = fid }) c.private_key
          (sign_options c sub jti) signed_at

    abbrev pub payload_of : TokenConfig PrivateKey Key → ℕ → Role → String → String → ℕ → Payload
    payload_of c sub role fid jti signed_at = record {
      sub = some sub;
      role = some (role_text role);
      jti = some jti;
      exp = some (signed_at + c.access_ttl_sec);
      fid = some fid;
    }

    -- A token that was signed under a configuration is accepted until it expires, with the user, role,
    -- identifiers and expiry that were signed, by the same configuration and by a later one that
    -- keeps the key as its previous one: rotating the keys refuses no token. Of the library it is
    -- assumed that the decoders read of the token what was signed, and that it verifies under the
    -- public key of the signing configuration as long as ES256 is allowed, issuer and audience are
    -- those of the service, and it has not expired.
    pub signed_stays :
        (old current : TokenConfig PrivateKey Key) (sub : ℕ) (role : Role) (fid jti : String)
        (signed_at now : ℕ)
        → decode_kid (token_of old sub role fid jti signed_at) ≡ some old.kid
        → decode_exp (token_of old sub role fid jti signed_at) ≡ signed_at + old.access_ttl_sec
        → ((v : VerifyOptions) (at_time : ℕ)
            → any (str_eq "ES256") v.algorithms ≡ true
            → v.issuer ≡ issuer
            → v.audience ≡ audience
            → at_time < signed_at + old.access_ttl_sec
            → jwt_verify v old.public_key at_time (token_of old sub role fid jti signed_at)
              ≡ payload (payload_of old sub role fid jti signed_at))
        → Keeps old current
        → (let s = sign jwt_sign decode_exp old sub role fid jti signed_at in
            now < s.exp
            → verify decode_kid jwt_verify (verify_keys current) now s.token
              ≡ granted (record { id = sub; role = role; jti = s.jti; exp = s.exp; fid = fid }))
    unfolding sign verify
    signed_stays old current sub role fid jti signed_at now kid expiry verifies keeps early =
        let token = token_of old sub role fid jti signed_at in
        ap
          (λ k.
            verify_with decode_kid jwt_verify now token
              (key_for decode_kid jwt_verify (verify_keys current) k))
          kid
        ∙ ap (verify_with decode_kid jwt_verify now token)
            (key_for-get old.kid (verify_keys current) ∙ verify_keys-get old current keeps)
        ∙ ap verified_claims (verifies _ now refl refl refl (omega (arith, early, expiry)))
        ∙ ap
            (λ r. accept (
              r >>= (λ named. some (record {
                id = sub;
                role = named;
                jti = jti;
                exp = signed_at + old.access_ttl_sec;
                fid = fid;
              }))))
            (role_named-text role)
        ∙ ap (λ e. granted (record { id = sub; role = role; jti = jti; exp = e; fid = fid }))
            (sym expiry)
