-- ===== src/Auth/Logout.antt =====
-- Logout: the access token of the session is refused from then on, although nobody stores it.
use mathlib.Core.Option.{some-injective}
use node_js_nest_course_proj.Base.{
  ℕ, ◌<◌, String, ◌≡◌, refl, sym, ap, subst, ◌∙◌, ◌≢◌, inl, inr, Bool, true, false, Option, none,
  some, List, [], ◌∷◌, arith, str_eq, Bool-cases, Option-cases, any, All, All-imp,
}
use node_js_nest_course_proj.Auth.{
  AuthUser, AuthDb, Answered, granted, refused, logout, purge_denylist, issue,
}
use node_js_nest_course_proj.Auth.Token.{
  Payload, Verified, payload, a_text, expired, failed, VerifyOptions, verified_claims, claims_of,
  accept, key_for, verify, check_denied, authenticate, allowed_algorithms, issuer, audience,
}
use node_js_nest_course_proj.Auth.History.{
  AuthOp, logs_in, refreshes, logs_out, purges, operate, history, refresh-cases, login-cases,
}
use node_js_nest_course_proj.Auth.Denylist.{
  IsDenied, PurgesBy, PurgesBy-later, IsOwn, IsDenied-deny, deny-IsDenied, purge-IsDenied,
  IsDenied-any,
}

abbrev options : VerifyOptions
options = record { algorithms = allowed_algorithms; issuer = issuer; audience = audience }

accepted : (o : Option AuthUser) (user : AuthUser) → accept o ≡ granted user → o ≡ some user
accepted none user h = absurd (cc)
accepted (some x) user h = ground arith

claims-exp : (p : Payload) (user : AuthUser) → claims_of p ≡ some user → p.exp ≡ some user.exp
claims-exp p user h = ground arith

check-granted :
    (db : AuthDb) (a : Answered AuthUser) (u : AuthUser)
    → check_denied db a ≡ granted u
    → (a ≡ granted u) × (any (λ d. str_eq d.jti u.jti) db.access_denylist ≡ false)
check-granted db (refused e) u h = absurd (cc)
check-granted db (granted x) u h =
    elim (Bool-cases (any (λ d. str_eq d.jti x.jti) db.access_denylist)) [
      | inl hit ↦ absurd (ground arith)
      | inr free ↦
          let same : x ≡ u = ground arith in
          (
            ap granted same,
            subst (λ y. any (λ d. str_eq d.jti y.jti) db.access_denylist ≡ false) same free,
          )
    ]

module _ (hash : String → String) (sign : AuthUser → String) (access_ttl refresh_ttl : ℕ)
    (scrypt_matches : String → String → String → Bool) (dummy : List String) where
  -- The token stays denied, as long as no purge comes after its expiry.
  operate-IsDenied :
      (user : AuthUser) (op : AuthOp) (db : AuthDb)
      → PurgesBy user.exp op
      → IsDenied user db.access_denylist
      → IsDenied user
          (operate hash sign access_ttl refresh_ttl scrypt_matches dummy op db).access_denylist
  unfolding operate issue logout purge_denylist
  operate-IsDenied user (logs_in email password family pair now) db l h =
      login-cases hash sign access_ttl refresh_ttl scrypt_matches dummy
        (λ d. IsDenied user d.access_denylist) email password family pair now db h (λ _. h)
  operate-IsDenied user (refreshes raw pair now) db l h =
      refresh-cases hash sign access_ttl refresh_ttl scrypt_matches dummy
        (λ x. IsDenied user x.1.access_denylist) raw pair now db h (λ _ _ _. h) (λ _ _ _ _ _. h)
  operate-IsDenied user (logs_out other now) db l h =
      IsDenied-deny user other.jti other.exp db.access_denylist h
  operate-IsDenied user (purges now) db l h = purge-IsDenied user now db.access_denylist l h

  history-IsDenied :
      (user : AuthUser) (ops : List AuthOp) (db : AuthDb)
      → All (PurgesBy user.exp) ops
      → IsDenied user db.access_denylist
      → IsDenied user
          (history hash sign access_ttl refresh_ttl scrypt_matches dummy ops db).access_denylist
  unfolding history
  history-IsDenied user [] db l h = h
  history-IsDenied user (op ∷ ops) db l h =
      history-IsDenied user ops _ l.1 (operate-IsDenied user op db l.0 h)

  module _ {Key : Type 0} (decode_kid : String → Option String)
      (jwt_verify : VerifyOptions → Key → ℕ → String → Verified) (keys : List (String × Key))
      (exp_checked : (o : VerifyOptions) (k : Key) (now : ℕ) (token : String) (p : Payload)
          (exp : ℕ)
        → jwt_verify o k now token ≡ payload p
        → p.exp ≡ some exp
        → now < exp)
      (same_payload : (o : VerifyOptions) (k : Key) (now later : ℕ) (token : String)
          (p p' : Payload)
        → jwt_verify o k now token ≡ payload p
        → jwt_verify o k later token ≡ payload p'
        → p' ≡ p) where
    -- What a verification that succeeds has seen.
    abbrev Seen : ℕ → String → AuthUser → Type 0
    Seen now token user =
        (k : Key) × (key_for decode_kid jwt_verify keys (decode_kid token) ≡ some k)
        × ((p : Payload) × (jwt_verify options k now token ≡ payload p) × (claims_of p ≡ some user))

    verified-payload :
        (v : Verified) (user : AuthUser)
        → verified_claims v ≡ granted user
        → (p : Payload) × (v ≡ payload p) × (claims_of p ≡ some user)
    verified-payload (payload p) user h = (p, refl, accepted (claims_of p) user h)
    verified-payload a_text user h = absurd (cc)
    verified-payload expired user h = absurd (cc)
    verified-payload failed user h = absurd (cc)

    verify-Seen :
        (now : ℕ) (token : String) (user : AuthUser)
        → verify decode_kid jwt_verify keys now token ≡ granted user
        → Seen now token user
    unfolding verify
    verify-Seen now token user h =
        elim (Option-cases (key_for decode_kid jwt_verify keys (decode_kid token))) [
          | inl missing ↦ absurd (ground arith)
          | inr (k, found) ↦
              (k, found, verified-payload (jwt_verify options k now token) user (rw found at h))
        ]

    Seen-same :
        (now later : ℕ) (token : String) (user u : AuthUser)
        → Seen now token user
        → Seen later token u
        → (user ≡ u) × (later < u.exp)
    Seen-same now later token user u (k, found, seen) (k', found', seen') =
        let (p, given, claims) = seen in
        let (p', given', claims') = seen' in
        let one_key : k' ≡ k = some-injective _ _ (sym found' ∙ found) in
        let given₂ = subst (λ x. jwt_verify options x later token ≡ payload p') one_key given' in
        let one_payload = same_payload options k now later token p p' given given₂ in
        (
          some-injective _ _ (sym claims ∙ ap claims_of (sym one_payload) ∙ claims'),
          exp_checked options k' later token p' u.exp given' (claims-exp p' u claims'),
        )

    -- A token is refused at every later time once its session was logged out, whatever operations lie
    -- between, if the denylist's entries of its identifier are its own and no purge ran later than
    -- that time. Of the library it is assumed that it checks the expiry and gives a token one payload.
    pub logout_ends_token :
        (now later : ℕ) (token : String) (user u : AuthUser) (db : AuthDb) (ops : List AuthOp)
        → verify decode_kid jwt_verify keys now token ≡ granted user
        → All (IsOwn user) db.access_denylist
        → All (PurgesBy later) ops
        → authenticate
            (verify decode_kid jwt_verify keys)
            later
            token
            (history hash sign access_ttl refresh_ttl scrypt_matches dummy ops (logout user now db))
          ≢ granted u
    unfolding authenticate logout
    logout_ends_token now later token user u db ops first own by h =
        let db' =
          history hash sign access_ttl refresh_ttl scrypt_matches dummy ops (logout user now db) in
        let (again, free) = check-granted db' (verify decode_kid jwt_verify keys later token) u h in
        let (same, alive) =
          Seen-same now later token user u (verify-Seen now token user first)
            (verify-Seen later token u again) in
        let alive' : later < user.exp = subst (λ x. later < x.exp) (sym same) alive in
        let denied =
          history-IsDenied user ops (logout user now db)
            (All-imp (PurgesBy-later later user.exp alive') ops by)
            (deny-IsDenied user db.access_denylist own) in
        let found = IsDenied-any user db'.access_denylist denied in
        let clash : true ≡ false =
          sym (subst (λ x. any (λ d. str_eq d.jti x.jti) db'.access_denylist ≡ true) same found)
          ∙ free in
        absurd (cc)
