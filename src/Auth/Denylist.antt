-- ===== src/Auth/Denylist.antt =====
-- The denylist: an entry stays as long as its token could be accepted.
use node_js_nest_course_proj.Base.{
  ℕ, ◌≤◌, ◌<◌, String, ◌≡◌, inl, inr, Bool, true, ◌&&◌, List, [], ◌∷◌, arith, eq_iff, leb, str_eq,
  str_eq_self, Bool-cases, if_elim, keep, any, any-append, All,
}
use node_js_nest_course_proj.Auth.{AuthUser, Denied, deny}
use node_js_nest_course_proj.Auth.History.{AuthOp, logs_in, refreshes, logs_out, purges}

-- An entry of the denylist that stands for the token, and outlives it.
abbrev pub names_token : AuthUser → Denied → Bool
names_token user d = str_eq d.jti user.jti && leb user.exp d.expires_at

abbrev pub IsDenied : AuthUser → List Denied → Type 0
IsDenied user ds = any (names_token user) ds ≡ true

-- No purge of the history is later than the given time.
abbrev pub PurgesBy : ℕ → AuthOp → Type 0
PurgesBy t (logs_in email password family pair now) = Unit
PurgesBy t (refreshes raw pair now) = Unit
PurgesBy t (logs_out user now) = Unit
PurgesBy t (purges now) = now ≤ t

pub PurgesBy-later : (t exp : ℕ) → t < exp → (op : AuthOp) → PurgesBy t op → PurgesBy exp op
PurgesBy-later t exp l (logs_in email password family pair now) h = tt
PurgesBy-later t exp l (refreshes raw pair now) h = tt
PurgesBy-later t exp l (logs_out user now) h = tt
PurgesBy-later t exp l (purges now) h = omega arith

pub IsDenied-deny :
    (user : AuthUser) (jti : String) (exp : ℕ) (ds : List Denied)
    → IsDenied user ds
    → IsDenied user (deny jti exp ds)
unfolding deny
IsDenied-deny user jti exp ds h =
    if_elim (IsDenied user) (any (λ d. str_eq d.jti jti) ds) (λ _. h)
      λ _.
        ground
          (arith, any-append (names_token user) ds (record { jti = jti; expires_at = exp } ∷ []))

-- The entries that the denylist has for a token's identifier are entries of that token.
abbrev pub IsOwn : AuthUser → Denied → Type 0
IsOwn user d = d.jti ≡ user.jti → user.exp ≤ d.expires_at

taken-IsDenied :
    (user : AuthUser) (ds : List Denied)
    → All (IsOwn user) ds
    → any (λ d. str_eq d.jti user.jti) ds ≡ true
    → IsDenied user ds
taken-IsDenied user [] o h = absurd (cc)
taken-IsDenied user (d ∷ ds) o h = elim (Bool-cases (str_eq d.jti user.jti)) [
  | inl hit ↦ ground (arith, hit, o.0 ((eq_iff d.jti user.jti).0 hit))
  | inr miss ↦ ground (arith, taken-IsDenied user ds o.1)
]

pub deny-IsDenied :
    (user : AuthUser) (ds : List Denied)
    → All (IsOwn user) ds
    → IsDenied user (deny user.jti user.exp ds)
unfolding deny
deny-IsDenied user ds o =
    if_elim (IsDenied user) (any (λ d. str_eq d.jti user.jti) ds) (taken-IsDenied user ds o) λ _.
      ground (
        arith,
        any-append (names_token user) ds (record { jti = user.jti; expires_at = user.exp } ∷ []),
        str_eq_self user.jti,
      )

-- A purge drops an entry only when its token has expired.
pub purge-IsDenied :
    (user : AuthUser) (now : ℕ) (ds : List Denied)
    → now ≤ user.exp
    → IsDenied user ds
    → IsDenied user (keep (λ d. leb now d.expires_at) ds)
purge-IsDenied user now [] l h = h
purge-IsDenied user now (d ∷ ds) l h = ground (arith, purge-IsDenied user now ds l)

pub IsDenied-any :
    (user : AuthUser) (ds : List Denied)
    → IsDenied user ds
    → any (λ d. str_eq d.jti user.jti) ds ≡ true
IsDenied-any user [] h = h
IsDenied-any user (d ∷ ds) h = ground (arith, IsDenied-any user ds)
