-- ===== src/Auth/Access.antt =====
-- What a request that passes both guards has shown.
use node_js_nest_course_proj.Base.{
  String, ◌≡◌, refl, sym, subst, ◌∙◌, inl, inr, true, false, Option, none, some, List, arith,
  Bool-cases, any,
}
use node_js_nest_course_proj.Auth.{Role, AuthUser, Answered, granted, refused}
use node_js_nest_course_proj.Auth.Guard.{
  Context, role_eq, guard_token, auth_guard, check_roles, roles_guard, guarded, then_roles,
  put_user,
}

-- The role that the handler asks for, if it asks for one.
abbrev pub IsAllowed : Option (List Role) → AuthUser → Type 0
IsAllowed none user = Unit
IsAllowed (some roles) user = any (role_eq user.role) roles ≡ true

roles-IsAllowed :
    (roles : Option (List Role)) (u : AuthUser) (user : Option AuthUser)
    → check_roles roles (some u) ≡ granted user
    → (user ≡ some u) × IsAllowed roles u
roles-IsAllowed none u user h = (ground arith, tt)
roles-IsAllowed (some roles) u user h = elim (Bool-cases (any (role_eq u.role) roles)) [
  | inl allowed ↦ (ground arith, allowed)
  | inr other ↦ absurd (ground arith)
]

auth_guard-closed :
    (authenticate : String → Answered AuthUser) (ctx : Context)
    → ctx.is_http ≡ true
    → ctx.is_public ≡ false
    → auth_guard authenticate ctx ≡ guard_token authenticate ctx.bearer
unfolding auth_guard
auth_guard-closed authenticate ctx http closed = ground arith

roles_guard-http :
    (ctx : Context) (user : Option AuthUser)
    → ctx.is_http ≡ true
    → roles_guard ctx user ≡ check_roles ctx.roles user
unfolding roles_guard
roles_guard-http ctx user http = ground arith

-- A request over HTTP to a handler that is not public passes only with a bearer token that is
-- accepted, and only in a role that the handler asks for; the handler sees the user of that token.
pub guarded-IsAllowed :
    (authenticate : String → Answered AuthUser) (ctx : Context) (user : Option AuthUser)
    → ctx.is_http ≡ true
    → ctx.is_public ≡ false
    → guarded authenticate ctx ≡ granted user
    → (token : String) × (u : AuthUser) × (ctx.bearer ≡ some token)
      × (authenticate token ≡ granted u)
      × (user ≡ some u)
      × IsAllowed ctx.roles u
unfolding guarded
guarded-IsAllowed authenticate ctx user http closed h = bearer ctx.bearer refl (
    subst (λ x. then_roles ctx x ≡ granted user) (auth_guard-closed authenticate ctx http closed) h)
  where
    answered :
        (token : String) (a : Answered AuthUser)
        → ctx.bearer ≡ some token
        → authenticate token ≡ a
        → then_roles ctx (put_user a) ≡ granted user
        → (t : String) × (u : AuthUser) × (ctx.bearer ≡ some t)
          × (authenticate t ≡ granted u)
          × (user ≡ some u)
          × IsAllowed ctx.roles u
    answered token (refused e) b a k = absurd (cc)
    answered token (granted u) b a k =
        let (same, allowed) =
          roles-IsAllowed ctx.roles u user (sym (roles_guard-http ctx (some u) http) ∙ k) in
        (token, u, b, a, same, allowed)

    bearer :
        (b : Option String)
        → ctx.bearer ≡ b
        → then_roles ctx (guard_token authenticate b) ≡ granted user
        → (t : String) × (u : AuthUser) × (ctx.bearer ≡ some t)
          × (authenticate t ≡ granted u)
          × (user ≡ some u)
          × IsAllowed ctx.roles u
    bearer none b k = absurd (cc)
    bearer (some token) b k = answered token (authenticate token) b refl k
