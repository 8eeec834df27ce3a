-- ===== src/Auth/Guard.antt =====
-- The global guards (src/auth/auth.guard.ts): who it is, then whether the role may. A context that is
-- not HTTP passes both.
use node_js_nest_course_proj.Base.{
  String, Bool, true, false, not, Option, none, some, List, if◌then◌else◌, any,
}
use node_js_nest_course_proj.Auth.{
  Role, customer, seller, admin, AuthUser, missing_token, insufficient_role, Answered, granted,
  refused,
}

-- What a guard reads of a request: its kind, the metadata of its handler, and the bearer token.
pub record Context : Type 0 where
  pub is_http : Bool
  pub is_public : Bool
  pub roles : Option (List Role)
  pub bearer : Option String

abbrev pub role_eq : Role → Role → Bool
role_eq customer customer = true
role_eq seller seller = true
role_eq admin admin = true
role_eq _ _ = false

abbrev pub put_user : Answered AuthUser → Answered (Option AuthUser)
put_user (granted user) = granted (some user)
put_user (refused e) = refused e

-- The user that the guard puts into the request, if it does.
abbrev pub guard_token : (String → Answered AuthUser) → Option String → Answered (Option AuthUser)
guard_token authenticate none = refused missing_token
guard_token authenticate (some token) = put_user (authenticate token)

unfoldable pub auth_guard : (String → Answered AuthUser) → Context → Answered (Option AuthUser)
auth_guard authenticate ctx =
    if not ctx.is_http
    then granted none
    else if ctx.is_public
    then granted none
    else guard_token authenticate ctx.bearer

abbrev pub check_roles : Option (List Role) → Option AuthUser → Answered (Option AuthUser)
check_roles none user = granted user
check_roles (some roles) none = refused missing_token
check_roles (some roles) (some user) =
    if any (role_eq user.role) roles then granted (some user) else refused insufficient_role

unfoldable pub roles_guard : Context → Option AuthUser → Answered (Option AuthUser)
roles_guard ctx user = if not ctx.is_http then granted user else check_roles ctx.roles user

abbrev pub then_roles : Context → Answered (Option AuthUser) → Answered (Option AuthUser)
then_roles ctx (refused e) = refused e
then_roles ctx (granted user) = roles_guard ctx user

-- Both guards in their order, before a handler runs.
unfoldable pub guarded : (String → Answered AuthUser) → Context → Answered (Option AuthUser)
guarded authenticate ctx = then_roles ctx (auth_guard authenticate ctx)
