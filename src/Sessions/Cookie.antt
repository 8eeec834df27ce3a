-- ===== src/Sessions/Cookie.antt =====
-- Reading a cookie from the header Cookie (src/redis/session.ts, readCookie), over the characters of
-- the header. Which characters `trim` removes is a parameter.
use node_js_nest_course_proj.Base.{
  ℕ, String, Bool, Option, none, some, List, [], ◌∷◌, ◌++◌, str_eq, if◌then◌else◌, get_or,
}
use Prim.Native.String
use node_js_nest_course_proj.Sessions.{Session, RequestSession, session_of}
use Prim.Native.Char.{Char}
use text.Mathlib.TextBridge.{to_list, of_list}

abbrev pub char_eq : Char → Char → Bool
char_eq c d = str_eq (of_list (c ∷ [])) (of_list (d ∷ []))

abbrev pub push : Char → List (List Char) → List (List Char)
push c [] = (c ∷ []) ∷ []
push c (part ∷ parts) = (c ∷ part) ∷ parts

-- `text.split(sep)`
abbrev pub split : Char → List Char → List (List Char)
split sep [] = [] ∷ []
split sep (c ∷ cs) = let rest = split sep cs in if char_eq c sep then [] ∷ rest else push c rest

-- `parts.join(sep)`
abbrev pub join : Char → List (List Char) → List Char
join sep [] = []
join sep (part ∷ []) = part
join sep (part ∷ (next ∷ parts)) = part ++ sep ∷ join sep (next ∷ parts)

abbrev pub drop_while : (Char → Bool) → List Char → List Char
drop_while p [] = []
drop_while p (c ∷ cs) = let rest = drop_while p cs in if p c then rest else c ∷ cs

abbrev pub cons_unless : (Char → Bool) → Char → List Char → List Char
cons_unless p c [] = if p c then [] else c ∷ []
cons_unless p c (d ∷ ds) = c ∷ d ∷ ds

abbrev pub trim_end : (Char → Bool) → List Char → List Char
trim_end p [] = []
trim_end p (c ∷ cs) = cons_unless p c (trim_end p cs)

-- `const [k, ...v]`; the first part is always there.
abbrev pub value_of : String → List (List Char) → Option String
value_of name [] = none
value_of name (k ∷ v) = if str_eq (of_list k) name then some (of_list (join "=" v)) else none

abbrev pub or_next : Option String → Option String → Option String
or_next none rest = rest
or_next (some value) rest = some value

module _ (is_space : Char → Bool) where
  abbrev pub trim : List Char → List Char
  trim cs = trim_end is_space (drop_while is_space cs)

  abbrev pub read_parts : String → List (List Char) → Option String
  read_parts name [] = none
  read_parts name (part ∷ parts) =
      or_next (value_of name (split "=" (trim part))) (read_parts name parts)

  -- `(header ?? '').split(';')`
  unfoldable pub read_cookie : Option String → String → Option String
  read_cookie header name = read_parts name (split ";" (to_list (get_or header "")))

abbrev pub session_cookie : String
session_cookie = "sid"

-- The header Set-Cookie of a response, which a new session gets.
abbrev pub set_cookie : {D : Type 0} → RequestSession D → Option String
set_cookie s =
    if s.is_new
    then some (
        String.◌++◌ session_cookie
          (String.◌++◌ "=" (String.◌++◌ s.id "; HttpOnly; Path=/; SameSite=Lax")))
    else none

-- `sessionMiddleware`, when the store does not throw: the session of the request, the header of the
-- response, and the store.
unfoldable pub session_middleware :
    {D : Type 0}
    → (Char → Bool)
    → ℕ
    → Option String
    → String
    → D
    → ℕ
    → List (Session D)
    → RequestSession D × Option String × List (Session D)
unfolding read_cookie session_of
session_middleware is_space ttl header drawn empty now ss =
    let (session, after) =
      session_of ttl (read_cookie is_space header session_cookie) drawn empty now ss in
    (session, set_cookie session, after)
