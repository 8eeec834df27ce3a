-- ===== src/Sessions/Tests.antt =====
-- Two requests of the browser of a session among those of others, and reading a jar of cookies.
use node_js_nest_course_proj.Base.{
  ℕ, String, ◌≡◌, refl, ap, inl, inr, Bool, true, false, none, some, List, [], ◌∷◌, ◌++◌, arith,
}
use node_js_nest_course_proj.Sessions.{save, touch, session_of, create}
use Prim.Native.Char.{Char}
use text.Mathlib.TextBridge.{of_list, to_list-of_list}
use node_js_nest_course_proj.Sessions.Browser.{
  is_own, names, Request, answers, unbroken, IsActive, browser_stays,
}
use node_js_nest_course_proj.Sessions.Cookie.{read_parts, split, read_cookie, char_eq}
use node_js_nest_course_proj.Sessions.Jar.{render, read_cookie-render, Lacks, Solid, IsCookie}

-- The browser of the session `s` comes at 8, where its handler saves, and at 16; between them come a
-- browser without a cookie, which logs in, and one whose session is gone.
abbrev blank : Char → Bool
blank c = char_eq c " "

abbrev own_cookie : List Char
own_cookie = "s" ∷ "i" ∷ "d" ∷ "=" ∷ "s" ∷ []

abbrev two_cookies : List Char
two_cookies = "t" ∷ "=" ∷ "a" ∷ ";" ∷ " " ∷ own_cookie

abbrev gone_cookie : List Char
gone_cookie = "s" ∷ "i" ∷ "d" ∷ "=" ∷ "v" ∷ []

read_cookie-chars :
    (cs : List Char) (name : String)
    → read_cookie blank (some (of_list cs)) name ≡ read_parts blank name (split ";" cs)
unfolding read_cookie
read_cookie-chars cs name = ap (λ t. read_parts blank name (split ";" t)) (to_list-of_list cs)

read_cookie-none :
    (name : String) → read_cookie blank none name ≡ read_parts blank name (split ";" [])
unfolding read_cookie
read_cookie-none name = ap (λ t. read_parts blank name (split ";" t)) (to_list-of_list [])

abbrev own : Request ℕ
own = record { header = some (of_list two_cookies); drawn = "a"; now = 8; saves = some 3 }

abbrev stranger : Request ℕ
stranger = record { header = none; drawn = "b"; now = 9; saves = some 5 }

abbrev gone : Request ℕ
gone = record { header = some (of_list gone_cookie); drawn = "c"; now = 15; saves = none }

abbrev again : Request ℕ
again = record { header = some (of_list own_cookie); drawn = "d"; now = 16; saves = none }

abbrev requests : List (Request ℕ)
requests = own ∷ stranger ∷ gone ∷ again ∷ []

own-is_own : is_own blank 10 0 "s" own ≡ true
own-is_own = ap (names "s") (read_cookie-chars two_cookies "sid")

stranger-is_own : is_own blank 10 0 "s" stranger ≡ false
stranger-is_own = ap (names "s") (read_cookie-none "sid")

gone-is_own : is_own blank 10 0 "s" gone ≡ false
gone-is_own = ap (names "s") (read_cookie-chars gone_cookie "sid")

again-is_own : is_own blank 10 0 "s" again ≡ true
again-is_own = ap (names "s") (read_cookie-chars own_cookie "sid")

requests-IsActive : IsActive blank 10 0 "s" 0 requests
requests-IsActive = inl (
  own-is_own,
  omega arith,
  inr (stranger-is_own, refl, inr (gone-is_own, refl, inl (again-is_own, omega arith, tt))),
)

browser_stays_example :
    answers blank 10 0 "s" requests (save 10 "s" 7 0 []) ≡ unbroken blank 10 0 "s" 7 requests
browser_stays_example = browser_stays blank 10 0 "s" 7 0 requests [] refl requests-IsActive

unbroken_twice :
    unbroken blank 10 0 "s" 7 requests
    ≡ (record { id = "s"; value = 7; is_new = false }, none)
      ∷ (record { id = "s"; value = 3; is_new = false }, none)
      ∷ []
unfolding unbroken
unbroken_twice = rw (own-is_own, stranger-is_own, gone-is_own, again-is_own) refl

-- Ten seconds after its last request the session is gone, and the browser gets another.
expires :
    (session_of {D = ℕ} 10 (some "s") "new" 0 10 (save 10 "s" 7 0 [])).0
    ≡ record { id = "new"; value = 0; is_new = true }
unfolding session_of touch save create
expires = refl

-- A browser with a session and a cookie of another service, whose value has an equals sign.
abbrev jar : List (String × String)
jar = ("s", "1") ∷ ("t", "a=") ∷ []

IsCookie-of_list :
    (name value : List Char)
    → Lacks "=" name
    → Lacks ";" (name ++ "=" ∷ value)
    → Solid blank (name ++ "=" ∷ value)
    → IsCookie blank (of_list name, of_list value)
IsCookie-of_list name value a b c = rw (to_list-of_list name, to_list-of_list value) (a, b, c)

read_cookie-render_example : read_cookie blank (some (of_list (render blank jar))) "t" ≡ some "a="
read_cookie-render_example =
    read_cookie-render blank "t" ("s", "1") (("t", "a=") ∷ []) refl
      (
        IsCookie-of_list ("s" ∷ []) ("1" ∷ []) (refl, tt) (refl, (refl, (refl, tt)))
            (refl, (refl, (refl, tt))),
        (
          IsCookie-of_list ("t" ∷ []) ("a" ∷ "=" ∷ []) (refl, tt) (refl, (refl, (refl, (refl, tt))))
              (refl, (refl, (refl, (refl, tt)))),
          tt,
        ),
      )
