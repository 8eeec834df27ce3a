-- ===== src/Sessions/Jar.antt =====
-- What a browser sends is read back: the cookies of its jar as `name=value`, with `; ` between them.
use node_js_nest_course_proj.Base.{
  String, ◌≡◌, refl, sym, ap, subst, ◌∙◌, Bool, true, false, Option, none, some, List, [], ◌∷◌,
  ◌++◌, append-nil, eq_iff, str_eq, if◌then◌else◌, str_eq_self, if_elim, head?, All, get,
}
use Prim.Native.Char.{Char}
use mathlib.Core.Option.{some-injective}
use text.Mathlib.TextBridge.{to_list, of_list, to_list-of_list, of_list-to_list}
use node_js_nest_course_proj.Sessions.Cookie.{
  char_eq, push, split, join, drop_while, cons_unless, trim_end, trim, value_of, or_next,
  read_parts, read_cookie,
}

char_eq-same : (c d : Char) → char_eq c d ≡ true → c ≡ d
char_eq-same c d h =
    let texts = (eq_iff (of_list (c ∷ [])) (of_list (d ∷ []))).0 h in
    let lists : (c ∷ []) ≡ (d ∷ []) =
      sym (to_list-of_list (c ∷ [])) ∙ ap to_list texts ∙ to_list-of_list (d ∷ []) in
    some-injective _ _ (ap head? lists)

-- No character of a text is the given one.
abbrev pub Lacks : Char → List Char → Type 0
Lacks sep cs = All (λ c. char_eq c sep ≡ false) cs

split-none : (sep : Char) (cs : List Char) → Lacks sep cs → split sep cs ≡ cs ∷ []
split-none sep [] h = refl
split-none sep (c ∷ cs) h =
    ap (λ b. if b then [] ∷ split sep cs else push c (split sep cs)) h.0
    ∙ ap (push c) (split-none sep cs h.1)

split-at :
    (sep : Char) (cs rest : List Char)
    → Lacks sep cs
    → split sep (cs ++ sep ∷ rest) ≡ cs ∷ split sep rest
split-at sep [] rest h =
    ap (λ b. if b then [] ∷ split sep rest else push sep (split sep rest))
      (str_eq_self (of_list (sep ∷ [])))
split-at sep (c ∷ cs) rest h =
    ap (λ b. if b then [] ∷ split sep (cs ++ sep ∷ rest) else push c (split sep (cs ++ sep ∷ rest)))
      h.0
    ∙ ap (push c) (split-at sep cs rest h.1)

join-push : (sep c : Char) (parts : List (List Char)) → join sep (push c parts) ≡ c ∷ join sep parts
join-push sep c [] = refl
join-push sep c (part ∷ []) = refl
join-push sep c (part ∷ (next ∷ parts)) = refl

-- A split text has parts.
split-cons :
    (sep : Char) (cs : List Char)
    → (part : List Char) × (parts : List (List Char)) × (split sep cs ≡ part ∷ parts)
split-cons sep [] = ([], [], refl)
split-cons sep (c ∷ cs) =
    let (part, parts, e) = split-cons sep cs in
    if_elim
      (λ (r : List (List Char)).
        (part : List Char) × (parts : List (List Char)) × (r ≡ part ∷ parts))
      (char_eq c sep) (λ h. ([], split sep cs, refl)) (λ h. (c ∷ part, parts, ap (push c) e))

join-nil :
    (sep : Char) (part : List Char) (parts all : List (List Char))
    → all ≡ part ∷ parts
    → join sep ([] ∷ all) ≡ sep ∷ join sep all
join-nil sep part parts all e = subst (λ a. join sep ([] ∷ a) ≡ sep ∷ join sep a) (sym e) refl

join-split : (sep : Char) (cs : List Char) → join sep (split sep cs) ≡ cs
join-split sep [] = refl
join-split sep (c ∷ cs) =
    if_elim (λ (r : List (List Char)). join sep r ≡ c ∷ cs) (char_eq c sep)
      (λ h.
        let (part, parts, e) = split-cons sep cs in
        join-nil sep part parts (split sep cs) e
        ∙ ap (λ d. d ∷ join sep (split sep cs)) (sym (char_eq-same c sep h))
        ∙ ap (λ t. c ∷ t) (join-split sep cs))
      (λ h. join-push sep c (split sep cs) ∙ ap (λ t. c ∷ t) (join-split sep cs))

module _ (is_space : Char → Bool) where
  abbrev pub Solid : List Char → Type 0
  Solid cs = All (λ c. is_space c ≡ false) cs

  trim_end-Solid : (cs : List Char) → Solid cs → trim_end is_space cs ≡ cs
  trim_end-Solid [] h = refl
  trim_end-Solid (c ∷ []) h = ap (λ b. if b then [] else c ∷ []) h.0
  trim_end-Solid (c ∷ (d ∷ cs)) h = ap (cons_unless is_space c) (trim_end-Solid (d ∷ cs) h.1)

  trim-Solid : (cs : List Char) → Solid cs → trim is_space cs ≡ cs
  trim-Solid [] h = refl
  trim-Solid (c ∷ cs) h =
      ap (λ b. trim_end is_space (if b then drop_while is_space cs else c ∷ cs)) h.0
      ∙ trim_end-Solid (c ∷ cs) h

  trim-space : (cs : List Char) → is_space " " ≡ true → Solid cs → trim is_space (" " ∷ cs) ≡ cs
  trim-space cs blank h =
      ap (λ b. trim_end is_space (if b then drop_while is_space cs else " " ∷ cs)) blank
      ∙ trim-Solid cs h

  abbrev pub pair : String × String → List Char
  pair (name, value) = to_list name ++ "=" ∷ to_list value

  abbrev pub more : List (String × String) → List Char
  more [] = []
  more (c ∷ jar) = ";" ∷ " " ∷ (pair c ++ more jar)

  -- The header of a jar.
  abbrev pub render : List (String × String) → List Char
  render [] = []
  render (c ∷ jar) = pair c ++ more jar

  -- A name is not empty and has no `=`, and neither a name nor a value has a `;` or a blank.
  abbrev pub IsCookie : String × String → Type 0
  IsCookie (name, value) =
      Lacks "=" (to_list name) × Lacks ";" (pair (name, value)) × Solid (pair (name, value))

  value_of-pair :
      (wanted name value : String)
      → Lacks "=" (to_list name)
      → value_of wanted (split "=" (pair (name, value)))
        ≡ (if str_eq name wanted then some value else none)
  value_of-pair wanted name value h =
      ap (value_of wanted) (split-at "=" (to_list name) (to_list value) h)
      ∙ ap (λ v. if str_eq (of_list (to_list name)) wanted then some (of_list v) else none)
          (join-split "=" (to_list value))
      ∙ ap (λ v. if str_eq (of_list (to_list name)) wanted then some v else none)
          (of_list-to_list value)
      ∙ ap (λ n. if str_eq n wanted then some value else none) (of_list-to_list name)

  or_next-get :
      (wanted name value : String) (jar : List (String × String))
      → or_next (if str_eq name wanted then some value else none) (get wanted jar)
        ≡ get wanted ((name, value) ∷ jar)
  or_next-get wanted name value jar =
      if_elim (λ (o : Option String). or_next o (get wanted jar) ≡ get wanted ((name, value) ∷ jar))
        (str_eq name wanted) (λ h. sym (ap (λ b. if b then some value else get wanted jar) h))
        (λ h. sym (ap (λ b. if b then some value else get wanted jar) h))

  read-part :
      (wanted : String) (c : String × String) (jar : List (String × String)) (text : List Char)
      → IsCookie c
      → trim is_space text ≡ pair c
      → or_next (value_of wanted (split "=" (trim is_space text))) (get wanted jar)
        ≡ get wanted (c ∷ jar)
  read-part wanted (name, value) jar text h trimmed =
      ap (λ t. or_next (value_of wanted (split "=" t)) (get wanted jar)) trimmed
      ∙ ap (λ o. or_next o (get wanted jar)) (value_of-pair wanted name value h.0)
      ∙ or_next-get wanted name value jar

  read-more :
      (wanted : String) (jar : List (String × String)) (text : List Char)
      → is_space " " ≡ true
      → All IsCookie jar
      → Lacks ";" text
      → read_parts is_space wanted (split ";" (text ++ more jar))
        ≡ or_next (value_of wanted (split "=" (trim is_space text))) (get wanted jar)
  read-more wanted [] text blank h l =
      ap (λ t. read_parts is_space wanted (split ";" t)) (append-nil text)
      ∙ ap (read_parts is_space wanted) (split-none ";" text l)
  read-more wanted (c ∷ jar) text blank h l =
      ap (read_parts is_space wanted) (split-at ";" text (" " ∷ (pair c ++ more jar)) l)
      ∙ ap (or_next (value_of wanted (split "=" (trim is_space text)))) (
          read-more wanted jar (" " ∷ pair c) blank h.1 (refl, (h.0).1)
          ∙ read-part wanted c jar (" " ∷ pair c) h.0 (trim-space (pair c) blank (h.0).2))

  -- Of the header that a browser makes of its cookies, every name is read as the value of the first
  -- cookie of this name, and as none if there is no such cookie. Names and values have no `;` and no
  -- character that `trim` removes, a name has no `=`, and a value may have some.
  pub read_cookie-render :
      (wanted : String) (c : String × String) (jar : List (String × String))
      → is_space " " ≡ true
      → All IsCookie (c ∷ jar)
      → read_cookie is_space (some (of_list (render (c ∷ jar)))) wanted ≡ get wanted (c ∷ jar)
  unfolding read_cookie
  read_cookie-render wanted c jar blank h =
      ap (λ t. read_parts is_space wanted (split ";" t)) (to_list-of_list (render (c ∷ jar)))
      ∙ read-more wanted jar (pair c) blank h.1 (h.0).1
      ∙ read-part wanted c jar (pair c) h.0 (trim-Solid (pair c) (h.0).2)
