-- ===== src/Problem.antt =====
-- Problem details (src/common/problem.ts), and the two places that turn an error into them:
-- src/common/problem-json.filter.ts and src/common/problem-json.middleware.ts.
use Prim.Native.String
use node_js_nest_course_proj.Base.{
  ℕ, String, Bool, Option, none, some, List, [], ◌∷◌, ◌==◌, str_eq, if◌then◌else◌, get_or,
}

abbrev pub problem_base : String
problem_base = "https://api.marketplace.example/problems"

-- `PROBLEM_TITLES[status] ?? 'Помилка'`
abbrev pub problem_title : ℕ → String
problem_title status =
    if status == 400
    then "Некоректний запит"
    else if status == 401
    then "Потрібна автентифікація"
    else if status == 403
    then "Доступ заборонено"
    else if status == 404
    then "Ресурс не знайдено"
    else if status == 409
    then "Конфлікт зі станом ресурсу"
    else if status == 422
    then "Тіло не пройшло перевірку"
    else if status == 500
    then "Внутрішня помилка сервера"
    else "Помилка"

-- The fields `code` and `errors` are those that callers add.
pub record ProblemDetails : Type 0 where
  pub type : String
  pub title : String
  pub status : ℕ
  pub detail : String
  pub instance_url : String
  pub code : Option String
  pub errors : Option String

pub record Reply : Type 0 where
  pub status : ℕ
  pub content_type : String
  pub www_authenticate : Option String
  pub body : ProblemDetails

unfoldable pub write_problem :
    (ℕ → String) → String → ℕ → String → Option String → Option String → Option String → Reply
write_problem print url status detail code errors challenge = record {
  status = status;
  content_type = "application/problem+json";
  www_authenticate = challenge;
  body = record {
    type = String.◌++◌ problem_base (String.◌++◌ "/" (get_or code (print status)));
    title = problem_title status;
    status = status;
    detail = detail;
    instance_url = url;
    code = code;
    errors = errors;
  };
}

-- The value of a field of an exception's response.
pub data Field : Type 0 where
  text : String → Field
  texts : List String → Field
  absent : Field

-- What `getResponse` gives: a text, or an object, of which the filter reads three fields.
pub data Response : Type 0 where
  plain : String → Response
  object : (detail message : Field) → (code : Option String) → Response

pub data Exception : Type 0 where
  http : (status : ℕ) → Response → Exception
  other : Exception

abbrev pub join_texts : List String → String
join_texts [] = ""
join_texts (t ∷ []) = t
join_texts (t ∷ ts) = String.◌++◌ t (String.◌++◌ "; " (join_texts ts))

abbrev pub unforeseen : String
unforeseen = "Сталося щось непередбачене"

abbrev pub message_text : Field → String
message_text (text t) = t
message_text (texts ts) = join_texts ts
message_text absent = unforeseen

abbrev pub detail_text : Field → Field → String
detail_text (text t) message = t
detail_text (texts _) message = message_text message
detail_text absent message = message_text message

-- `if (b.code)`: an empty code is none.
abbrev pub truthy_code : Option String → Option String
truthy_code none = none
truthy_code (some code) = if str_eq code "" then none else some code

abbrev pub status_of : Exception → ℕ
status_of (http status _) = status
status_of other = 500

abbrev pub detail_of : Exception → String
detail_of (http _ (plain t)) = t
detail_of (http _ (object detail message _)) = detail_text detail message
detail_of other = unforeseen

abbrev pub code_of : Exception → Option String
code_of (http _ (object _ _ code)) = truthy_code code
code_of (http _ (plain _)) = none
code_of other = none

-- RFC 6750, section 3: a 401 names the scheme.
unfoldable pub catch_exception : (ℕ → String) → String → Exception → Reply
unfolding write_problem
catch_exception print url e =
    write_problem print url (status_of e) (detail_of e) (code_of e) none
      (if status_of e == 401 then some "Bearer" else none)

pub record ValidatorError : Type 0 where
  pub status : Option ℕ
  pub message : Option String
  pub errors : Option String

-- `none` passes the error on, since the headers are sent already.
unfoldable pub open_api_error_handler : (ℕ → String) → String → Bool → ValidatorError → Option Reply
unfolding write_problem
open_api_error_handler print url headers_sent e =
    if headers_sent
    then none
    else some (
        write_problem print url (get_or e.status 500) (get_or e.message unforeseen) none e.errors
          none)
