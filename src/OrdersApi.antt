-- ===== src/OrdersApi.antt =====
-- The HTTP edge of the checkout (src/outbox/orders-api.ts). The length of a text and its trimming are
-- parameters. A text that is given as an id is empty or spells a number; others, at which the
-- database throws, are left out.
mod Tests
pub mod Answers
pub mod Resent
use node_js_nest_course_proj.Money.{Amount}
use node_js_nest_course_proj.Base.{
  ℕ, zero, suc, ◌+◌, ◌-◌, ◌*◌, ◌/◌, ◌%◌, ◌^◌, ◌≤◌, ◌<◌, min, max, String, ◌≡◌, refl, sym, ap, subst,
  ◌∙◌, fun_ext, ◌≢◌, ◌↔◌, ◌⊎◌, inl, inr, Bool, true, false, not, ◌&&◌, ◌||◌, Option, none, some,
  List, [], ◌∷◌, ◌++◌, map, append-nil, append_assoc, map-append, arith, eq_iff, ltb, leb, ◌==◌,
  str_eq, if◌then◌else◌, ==_iff, str_eq_self, Bool-cases, if_elim, Option-cases, is_some, get_or,
  length, take, drop, head?, keep, find, sum_of, count, any, length-append, sum_of-append,
  find-append, any-find, find-none_of_any, any-append, length-take, length-take_eq, length-drop,
  take-append-drop, All, All-append, All-imp, find-All, any-All, All-keep, All-and, All-take,
  Distinct, length-map, get, set, get-set_same, get-set_other, take-all, drop-nil, drop-drop,
  drop-append, drop-all, keep-append,
}
use Prim.Native.String
use node_js_nest_course_proj.Problem.{ProblemDetails, problem_base, problem_title}
use node_js_nest_course_proj.Shop.{Db}
use node_js_nest_course_proj.Checkout.{
  CheckoutParams, CheckoutResult, success, failure, CheckoutFailureReason, out_of_stock,
  insufficient_funds, Outcome, returned, thrown, Draw, Stage, checkout,
}

abbrev pub max_key_length : ℕ
max_key_length = 255

pub data IdText : Type 0 where
  empty : IdText
  digits : ℕ → IdText

-- The fields of a parsed JSON body, where they have the type that the schema asks for.
pub record RawBody : Type 0 where
  pub buyer_id : Option IdText
  pub product_id : Option IdText
  pub quantity : Option ℕ

pub record Body : Type 0 where
  pub buyer_id : ℕ
  pub product_id : ℕ
  pub quantity : ℕ

-- `key` is the header Idempotency-Key if it is one text; `body` is none if there is no JSON.
pub record HttpRequest : Type 0 where
  pub method : String
  pub url : String
  pub key : Option String
  pub body : Option RawBody

pub data HttpBody : Type 0 where
  problem_body : ProblemDetails → HttpBody
  order_body : (order_id : ℕ) → (total_amount : Amount) → HttpBody

pub record HttpResponse : Type 0 where
  pub status : ℕ
  pub headers : List (String × String)
  pub body : HttpBody

-- `{ 'content-type': 'application/json', ...headers }`
abbrev pub merge : List (String × String) → List (String × String) → List (String × String)
merge base [] = base
merge base (h ∷ headers) = merge (set h.0 h.1 base) headers

abbrev pub send : ℕ → HttpBody → List (String × String) → HttpResponse
send status body headers = record {
  status = status;
  headers = merge (("content-type", "application/json") ∷ []) headers;
  body = body;
}

abbrev pub problem : String → ℕ → String → String → HttpResponse
problem url status code detail =
    send status
      (problem_body (record {
        type = String.◌++◌ problem_base (String.◌++◌ "/" code);
        title = problem_title status;
        status = status;
        detail = detail;
        instance_url = url;
        code = none;
        errors = none;
      }))
      (("content-type", "application/problem+json") ∷ [])

infixl 5 ◌>>=◌
abbrev ◌>>=◌ : {A B : Type 0} → Option A → (A → Option B) → Option B
none >>= k = none
some a >>= k = k a

-- `z.string().min(1)`
abbrev pub nonempty : Option IdText → Option ℕ
nonempty none = none
nonempty (some empty) = none
nonempty (some (digits id)) = some id

-- `z.number().int().positive()`
abbrev pub positive : Option ℕ → Option ℕ
positive none = none
positive (some n) = if ltb 0 n then some n else none

unfoldable pub parse_body : Option RawBody → Option Body
parse_body raw = do
  r ← raw
  buyer_id ← nonempty r.buyer_id
  product_id ← nonempty r.product_id
  quantity ← positive r.quantity
  some (record { buyer_id = buyer_id; product_id = product_id; quantity = quantity })

abbrev pub reason_code : CheckoutFailureReason → String
reason_code out_of_stock = "out_of_stock"
reason_code insufficient_funds = "insufficient_funds"

abbrev pub reason_detail : CheckoutFailureReason → String
reason_detail out_of_stock = "Товару не вистачає"
reason_detail insufficient_funds = "Недостатньо коштів"

abbrev pub answer_order : ℕ → Amount → Bool → HttpResponse
answer_order id total true = send 200 (order_body id total) (("idempotent-replayed", "true") ∷ [])
answer_order id total false = send 201 (order_body id total) []

-- The answer to what the checkout returned, or that of `createOrdersApi` to what it threw.
abbrev pub answer : String → Outcome → HttpResponse
answer url (returned (success id total replayed)) = answer_order id total replayed
answer url (returned (failure reason)) = problem url 409 (reason_code reason) (reason_detail reason)
answer url (thrown _) = problem url 500 "internal" "Внутрішня помилка сервера"

abbrev pub params_of : Body → String → CheckoutParams
params_of body key = record {
  buyer_id = body.buyer_id;
  product_id = body.product_id;
  quantity = body.quantity;
  idempotency_key = some key;
}

abbrev pub key_missing : String → HttpResponse
key_missing url =
    problem url 400 "idempotency-key-required"
      "Потрібен заголовок Idempotency-Key (1..255 символів)"

-- How the edge calls the checkout.
module _ (run_checkout : CheckoutParams → Db → Outcome × Db) where
  abbrev pub place_order : String → CheckoutParams → Db → HttpResponse × Db
  place_order url p db = let (outcome, after) = run_checkout p db in (answer url outcome, after)

  abbrev pub handle_body : String → String → Option Body → Db → HttpResponse × Db
  handle_body url key none db =
      (problem url 422 "invalid-body" "Тіло має бути {buyer_id, product_id, quantity>0}", db)
  handle_body url key (some body) db = place_order url (params_of body key) db

  module _ (js_length : String → ℕ) (trim : String → String) where
    abbrev pub handle_key : HttpRequest → Option String → Db → HttpResponse × Db
    handle_key req none db = (key_missing req.url, db)
    handle_key req (some key) db =
        if str_eq (trim key) "" || ltb max_key_length (js_length key)
        then (key_missing req.url, db)
        else handle_body req.url key (parse_body req.body) db

    unfoldable pub handle : HttpRequest → Db → HttpResponse × Db
    unfolding parse_body
    handle req db =
        if not (str_eq req.method "POST") || not (str_eq req.url "/orders")
        then (problem req.url 404 "not-found" "Невідомий маршрут", db)
        else handle_key req req.key db
