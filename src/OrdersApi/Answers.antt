-- ===== src/OrdersApi/Answers.antt =====
-- What a client may conclude from an answer of the edge.
use node_js_nest_course_proj.Base.{ℕ, ◌≤◌, String, ◌≡◌, ◌⊎◌, Bool, Option, some, List}
use node_js_nest_course_proj.Shop.{Db, Order}
use node_js_nest_course_proj.Checkout.{Draw, Stage, checkout}
use node_js_nest_course_proj.Checkout.Keys.{order_of_key}
use node_js_nest_course_proj.OrdersApi.{
  HttpRequest, HttpResponse, HttpBody, problem_body, order_body, handle,
}
use node_js_nest_course_proj.Checkout.History.{after}

-- An order in an answer is the one that the key stands for; any other answer is an error.
abbrev pub Names : Option String → Db → HttpBody → Type 0
Names key db (order_body id total) =
    (k : String) × (o : Order) × (key ≡ some k)
    × (order_of_key k db ≡ some o)
    × (o.id ≡ id)
    × (o.total_amount ≡ total.cents)
Names key db (problem_body p) = 400 ≤ p.status

abbrev pub IsHonest : Option String → Db → HttpResponse × Db → Type 0
IsHonest key db (res, after) = ((res.status ≡ 201) ⊎ (after ≡ db)) × Names key after res.body

module _ (sha1 : String → List ℕ) (print_id : ℕ → String) (js_length : String → ℕ)
    (trim : String → String) where
  -- The edge over the checkout, with what is drawn for a request and where it fails.
  abbrev pub serve : (Stage → Bool) → Draw → HttpRequest → Db → HttpResponse × Db
  serve faults draw = handle (λ p. checkout sha1 print_id faults p draw) js_length trim
