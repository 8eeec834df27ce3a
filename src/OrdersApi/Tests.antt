-- ===== src/OrdersApi/Tests.antt =====
-- Requests to the edge over a small shop, and each of its theorems at one of them.
use node_js_nest_course_proj.Base.{ℕ, String, ◌≡◌, refl, none, some, [], ◌∷◌, arith}
use node_js_nest_course_proj.Shop.{Db}
use node_js_nest_course_proj.Checkout.History.{run}
use node_js_nest_course_proj.Checkout.Sample.{digest, print, shop, never, draw_of, call}
use node_js_nest_course_proj.OrdersApi.{HttpRequest, Body, digits, handle, parse_body}
use node_js_nest_course_proj.OrdersApi.Answers.{serve}
use node_js_nest_course_proj.OrdersApi.Resent.{rounded, resent, resent_replays}
use node_js_nest_course_proj.Checkout.{
  checkout, body, claim, replay, take_stock, update_stock, take_money, update_balance, email_of,
  place, insert_key, find_keyed, set_order,
}

abbrev post : ℕ → HttpRequest
post quantity = record {
  method = "POST";
  url = "/orders";
  key = some "k";
  body = some (record {
    buyer_id = some (digits 9);
    product_id = some (digits 4);
    quantity = some quantity;
  });
}

abbrev ordered : Body
ordered = record { buyer_id = 9; product_id = 4; quantity = 1 }

-- Lengths and trims of the keys of these tests.
abbrev one_letter : String → ℕ
one_letter key = 1

abbrev untrimmed : String → String
untrimmed key = key

abbrev ask : ℕ → HttpRequest → Db → ℕ
ask n req db = ((serve digest print one_letter untrimmed never (draw_of n) req db).0).status

created : ask 1 (post 2) shop ≡ 201
unfolding handle checkout body claim replay take_stock update_stock take_money update_balance
    email_of place insert_key find_keyed set_order
created = refl

no_stock : ask 1 (post 4) shop ≡ 409
unfolding handle checkout body claim replay take_stock update_stock take_money update_balance
    email_of place insert_key find_keyed set_order
no_stock = refl

invalid : ask 1 (post 0) shop ≡ 422
unfolding handle checkout body claim replay take_stock update_stock take_money update_balance
    email_of place insert_key find_keyed set_order
invalid = refl

resent_replays_example :
    (let made = serve digest print one_letter untrimmed never (draw_of 1) (post 2) shop in
      let later = run digest print (call 2 1 none ∷ []) made.1 in
      serve digest print one_letter untrimmed never (draw_of 7) (post 1) later
      ≡ (resent (rounded (made.0).body), later))
unfolding parse_body
resent_replays_example =
    resent_replays digest print one_letter untrimmed (post 2) (post 1) never never (draw_of 1)
      (draw_of 7) (call 2 1 none ∷ []) shop "k" ordered refl created refl
      (refl, refl, refl, refl, refl, omega arith) refl refl
