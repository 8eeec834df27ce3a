-- ===== src/Checkout/Tests.antt =====
-- Runs of the checkout on a small shop, and each of its theorems at one of them.
use node_js_nest_course_proj.Money.{above, exact}
use node_js_nest_course_proj.Base.{◌+◌, ◌≡◌, refl, Bool, true, false, none, some, List, [], ◌∷◌}
use node_js_nest_course_proj.Checkout.Sample.{digest, print, shop, never, buy, draw_of, call}
use node_js_nest_course_proj.Shop.{Order}
use node_js_nest_course_proj.Checkout.{
  email_of, insert_key, find_keyed, update_stock, update_balance, set_order, body, claim, replay,
  take_stock, take_money, place, Stage, hook, success, failure, out_of_stock, insufficient_funds,
  thrown, failed_at, returned, checkout, body, claim, replay, take_stock, update_stock, take_money,
  update_balance, email_of,
}
use node_js_nest_course_proj.Checkout.Exits.{Effects, checkout-Effects}
use node_js_nest_course_proj.Checkout.History.{Call, run, after}
use node_js_nest_course_proj.Checkout.Stock.{in_stock, sold, stock_conserved}
use node_js_nest_course_proj.Checkout.Balance.{balance_of, spent, balance_conserved}
use node_js_nest_course_proj.Checkout.Mirror.{IsMirrored, run-IsMirrored}
use node_js_nest_course_proj.Checkout.Keys.{order_of_key, retry_replays, taken_key_replays}

-- The hook throws, which is where the process is killed in the demonstrations.
abbrev at_hook : Stage → Bool
at_hook hook = true
at_hook _ = false

buys :
    (checkout digest print never (buy 2 none) (draw_of 1) shop).0
    ≡ returned (success 1 (record { cents = 500; slip = above 5 }) false)
unfolding checkout body claim replay take_stock update_stock take_money update_balance email_of
    place insert_key find_keyed
buys = refl

no_stock :
    (checkout digest print never (buy 4 none) (draw_of 1) shop).0 ≡ returned (failure out_of_stock)
unfolding checkout body claim replay take_stock update_stock take_money update_balance email_of
    place insert_key find_keyed
no_stock = refl

-- Two orders, of 500 and of 250 cents; the next of 500 finds one unit less than it wants.
abbrev two_sales : List Call
two_sales = call 1 2 (some "k") ∷ call 2 1 none ∷ []

-- Who has exactly the 500 cents is refused, when the product of the doubles is a hair more.
refused_with_enough :
    (checkout digest print never (buy 2 none) (draw_of 1) (record shop {
      users =
          record { id = 9; email = "a@b.c"; full_name = "Ann"; balance = 500; created_at = 0 } ∷ [];
    })).0
    ≡ returned (failure insufficient_funds)
unfolding checkout body claim replay take_stock update_stock take_money update_balance email_of
    place insert_key find_keyed
refused_with_enough = refl

crash :
    checkout digest print at_hook (buy 2 none) (draw_of 1) shop ≡ (thrown (failed_at hook), shop)
unfolding checkout body claim replay take_stock update_stock take_money update_balance email_of
    place insert_key find_keyed
crash = refl

checkout-Effects_example :
    Effects digest print never
      (buy 2 (some "k"))
      (draw_of 1)
      shop
      (checkout digest print never (buy 2 (some "k")) (draw_of 1) shop)
checkout-Effects_example = checkout-Effects digest print never (buy 2 (some "k")) (draw_of 1) shop

stock_conserved_example :
    in_stock 4 (run digest print two_sales shop) + sold 4 (run digest print two_sales shop)
    ≡ in_stock 4 shop + sold 4 shop
stock_conserved_example = stock_conserved digest print 4 two_sales shop

balance_conserved_example :
    balance_of 9 (run digest print two_sales shop) + spent 9 (run digest print two_sales shop)
    ≡ balance_of 9 shop + spent 9 shop
balance_conserved_example = balance_conserved digest print 9 two_sales shop

IsMirrored-shop : IsMirrored digest print shop
IsMirrored-shop = record { events = refl; lines = refl; jobs = refl; stable = tt }

run-IsMirrored_example : IsMirrored digest print (run digest print two_sales shop)
run-IsMirrored_example = run-IsMirrored digest print two_sales shop IsMirrored-shop

retry_replays_example :
    checkout digest print never (buy 2 (some "k")) (draw_of 7) (run digest print two_sales shop)
    ≡ (returned (success 1 (exact 500) true), run digest print two_sales shop)
unfolding checkout body claim replay take_stock update_stock take_money update_balance email_of
    place insert_key find_keyed
retry_replays_example =
    retry_replays digest print (call 1 2 (some "k")) (call 7 2 (some "k")) (call 2 1 none ∷ []) shop
      "k" 1 (record { cents = 500; slip = above 5 }) refl refl refl refl refl refl

taken_key_replays_example :
    (o : Order) × (order_of_key "k" (run digest print two_sales shop) ≡ some o)
    × (checkout digest print never (buy 2 (some "k")) (draw_of 7) (run digest print two_sales shop)
        ≡ (returned (success o.id (exact o.total_amount) true), run digest print two_sales shop))
unfolding checkout body claim replay take_stock update_stock take_money update_balance email_of
    place insert_key find_keyed run after set_order
taken_key_replays_example =
    taken_key_replays digest print (call 7 2 (some "k")) two_sales shop "k" tt refl refl refl refl
