-- ===== src/Checkout/Sample.antt =====
-- A small shop for the tests: one product, one user, and checkouts that draw their number for every id.
use node_js_nest_course_proj.Money.{above}
use Prim.Native.String
use node_js_nest_course_proj.Base.{
  ℕ, zero, suc, String, Bool, true, false, Option, List, [], ◌∷◌, str_eq, if◌then◌else◌,
}
use node_js_nest_course_proj.Shop.{Db}
use node_js_nest_course_proj.Checkout.{CheckoutParams, Draw, Stage}
use node_js_nest_course_proj.Checkout.History.{Call}

-- A digest of twenty bytes that depends on the text, and an id printed in unary.
abbrev pub digest : String → List ℕ
digest s =
    (if str_eq s "" then 0 else 1)
    ∷ 1
    ∷ 2
    ∷ 3
    ∷ 4
    ∷ 5
    ∷ 0xff
    ∷ 7
    ∷ 0xff
    ∷ 9
    ∷ 10
    ∷ 11
    ∷ 12
    ∷ 13
    ∷ 14
    ∷ 15
    ∷ 16
    ∷ 17
    ∷ 18
    ∷ 19
    ∷ []

abbrev pub print : ℕ → String
print zero = ""
print (suc n) = String.◌++◌ "1" (print n)

abbrev pub shop : Db
shop = record {
  products =
      record {
        id = 4;
        sku = "S";
        name = "Cup";
        price = 250;
        is_active = true;
        stock = 3;
        created_at = 0;
      }
      ∷ [];
  users =
      record { id = 9; email = "a@b.c"; full_name = "Ann"; balance = 1000; created_at = 0 } ∷ [];
  orders = [];
  order_items = [];
  job_queue = [];
  idempotency_keys = [];
  outbox = [];
}

abbrev pub never : Stage → Bool
never s = false

abbrev pub buy : ℕ → Option String → CheckoutParams
buy quantity key = record {
  buyer_id = 9;
  product_id = 4;
  quantity = quantity;
  idempotency_key = key;
}

abbrev pub draw_of : ℕ → Draw
draw_of n = record {
  order_id = n;
  item_id = n;
  job_id = n;
  outbox_id = n;
  now = n;
  placed_at = n;
  slip = above 5;
}

abbrev pub call : ℕ → ℕ → Option String → Call
call n quantity key = record { params = buy quantity key; draw = draw_of n; faults = never }
