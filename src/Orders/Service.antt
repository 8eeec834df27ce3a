-- ===== src/Orders/Service.antt =====
-- The orders in memory (src/orders/orders.service.ts).
use node_js_nest_course_proj.Base.{
  ℕ, suc, ◌+◌, ◌*◌, String, Bool, ◌||◌, Option, none, some, List, [], ◌∷◌, ◌++◌, str_eq,
  if◌then◌else◌, head?, keep, find,
}
use Prim.Native.String
use node_js_nest_course_proj.Pages.{Page, paginate}
use node_js_nest_course_proj.Auth.{AuthUser, admin}
use node_js_nest_course_proj.Auth.Guard.{role_eq}
use node_js_nest_course_proj.Orders.{
  OrderItem, OrderStatus, new, Order, Answer, ok, refused, not_owner,
}
use node_js_nest_course_proj.Orders.Catalog.{
  Product, Catalog, seed_products, find_by_ids, or_not_found, or_bad_cursor,
}
use node_js_nest_course_proj.Orders.StatusBus.{Bus, silent, emit_status_change}

-- The module's variables ORDERS and nextId, and the services that the orders use.
pub record Shopfront : Type 0 where
  pub orders : List Order
  pub next_id : ℕ
  pub catalog : Catalog
  pub bus : Bus

-- Dates are the seconds since the first of August 2026.
abbrev pub seed_orders : Shopfront
seed_orders = record {
  orders =
      record {
        id = "o1";
        buyer_id = "u1";
        items = record { product_id = "p1"; quantity = 1 } ∷ [];
        total_cents = 129900;
        status = new;
        created_at = 36000;
      }
      ∷ record {
        id = "o2";
        buyer_id = "u2";
        items =
            record { product_id = "p2"; quantity = 2 }
            ∷ record { product_id = "p3"; quantity = 1 }
            ∷ [];
        total_cents = 45900 * 2 + 12900;
        status = new;
        created_at = 127800;
      }
      ∷ [];
  next_id = 3;
  catalog = seed_products;
  bus = silent;
}

-- `print` gives the identifier of a user as a token's subject has it.
unfoldable pub visible : (ℕ → String) → AuthUser → List Order → List Order
visible print user orders =
    if role_eq user.role admin then orders else keep (λ o. str_eq o.buyer_id (print user.id)) orders

module _ (encode_cursor : ℕ → String) (decode_cursor : String → Option ℕ) where
  unfoldable pub list : ℕ → Option String → Shopfront → Answer (Page Order)
  list limit cursor s = or_bad_cursor (paginate encode_cursor decode_cursor s.orders limit cursor)

  unfoldable pub list_for :
      (ℕ → String) → AuthUser → ℕ → Option String → Shopfront → Answer (Page Order)
  unfolding visible
  list_for print user limit cursor s =
      or_bad_cursor
        (paginate encode_cursor decode_cursor (visible print user s.orders) limit cursor)

unfoldable pub get_by_id : String → List Order → Answer Order
get_by_id id orders = or_not_found (find (λ o. str_eq o.id id) orders)

-- The order's owner, or an admin.
abbrev pub may_see : (ℕ → String) → AuthUser → String → Bool
may_see print user owner = str_eq owner (print user.id) || role_eq user.role admin

abbrev pub check_owned : (ℕ → String) → AuthUser → Answer Order → Answer Order
check_owned print user (refused e) = refused e
check_owned print user (ok order) =
    if may_see print user order.buyer_id then ok order else refused not_owner

unfoldable pub get_owned : (ℕ → String) → String → AuthUser → List Order → Answer Order
unfolding get_by_id
get_owned print id user orders = check_owned print user (get_by_id id orders)

-- The price of the first product that was found.
abbrev pub price_of : Option Product → ℕ
price_of none = 0
price_of (some product) = product.price_cents

unfoldable pub total_of : Catalog → ℕ → List OrderItem → ℕ
unfolding find_by_ids
total_of c sum [] = sum
total_of c sum (item ∷ items) =
    total_of c (sum + price_of (head? (find_by_ids (item.product_id ∷ []) c)) * item.quantity) items

unfoldable pub create : (ℕ → String) → List OrderItem → String → ℕ → Shopfront → Order × Shopfront
unfolding total_of
create print items buyer_id now s =
    let order : Order = record {
      id = String.◌++◌ "o" (print s.next_id);
      buyer_id = buyer_id;
      items = items;
      total_cents = total_of s.catalog 0 items;
      status = new;
      created_at = now;
    } in
    (
      order,
      record {
        orders = s.orders ++ (order ∷ []);
        next_id = suc s.next_id;
        catalog = s.catalog;
        bus = s.bus;
      },
    )

abbrev pub with_status : OrderStatus → Order → Order
with_status status o = record {
  id = o.id;
  buyer_id = o.buyer_id;
  items = o.items;
  total_cents = o.total_cents;
  status = status;
  created_at = o.created_at;
}

-- `order.status = status` on the first order of that id.
unfoldable pub put_status : String → OrderStatus → List Order → List Order
put_status id status [] = []
put_status id status (o ∷ orders) =
    let rest = put_status id status orders in
    if str_eq o.id id then with_status status o ∷ orders else o ∷ rest

abbrev pub update_found : OrderStatus → ℕ → Shopfront → Answer Order → Answer Order × Shopfront
update_found status now s (refused e) = (refused e, s)
update_found status now s (ok order) = (
  ok (with_status status order),
  record {
    orders = put_status order.id status s.orders;
    next_id = s.next_id;
    catalog = s.catalog;
    bus = (emit_status_change order.id status now s.bus).1;
  },
)

unfoldable pub update_status : String → OrderStatus → ℕ → Shopfront → Answer Order × Shopfront
unfolding get_by_id put_status emit_status_change
update_status id status now s = update_found status now s (get_by_id id s.orders)
