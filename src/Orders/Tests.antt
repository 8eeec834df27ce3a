-- ===== src/Orders/Tests.antt =====
-- The seeded shop with a few clients, and each theorem of the orders at one of their runs.
use node_js_nest_course_proj.Base.{
  ℕ, ◌-◌, max, ◌≡◌, refl, ◌↔◌, Option, none, some, List, [], ◌∷◌, ◌++◌, map, arith, ◌==◌, str_eq,
  if◌then◌else◌, length, drop, head?, find,
}
use node_js_nest_course_proj.Base.Unary.{encode, encode-injective}
use node_js_nest_course_proj.Auth.{AuthUser, customer, admin}
use node_js_nest_course_proj.Orders.{packed, shipped, Order, new, OrderStatusEvent, ok}
use node_js_nest_course_proj.Orders.Catalog.{seed_products}
use node_js_nest_course_proj.Orders.StatusBus.{silent, buffer_size}
use node_js_nest_course_proj.Orders.Service.{Shopfront, visible, get_owned}
use node_js_nest_course_proj.Orders.Clients.{open_stream}
use node_js_nest_course_proj.Orders.Feed.{Change, emit_all, of_order}
use node_js_nest_course_proj.Orders.Resume.{following, resumed_whole}
use node_js_nest_course_proj.Orders.Access.{
  Request, joining, ordering, changing, serve_all, IsPrivate, serve_all-IsPrivate,
}
use node_js_nest_course_proj.Orders.Owned.{listed_iff_owned}

abbrev buyer : AuthUser
buyer = record { id = 2; role = customer; jti = "j"; exp = 9; fid = "f" }

abbrev boss : AuthUser
boss = record { id = 3; role = admin; jti = "k"; exp = 9; fid = "g" }

-- The buyer at socket 1, an admin at socket 2, nobody at the others.
abbrev who : ℕ → Option AuthUser
who socket = if socket == 1 then some buyer else if socket == 2 then some boss else none

abbrev shop : Shopfront
shop = record { orders = []; next_id = 1; catalog = seed_products; bus = silent }

abbrev placed : List Request
placed =
    ordering (record { product_id = "p2"; quantity = 3 } ∷ []) buyer 7 ∷ ordering [] boss 8 ∷ []

abbrev visits : List Request
visits =
    joining 1 "o11"
    ∷ joining 1 "o111"
    ∷ joining 2 "o11"
    ∷ joining 4 "o11"
    ∷ changing "o11" packed 9
    ∷ changing "o111" shipped 9
    ∷ []

abbrev first_event : OrderStatusEvent
first_event = record { id = 1; order_id = "o11"; status = packed; ts = 9 }

-- The buyer hears of the own order alone, the admin joined it too, and the anonymous socket nothing.
hears :
    (serve_all encode who (placed ++ visits) shop).bus.sent
    ≡ (2, first_event) ∷ (1, first_event) ∷ []
unfolding serve_all
hears = refl

totals : map (λ o. o.total_cents) (serve_all encode who placed shop).orders ≡ 137700 ∷ 0 ∷ []
unfolding serve_all
totals = refl

abbrev earlier : List Change
earlier =
    record { order_id = "o1"; status = packed; now = 1 }
    ∷ record { order_id = "o2"; status = packed; now = 2 }
    ∷ record { order_id = "o1"; status = shipped; now = 3 }
    ∷ []

abbrev later : List Change
later =
    record { order_id = "o2"; status = shipped; now = 4 }
    ∷ record { order_id = "o1"; status = new; now = 5 }
    ∷ []

two_events : length (of_order "o1" (emit_all earlier silent).0) ≡ 2
unfolding emit_all
two_events = refl

resumed_whole_example :
    (let before = emit_all earlier silent in
      let after = emit_all later (open_stream "o1" (some 1) before.1) in
      head? after.1.streams
      ≡ some (
          following "o1" (
            drop
              (max 1 (length (of_order "o1" before.0) - buffer_size))
              (of_order "o1" (before.0 ++ after.0)))))
resumed_whole_example = resumed_whole earlier later "o1" 1 (omega (arith, two_events))

serve_all-IsPrivate_example : IsPrivate encode who (serve_all encode who (placed ++ visits) shop)
serve_all-IsPrivate_example = serve_all-IsPrivate encode who (placed ++ visits) shop (tt, tt)

-- The buyer is user 2, in unary "111", and so is the owner of the first order.
abbrev first : Order
first = record {
  id = "o11";
  buyer_id = "111";
  items = record { product_id = "p2"; quantity = 3 } ∷ [];
  total_cents = 137700;
  status = packed;
  created_at = 7;
}

listed_iff_owned_example :
    (let orders = (serve_all encode who (placed ++ visits) shop).orders in
      (find (λ x. str_eq x.id "o11") (visible encode buyer orders) ≡ some first)
      ↔ (get_owned encode "o11" buyer orders ≡ ok first))
listed_iff_owned_example =
    listed_iff_owned encode encode-injective who (placed ++ visits) shop (tt, tt) buyer "o11" first

shown :
    get_owned encode "o11" buyer (serve_all encode who (placed ++ visits) shop).orders ≡ ok first
unfolding serve_all get_owned
shown = refl
