-- ===== src/Orders/Clients.antt =====
-- The clients of the status events: sockets (src/orders/orders.gateway.ts) and streams of server-sent
-- events (src/orders/orders.controller.ts).
use node_js_nest_course_proj.Base.{
  ℕ, zero, suc, String, Bool, true, false, Option, none, some, List, [], ◌∷◌, if◌then◌else◌,
}
use Prim.Native.String
use node_js_nest_course_proj.Auth.{AuthUser, Answered, granted, refused as denied}
use node_js_nest_course_proj.Orders.{Order, OrderItem, Answer, ok, refused}
use node_js_nest_course_proj.Orders.StatusBus.{Bus, Stream, room_for_order, missed_since}
use node_js_nest_course_proj.Orders.Service.{Shopfront, get_by_id, get_owned, may_see, create}

pub data JoinResult : Type 0 where
  joined : String → JoinResult
  order_not_found forbidden : JoinResult

-- The user of a socket, from the token of its handshake, if that is a text.
unfoldable pub handle_connection : (String → Answered AuthUser) → Option String → Option AuthUser
handle_connection authenticate none = none
handle_connection authenticate (some token) = elim (authenticate token) [
  | granted user ↦ some user
  | denied _ ↦ none
]

unfoldable pub join_room : ℕ → String → Shopfront → Shopfront
join_room socket room s = record {
  orders = s.orders;
  next_id = s.next_id;
  catalog = s.catalog;
  bus = record {
    buffers = s.bus.buffers;
    counters = s.bus.counters;
    streams = s.bus.streams;
    members = (socket, room) ∷ s.bus.members;
    sent = s.bus.sent;
  };
}

abbrev pub is_allowed : (ℕ → String) → Option AuthUser → String → Bool
is_allowed print none owner = false
is_allowed print (some user) owner = may_see print user owner

abbrev pub join_found :
    (ℕ → String) → ℕ → Option AuthUser → String → Shopfront → Answer Order → JoinResult × Shopfront
join_found print socket user order_id s (refused _) = (order_not_found, s)
join_found print socket user order_id s (ok order) =
    if is_allowed print user order.buyer_id
    then (joined (room_for_order order_id), join_room socket (room_for_order order_id) s)
    else (forbidden, s)

unfoldable pub join :
    (ℕ → String) → ℕ → Option AuthUser → String → Shopfront → JoinResult × Shopfront
unfolding get_by_id join_room
join print socket user order_id s =
    join_found print socket user order_id s (get_by_id order_id s.orders)

-- The response begins with what the client has missed; the live events follow.
unfoldable pub open_stream : String → Option ℕ → Bus → Bus
unfolding missed_since
open_stream id last b = record {
  buffers = b.buffers;
  counters = b.counters;
  streams = record { order = id; is_open = true; written = missed_since id last b } ∷ b.streams;
  members = b.members;
  sent = b.sent;
}

abbrev pub stream_owned : String → Option ℕ → Shopfront → Answer Order → Answer Unit × Shopfront
stream_owned id last s (refused e) = (refused e, s)
stream_owned id last s (ok _) = (
  ok tt,
  record {
    orders = s.orders;
    next_id = s.next_id;
    catalog = s.catalog;
    bus = open_stream id last s.bus;
  },
)

-- `to_number` reads the header Last-Event-ID; none is NaN, and what lies between two numbers counts
-- as the lower one, with 0 below all.
unfoldable pub events :
    (ℕ → String)
    → (String → Option ℕ)
    → String
    → AuthUser
    → Option String
    → Shopfront
    → Answer Unit × Shopfront
unfolding get_owned open_stream
events print to_number id user last_event_id s =
    stream_owned id (elim last_event_id [ none ↦ some 0 | some text ↦ to_number text ]) s
      (get_owned print id user s.orders)

abbrev pub close_at : ℕ → List Stream → List Stream
close_at n [] = []
close_at zero (s ∷ streams) =
    record { order = s.order; is_open = false; written = s.written } ∷ streams
close_at (suc n) (s ∷ streams) = s ∷ close_at n streams

-- `POST /orders`: the owner is the subject of the token; the second part is the header Location.
unfoldable pub create_order :
    (ℕ → String) → List OrderItem → AuthUser → ℕ → Shopfront → (Order × String) × Shopfront
unfolding create
create_order print items user now s =
    let (order, after) = create print items (print user.id) now s in
    ((order, String.◌++◌ "/orders/" order.id), after)
