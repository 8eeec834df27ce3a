-- ===== src/Orders/StatusBus.antt =====
-- The bus of status events (src/orders/order-events.service.ts) with its two kinds of subscriber: the
-- streams of src/orders/orders.controller.ts, of which the newest stands first, and the rooms of
-- src/orders/orders.gateway.ts.
use node_js_nest_course_proj.Base.{
  ℕ, ◌+◌, String, Bool, ◌&&◌, Option, none, some, List, [], ◌∷◌, ◌++◌, map, ltb, str_eq,
  if◌then◌else◌, get_or, length, drop, keep, get, set,
}
use Prim.Native.String
use node_js_nest_course_proj.Orders.{OrderStatus, OrderStatusEvent}

abbrev pub buffer_size : ℕ
buffer_size = 100

abbrev pub room_for_order : String → String
room_for_order order_id = String.◌++◌ "orders:" order_id

-- A response that stays open: the order that it follows, and the events that were written to it.
pub record Stream : Type 0 where
  pub order : String
  pub is_open : Bool
  pub written : List OrderStatusEvent

pub record Bus : Type 0 where
  pub buffers : List (String × List OrderStatusEvent)
  pub counters : List (String × ℕ)
  pub streams : List Stream
  -- the sockets of each room, as pairs of a socket and a room
  pub members : List (ℕ × String)
  -- the messages `order.status` that each socket was sent
  pub sent : List (ℕ × OrderStatusEvent)

abbrev pub silent : Bus
silent = record { buffers = []; counters = []; streams = []; members = []; sent = [] }

-- `filter((event) => event.orderId === id)` in front of `write`.
unfoldable pub write_to : OrderStatusEvent → Stream → Stream
write_to event s =
    if s.is_open && str_eq event.order_id s.order
    then record { order = s.order; is_open = s.is_open; written = s.written ++ (event ∷ []) }
    else s

-- `server.to(room).emit('order.status', event)`
unfoldable pub broadcast :
    String → OrderStatusEvent → List (ℕ × String) → List (ℕ × OrderStatusEvent)
broadcast room event [] = []
broadcast room event (member ∷ members) =
    let rest = broadcast room event members in
    if str_eq member.1 room then (member.0, event) ∷ rest else rest

-- `bus.next(event)`
unfoldable pub next : OrderStatusEvent → Bus → Bus
unfolding write_to broadcast
next event b = record {
  buffers = b.buffers;
  counters = b.counters;
  streams = map (write_to event) b.streams;
  members = b.members;
  sent = b.sent ++ broadcast (room_for_order event.order_id) event b.members;
}

-- `buffer.push(event)`, then `shift` if it has grown too long.
unfoldable pub push_bounded : {A : Type 0} → ℕ → A → List A → List A
push_bounded size x xs =
    let pushed = xs ++ (x ∷ []) in if ltb size (length pushed) then drop 1 pushed else pushed

unfoldable pub emit_status_change : String → OrderStatus → ℕ → Bus → OrderStatusEvent × Bus
unfolding next push_bounded
emit_status_change order_id status now b =
    let next_id = get_or (get order_id b.counters) 0 + 1 in
    let event : OrderStatusEvent = record {
      id = next_id;
      order_id = order_id;
      status = status;
      ts = now;
    } in
    let buffer = push_bounded buffer_size event (get_or (get order_id b.buffers) []) in
    (
      event,
      next event (record {
        buffers = set order_id buffer b.buffers;
        counters = set order_id next_id b.counters;
        streams = b.streams;
        members = b.members;
        sent = b.sent;
      }),
    )

-- `none` is a last id that is no number, which no id is greater than.
unfoldable pub missed_since : String → Option ℕ → Bus → List OrderStatusEvent
missed_since order_id none b = []
missed_since order_id (some last) b = keep (λ e. ltb last e.id) (get_or (get order_id b.buffers) [])
