-- ===== src/Checkout/Mirror.antt =====
-- The transactional outbox: the orders, the jobs and the events stand for one another.
use node_js_nest_course_proj.Money.{Amount}
use node_js_nest_course_proj.Base.{
  ℕ, ◌≡◌, refl, String, Bool, List, map, map-append, All, All-append,
}
use node_js_nest_course_proj.Events.{event_id_for, to_order_placed_event}
use node_js_nest_course_proj.Shop.{Db, Order, OrderItem, OutboxRow}
use node_js_nest_course_proj.Checkout.{CheckoutParams, Draw, Stage}
use node_js_nest_course_proj.Checkout.Course.{Writes}
use node_js_nest_course_proj.Checkout.History.{Call, run, run-keeps}

-- What an event says of its order, and what an item with its order says.
abbrev pub event_facts : OutboxRow → ℕ × ℕ × ℕ
event_facts r =
    (r.payload.body.order_id, r.payload.body.buyer_id, r.payload.body.total_amount.cents)

abbrev pub order_facts : Order → ℕ × ℕ × ℕ
order_facts o = (o.id, o.buyer_id, o.total_amount)

abbrev pub event_lines : OutboxRow → ℕ × ℕ × ℕ
event_lines r = (r.payload.body.order_id, r.payload.body.product_id, r.payload.body.quantity)

abbrev pub item_lines : OrderItem → ℕ × ℕ × ℕ
item_lines i = (i.order_id, i.product_id, i.quantity)

module _ (sha1 : String → List ℕ) (print_id : ℕ → String) where
  -- The identifier of an event depends on its order alone.
  abbrev pub IsStable : OutboxRow → Type 0
  IsStable r =
      (r.payload.event_id
        ≡ event_id_for sha1 print_id "order.placed" (print_id r.payload.body.order_id))
      × (r.payload.type ≡ "order.placed")
      × (r.type ≡ "order.placed")
      × (r.aggregate_id ≡ r.payload.body.order_id)

  pub record IsMirrored (db : Db) : Type 0 where
    pub events : map event_facts db.outbox ≡ map order_facts db.orders
    pub lines : map event_lines db.outbox ≡ map item_lines db.order_items
    pub jobs : map (λ j. j.order_id) db.job_queue ≡ map (λ o. o.id) db.orders
    pub stable : All IsStable db.outbox

  module _ (faults : Stage → Bool) (p : CheckoutParams) (draw : Draw) where
    Writes-IsMirrored :
        (total : Amount) (db db' : Db)
        → IsMirrored db
        → Writes sha1 print_id faults p draw total db db'
        → IsMirrored db'
    unfolding to_order_placed_event
    Writes-IsMirrored total db db' m w = record {
      events = rw (w.outbox, w.orders) (simp (map-append, m.events));
      lines = rw (w.outbox, w.order_items) (simp (map-append, m.lines));
      jobs = rw (w.job_queue, w.orders) (simp (map-append, m.jobs));
      stable =
          rw w.outbox (All-append IsStable db.outbox _ m.stable ((refl, refl, refl, refl), tt));
    }

  -- After any history of checkouts there is one event, one job and one item for each order, in the
  -- order of the orders, the event carries the order's buyer, product and quantity and its total,
  -- which the order has rounded to cents, and its identifier is a function of the order's id.
  pub run-IsMirrored :
      (cs : List Call) (db : Db) → IsMirrored db → IsMirrored (run sha1 print_id cs db)
  run-IsMirrored cs db m =
      run-keeps sha1 print_id IsMirrored
        (λ c total d d' h w. Writes-IsMirrored c.faults c.params c.draw total d d' h w) cs db m
