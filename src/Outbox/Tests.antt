-- ===== src/Outbox/Tests.antt =====
-- Passes of the relay over two events: one whose second publication finds no queue, and one that
-- drains the outbox.
use node_js_nest_course_proj.Money.{exact}
use node_js_nest_course_proj.Base.{
  ℕ, ◌*◌, String, ◌≡◌, refl, true, false, none, some, [], ◌∷◌, arith, ◌==◌, if◌then◌else◌, Distinct,
}
use node_js_nest_course_proj.Events.{OrderPlacedEvent}
use node_js_nest_course_proj.Shop.{OutboxRow}
use node_js_nest_course_proj.Messaging.{Answer, IsHonest, publish_raw}
use node_js_nest_course_proj.Outbox.{
  World, passed, relay_once, relay_until_empty, publish_rows, publish_row, select_batch,
  comes_first, insert_row, sort_rows, start_relay,
}
use node_js_nest_course_proj.Outbox.Delivered.{IsDelivered, relay_once-IsDelivered}
use node_js_nest_course_proj.Outbox.Drain.{Drained, relay_until_empty-Drained}
use node_js_nest_course_proj.Outbox.Publishing.{Reports, relay_once-Reports}
use node_js_nest_course_proj.Outbox.Emptied.{Holds, start_relay-Holds}
use node_js_nest_course_proj.Outbox.Rows.{ids}
use node_js_nest_course_proj.Outbox.Sample.{confirms, around, around-IsSmooth}

abbrev event : ℕ → OrderPlacedEvent
event n = record {
  event_id = if n == 1 then "e1" else "e2";
  type = "order.placed";
  occurred_at = n;
  body = record {
    order_id = n;
    buyer_id = 9;
    product_id = 4;
    quantity = 1;
    total_amount = exact 250;
  };
}

abbrev row : ℕ → OutboxRow
row n = record {
  id = n;
  aggregate_type = "Order";
  aggregate_id = n;
  type = "order.placed";
  payload = event n;
  created_at = 10 * n;
  published_at = none;
  attempts = 0;
}

abbrev stringify : OrderPlacedEvent → String
stringify e = e.event_id

abbrev two_rows : World
two_rows = record { outbox = row 2 ∷ row 1 ∷ []; channel = record { returned = 0; queued = [] } }

-- The second row's message is returned before its confirm.
abbrev returns_second : OutboxRow → Answer
returns_second r =
    if r.id == 2 then record { routed = false; returns = 1; confirmed = true } else confirms

fails_at_second :
    (relay_once stringify (around returns_second) two_rows).0
    ≡ passed (record { claimed = 2; published = 1; error = some 2 })
unfolding relay_once publish_rows publish_row publish_raw select_batch sort_rows insert_row
    comes_first
fails_at_second = refl

returns_second-IsHonest : (r : OutboxRow) → IsHonest (returns_second r)
returns_second-IsHonest r confirmed none_back = ground arith

two_rows-Distinct : Distinct (ids two_rows.outbox)
two_rows-Distinct = ((λ e. absurd (omega (arith, e)), tt), (tt, tt))

relay_once-IsDelivered_example :
    IsDelivered stringify (relay_once stringify (around returns_second) two_rows).1
relay_once-IsDelivered_example =
    relay_once-IsDelivered stringify (around returns_second) two_rows two_rows-Distinct
      returns_second-IsHonest (λ p. absurd (p refl), (λ p. absurd (p refl), tt))

relay_once-Reports_example :
    Reports stringify
      (around returns_second)
      two_rows
      (relay_once stringify (around returns_second) two_rows)
relay_once-Reports_example = relay_once-Reports stringify (around returns_second) two_rows

relay_until_empty-Drained_example :
    Drained stringify 0 two_rows
      (relay_until_empty stringify 3 (λ k. around (λ r. confirms)) 0 0 two_rows)
relay_until_empty-Drained_example =
    relay_until_empty-Drained stringify 3 (λ k. around (λ r. confirms)) 0 0 two_rows
      (λ n. around-IsSmooth) two_rows-Distinct (omega arith)

start_relay-Holds_example :
    Holds stringify two_rows.outbox
      (start_relay stringify (around returns_second ∷ around (λ r. confirms) ∷ []) two_rows).1
start_relay-Holds_example =
    start_relay-Holds stringify (around returns_second ∷ around (λ r. confirms) ∷ []) two_rows
      two_rows-Distinct (returns_second-IsHonest, (λ r confirmed none_back. refl, tt))
      (λ p. absurd (p refl), (λ p. absurd (p refl), tt))
