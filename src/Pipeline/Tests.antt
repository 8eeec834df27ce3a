-- ===== src/Pipeline/Tests.antt =====
-- One order on its way: placed, published and receipted.
use node_js_nest_course_proj.Money.{above}
use node_js_nest_course_proj.Base.{
  ℕ, String, ◌≡◌, refl, sym, subst, ◌∙◌, inl, inr, true, false, none, some, List, [], ◌∷◌, arith,
  str_eq, if◌then◌else◌, All,
}
use node_js_nest_course_proj.Events.Schema.{
  RawEvent, EventParser, parse_event, spells, whole, total,
}
use node_js_nest_course_proj.Messaging.Consumer.Once.{IsNamed}
use mathlib.Core.Option.{some-injective}
use node_js_nest_course_proj.Events.{OrderPlacedEvent, to_order_placed_event}
use node_js_nest_course_proj.Checkout.{
  checkout, body, claim, replay, take_stock, update_stock, take_money, update_balance, email_of,
  place, insert_key, find_keyed, set_order,
}
use node_js_nest_course_proj.Checkout.History.{run, after, Call}
use node_js_nest_course_proj.Checkout.Sample.{digest, print, shop, call}
use node_js_nest_course_proj.Messaging.{Message, Channel, publish_raw}
use node_js_nest_course_proj.Messaging.Consumer.{
  HandleFaults, Consumer, handle, handle_all, insert_processed, insert_receipt, apply_order_placed,
}
use node_js_nest_course_proj.Messaging.Consumer.Once.{receipts_for}
use node_js_nest_course_proj.Outbox.{
  World, relay_until_empty, relay_once, publish_rows, publish_row, select_batch, comes_first,
  insert_row, sort_rows, mark_done, mark_failed,
}
use node_js_nest_course_proj.Outbox.Sample.{confirms, around, around-IsSmooth}
use node_js_nest_course_proj.Pipeline.{order-receipt}

abbrev sales : List Call
sales = call 1 2 none ∷ []

abbrev placed : OrderPlacedEvent
placed = to_order_placed_event digest print (record {
  id = 1;
  buyer_id = 9;
  product_id = 4;
  quantity = 2;
  total_amount = record { cents = 500; slip = above 5 };
  placed_at = 1;
})

abbrev stringify : OrderPlacedEvent → String
stringify e = "one"

-- What JSON.parse makes of that text.
abbrev raw : RawEvent
raw = record {
  event_id = some placed.event_id;
  type = some "order.placed";
  occurred_at = some "now";
  body = some (record {
    order_id = some (spells 1);
    buyer_id = some (spells 9);
    product_id = some (spells 4);
    quantity = some (whole 2);
    total_amount = some (total (record { cents = 500; slip = above 5 }));
  });
}

abbrev one : EventParser
one = record {
  parse_json = λ text. if str_eq text "one" then some raw else none;
  is_uuid = λ text. true;
  read_datetime = λ text. some 1;
}

abbrev order_of : String → ℕ
order_of event_id = 1

abbrev quiet : Channel
quiet = record { returned = 0; queued = [] }

abbrev message : Message
message = record {
  exchange = "shop.events";
  routing_key = "order.placed";
  content = "one";
  message_id = placed.event_id;
  type = "order.placed";
  persistent = true;
  mandatory = true;
}

abbrev final : World
final = record {
  outbox =
      record {
        id = 1;
        aggregate_type = "Order";
        aggregate_id = 1;
        type = "order.placed";
        payload = placed;
        created_at = 1;
        published_at = some 99;
        attempts = 1;
      }
      ∷ [];
  channel = record { returned = 0; queued = message ∷ [] };
}

abbrev fine : HandleFaults
fine = record { transaction_throws = false; hook_throws = false; ack_throws = false }

abbrev crashes : HandleFaults
crashes = record { transaction_throws = false; hook_throws = true; ack_throws = false }

abbrev idle : Consumer
idle = record {
  stats = record { delivered = 0; applied = 0; skipped = 0; acked = 0; rejected = 0 };
  inbox = record { processed_messages = []; order_receipts = [] };
}

abbrev deliveries : List (HandleFaults × Message)
deliveries = (crashes, message) ∷ (fine, message) ∷ (fine, message) ∷ []

parse_event-one : parse_event one "one" ≡ some placed
unfolding parse_event to_order_placed_event
parse_event-one = refl

IsNamed-message : IsNamed one order_of message
unfolding to_order_placed_event
IsNamed-message e h =
    let same : placed ≡ e = some-injective _ _ (sym parse_event-one ∙ h) in
    subst (λ x. order_of x.event_id ≡ x.body.order_id) same refl

order-receipt_example :
    All
      (λ o. receipts_for o.id (handle_all one deliveries idle) ≡ 1)
      (run digest print sales shop).orders
unfolding run after checkout body claim replay take_stock update_stock take_money update_balance
    email_of place insert_key find_keyed set_order to_order_placed_event relay_until_empty
    relay_once publish_rows publish_row publish_raw select_batch sort_rows insert_row comes_first
    mark_done mark_failed handle parse_event apply_order_placed insert_processed insert_receipt
order-receipt_example =
    order-receipt one order_of digest print stringify sales shop 3 (λ k. around (λ r. confirms))
      quiet final 1 deliveries idle
      (record { events = refl; lines = refl; jobs = refl; stable = tt }) tt (tt, tt) (refl, tt)
      (omega arith) (λ k. around-IsSmooth) (λ k r confirmed none_back. refl) refl
      (IsNamed-message, (IsNamed-message, (IsNamed-message, tt)))
      (record { unique = tt; named = tt; receipted = tt }) (inr (inl (refl, refl)), tt)
