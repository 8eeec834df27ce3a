-- ===== src/Messaging/Consumer/Tests.antt =====
-- Deliveries to the consumer: a duplicate after a lost acknowledgement, and a message that is no event.
use node_js_nest_course_proj.Money.{exact}
use node_js_nest_course_proj.Base.{
  ℕ, String, ◌≡◌, refl, sym, subst, ◌∙◌, true, false, none, some, List, [], ◌∷◌, str_eq,
  if◌then◌else◌,
}
use mathlib.Core.Option.{some-injective}
use node_js_nest_course_proj.Events.Schema.{
  RawEvent, EventParser, parse_event, spells, whole, total,
}
use node_js_nest_course_proj.Messaging.Consumer.Once.{IsNamed}
use node_js_nest_course_proj.Events.{OrderPlacedEvent}
use node_js_nest_course_proj.Messaging.{Message}
use node_js_nest_course_proj.Messaging.Consumer.{
  HandleFaults, Consumer, handle, handle_all, insert_processed, insert_receipt, apply_order_placed,
}
use node_js_nest_course_proj.Messaging.Consumer.Effects.{IsSound}
use node_js_nest_course_proj.Messaging.Consumer.Once.{receipts_for, acked_once}

abbrev placed : OrderPlacedEvent
placed = record {
  event_id = "e1";
  type = "order.placed";
  occurred_at = 5;
  body = record {
    order_id = 1;
    buyer_id = 9;
    product_id = 4;
    quantity = 2;
    total_amount = exact 500;
  };
}

abbrev raw : RawEvent
raw = record {
  event_id = some "e1";
  type = some "order.placed";
  occurred_at = some "now";
  body = some (record {
    order_id = some (spells 1);
    buyer_id = some (spells 9);
    product_id = some (spells 4);
    quantity = some (whole 2);
    total_amount = some (total (exact 500));
  });
}

-- One text that passes the schema, and one whose event has no orders.
abbrev one : EventParser
one = record {
  parse_json = λ text.
      if str_eq text "one"
      then some raw
      else if str_eq text "blank"
      then some (record raw { body = none })
      else none;
  is_uuid = λ text. str_eq text "e1";
  read_datetime = λ text. some 5;
}

abbrev orders_by_id : String → ℕ
orders_by_id event_id = if str_eq event_id "e1" then 1 else 0

abbrev message : String → Message
message content = record {
  exchange = "shop.events";
  routing_key = "order.placed";
  content = content;
  message_id = "e1";
  type = "order.placed";
  persistent = true;
  mandatory = true;
}

abbrev fine : HandleFaults
fine = record { transaction_throws = false; hook_throws = false; ack_throws = false }

abbrev lost_ack : HandleFaults
lost_ack = record { transaction_throws = false; hook_throws = false; ack_throws = true }

abbrev idle : Consumer
idle = record {
  stats = record { delivered = 0; applied = 0; skipped = 0; acked = 0; rejected = 0 };
  inbox = record { processed_messages = []; order_receipts = [] };
}

abbrev deliveries : List (HandleFaults × Message)
deliveries = (lost_ack, message "one") ∷ (fine, message "one") ∷ (fine, message "blank") ∷ []

counters :
    (handle_all one deliveries idle).stats
    ≡ record { delivered = 3; applied = 1; skipped = 1; acked = 1; rejected = 1 }
unfolding handle_all handle parse_event apply_order_placed insert_processed insert_receipt
counters = refl

parse_event-one : parse_event one "one" ≡ some placed
unfolding parse_event
parse_event-one = refl

IsNamed-one : IsNamed one orders_by_id (message "one")
IsNamed-one e h =
    let same : placed ≡ e = some-injective _ _ (sym parse_event-one ∙ h) in
    subst (λ x. orders_by_id x.event_id ≡ x.body.order_id) same refl

IsNamed-blank : IsNamed one orders_by_id (message "blank")
unfolding parse_event
IsNamed-blank e h = absurd (cc)

IsSound-idle : IsSound orders_by_id idle.inbox
IsSound-idle = record { unique = tt; named = tt; receipted = tt }

acked_once_example : receipts_for 1 (handle_all one ((fine, message "one") ∷ deliveries) idle) ≡ 1
unfolding handle parse_event apply_order_placed insert_processed insert_receipt
acked_once_example =
    acked_once one orders_by_id fine (message "one") placed deliveries idle
      (IsNamed-one, (IsNamed-one, (IsNamed-one, (IsNamed-blank, tt)))) IsSound-idle parse_event-one
      refl
