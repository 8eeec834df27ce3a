-- ===== src/Messaging/Consumer.antt =====
-- The consumer of order.placed (src/messaging/consumer.ts): the inbox and the receipts that it
-- writes in one transaction, and its handler with the decision that each message gets. `faults`
-- says which of its statements throws; an event is read by the schema of Events.Schema.
pub mod Effects
pub mod Once
pub mod Stats
mod Tests
use node_js_nest_course_proj.Base.{
  ℕ, zero, suc, ◌+◌, ◌-◌, ◌*◌, ◌/◌, ◌%◌, ◌^◌, ◌≤◌, ◌<◌, min, max, String, ◌≡◌, refl, sym, ap, subst,
  ◌∙◌, fun_ext, ◌≢◌, ◌↔◌, ◌⊎◌, inl, inr, Bool, true, false, not, ◌&&◌, ◌||◌, Option, none, some,
  List, [], ◌∷◌, ◌++◌, map, append-nil, append_assoc, map-append, arith, eq_iff, ltb, leb, ◌==◌,
  str_eq, if◌then◌else◌, ==_iff, str_eq_self, Bool-cases, if_elim, Option-cases, is_some, get_or,
  length, take, drop, head?, keep, find, sum_of, count, any, length-append, sum_of-append,
  find-append, any-find, find-none_of_any, any-append, length-take, length-take_eq, length-drop,
  take-append-drop, All, All-append, All-imp, find-All, any-All, All-keep, All-and, All-take,
  Distinct, length-map,
}
use node_js_nest_course_proj.Events.{OrderPlacedEvent}
use node_js_nest_course_proj.Events.Schema.{EventParser, parse_event}
use node_js_nest_course_proj.Messaging.{Message}

abbrev pub consumer_name : String
consumer_name = "order-receipts"

pub record ConsumerStats : Type 0 where
  pub delivered : ℕ
  pub applied : ℕ
  pub skipped : ℕ
  pub acked : ℕ
  pub rejected : ℕ

pub record Processed : Type 0 where
  pub message_id : String
  pub consumer : String

pub record Receipt : Type 0 where
  pub event_id : String
  pub order_id : ℕ
  pub buyer_id : ℕ
  pub total_amount : ℕ

-- processed_messages and order_receipts
pub record Inbox : Type 0 where
  pub processed_messages : List Processed
  pub order_receipts : List Receipt

-- Which part of the handling of one message throws.
pub record HandleFaults : Type 0 where
  pub transaction_throws : Bool
  pub hook_throws : Bool
  pub ack_throws : Bool

-- What the broker is told: acknowledged, returned to the queue, sent to the dead letters, or nothing
-- since the channel is gone.
pub data Decision : Type 0 where
  ack requeue dead_letter : Decision

-- INSERT INTO processed_messages … ON CONFLICT DO NOTHING RETURNING message_id
unfoldable pub insert_processed : String → List Processed → Option (List Processed)
insert_processed id ps =
    if any (λ p. str_eq p.message_id id && str_eq p.consumer consumer_name) ps
    then none
    else some (ps ++ record { message_id = id; consumer = consumer_name } ∷ [])

-- A row conflicts on the primary key event_id or on the unique order_id.
abbrev pub conflicts : Receipt → Receipt → Bool
conflicts new r = str_eq r.event_id new.event_id || r.order_id == new.order_id

-- INSERT INTO order_receipts … ON CONFLICT DO NOTHING RETURNING event_id
unfoldable pub insert_receipt : Receipt → List Receipt → Option (List Receipt)
insert_receipt new rs = if any (conflicts new) rs then none else some (rs ++ new ∷ [])

abbrev pub receipt_of : OrderPlacedEvent → Receipt
receipt_of e = record {
  event_id = e.event_id;
  order_id = e.body.order_id;
  buyer_id = e.body.buyer_id;
  total_amount = e.body.total_amount.cents;
}

-- What the two inserts do to the tables; `true` when the effect was applied.
abbrev pub conclude : Inbox → Option (List Processed) → Option (List Receipt) → Bool × Inbox
conclude db none _ = (false, db)
conclude db (some seen) none = (false, record db { processed_messages = seen })
conclude db (some seen) (some rows) =
    (true, record { processed_messages = seen; order_receipts = rows })

-- The transaction: `false` for a duplicate, by the inbox or by the receipts.
unfoldable pub apply_order_placed : OrderPlacedEvent → Inbox → Bool × Inbox
apply_order_placed e db =
    conclude db (insert_processed e.event_id db.processed_messages)
      (insert_receipt (receipt_of e) db.order_receipts)

pub record Consumer : Type 0 where
  pub stats : ConsumerStats
  pub inbox : Inbox

abbrev pub count_applied : Bool → ConsumerStats → ConsumerStats
count_applied true s = record s { applied = s.applied + 1 }
count_applied false s = record s { skipped = s.skipped + 1 }

abbrev pub count_delivered : ConsumerStats → ConsumerStats
count_delivered s = record s { delivered = s.delivered + 1 }

-- After the transaction: the hook, the acknowledgement, and its counter.
abbrev pub acknowledge : HandleFaults → Bool × Inbox → ConsumerStats → Decision × Consumer
acknowledge faults (applied, db) stats =
    let counted = count_applied applied stats in
    if faults.hook_throws || faults.ack_throws
    then (requeue, record { stats = counted; inbox = db })
    else (ack, record { stats = record counted { acked = counted.acked + 1 }; inbox = db })

-- The handler behind the parser.
abbrev pub handle_parsed : HandleFaults → Consumer → Option OrderPlacedEvent → Decision × Consumer
handle_parsed faults c none =
    let stats = count_delivered c.stats in
    (
      dead_letter,
      record { stats = record stats { rejected = stats.rejected + 1 }; inbox = c.inbox },
    )
handle_parsed faults c (some event) =
    let stats = count_delivered c.stats in
    if faults.transaction_throws
    then (requeue, record { stats = stats; inbox = c.inbox })
    else acknowledge faults (apply_order_placed event c.inbox) stats

module _ (parser : EventParser) where
  unfoldable pub handle : HandleFaults → Message → Consumer → Decision × Consumer
  handle faults msg c = handle_parsed faults c (parse_event parser msg.content)

  -- The messages in the order in which the broker delivers them, duplicates included.
  unfoldable pub handle_all : List (HandleFaults × Message) → Consumer → Consumer
  unfolding handle
  handle_all [] c = c
  handle_all ((faults, msg) ∷ rest) c = handle_all rest (handle faults msg c).1
