-- ===== src/Pipeline.antt =====
-- The way of an order through the parts (src/checkout.ts, src/outbox/relay.ts,
-- src/messaging/publisher.ts and src/messaging/consumer.ts): from the transaction that places it over
-- the outbox and the broker to its receipt.
mod Tests
use node_js_nest_course_proj.Base.{
  ℕ, zero, suc, ◌+◌, ◌-◌, ◌*◌, ◌/◌, ◌%◌, ◌^◌, ◌≤◌, ◌<◌, min, max, String, ◌≡◌, refl, sym, ap, subst,
  ◌∙◌, fun_ext, ◌≢◌, ◌↔◌, ◌⊎◌, inl, inr, Bool, true, false, not, ◌&&◌, ◌||◌, Option, none, some,
  List, [], ◌∷◌, ◌++◌, map, append-nil, append_assoc, map-append, arith, eq_iff, ltb, leb, ◌==◌,
  str_eq, if◌then◌else◌, ==_iff, str_eq_self, Bool-cases, if_elim, Option-cases, is_some, get_or,
  length, take, drop, head?, keep, find, sum_of, count, any, length-append, sum_of-append,
  find-append, any-find, find-none_of_any, any-append, length-take, length-take_eq, length-drop,
  take-append-drop, All, All-append, All-imp, find-All, any-All, All-keep, All-and, All-take,
  Distinct, length-map, get, set, get-set_same, get-set_other, remove, get-All, All-set, All-remove,
  take-all, drop-nil, drop-drop, drop-append, drop-all, keep-append,
}
use node_js_nest_course_proj.Events.Schema.{EventParser, parse_event}
use node_js_nest_course_proj.Events.{OrderPlacedEvent}
use node_js_nest_course_proj.Shop.{Db, Order, OutboxRow}
use node_js_nest_course_proj.Checkout.History.{Call, run, run-keeps}
use node_js_nest_course_proj.Checkout.Mirror.{event_facts, order_facts, IsMirrored, run-IsMirrored}
use node_js_nest_course_proj.Messaging.{Message, Channel, IsHonest}
use node_js_nest_course_proj.Messaging.Consumer.{
  HandleFaults, Decision, ack, Consumer, handle, handle_all,
}
use node_js_nest_course_proj.Messaging.Consumer.Effects.{IsSound}
use node_js_nest_course_proj.Messaging.Consumer.Once.{
  receipts_for, IsNamed, acked_once, handle-IsSound,
}
use node_js_nest_course_proj.Outbox.{Around, World, relay_until_empty}
use node_js_nest_course_proj.Outbox.Rows.{ids}
use node_js_nest_course_proj.Outbox.Pending.{pending}
use node_js_nest_course_proj.Outbox.Delivered.{carries, IsQueued, IsDelivered}
use node_js_nest_course_proj.Outbox.Drain.{IsSmooth}
use node_js_nest_course_proj.Outbox.Emptied.{All-transfer, emptied-IsQueued}

-- No event was published so far.
abbrev pub IsUnpublished : Db → Type 0
IsUnpublished db = All (λ r. r.published_at ≡ none) db.outbox

module _ (sha1 : String → List ℕ) (print_id : ℕ → String) where
  run-IsUnpublished :
      (cs : List Call) (db : Db) → IsUnpublished db → IsUnpublished (run sha1 print_id cs db)
  run-IsUnpublished cs db =
      run-keeps sha1 print_id IsUnpublished
        (λ c total d d2 h w.
          subst (All (λ r. r.published_at ≡ none)) (sym w.outbox)
            (All-append _ d.outbox _ h (refl, tt)))
        cs db

-- The consumer acknowledges a message of this content somewhere in the deliveries.
abbrev pub IsAcked : EventParser → String → List (HandleFaults × Message) → Consumer → Type 0
IsAcked parser content [] c = ⊥
IsAcked parser content ((faults, msg) ∷ ds) c =
    ((msg.content ≡ content) × ((handle parser faults msg c).0 ≡ ack))
    ⊎ IsAcked parser content ds (handle parser faults msg c).1

module _ (parser : EventParser) (order_of : String → ℕ) where
  IsAcked-once :
      (content : String) (e : OrderPlacedEvent) (ds : List (HandleFaults × Message)) (c : Consumer)
      → All (λ d. IsNamed parser order_of d.1) ds
      → IsSound order_of c.inbox
      → parse_event parser content ≡ some e
      → IsAcked parser content ds c
      → receipts_for e.body.order_id (handle_all parser ds c) ≡ 1
  unfolding handle_all
  IsAcked-once content e [] c n s p h = absurd h
  IsAcked-once content e ((faults, msg) ∷ ds) c n s p (inl (same, acked)) =
      acked_once parser order_of faults msg e ds c n s (ap (parse_event parser) same ∙ p) acked
  IsAcked-once content e ((faults, msg) ∷ ds) c n s p (inr later) =
      IsAcked-once content e ds (handle parser faults msg c).1 n.1
        (handle-IsSound parser order_of faults msg c n.0 s) p later

  row-once :
      (stringify : OrderPlacedEvent → String) (queue : List Message)
      (ds : List (HandleFaults × Message)) (c : Consumer) (r : OutboxRow)
      → All (λ d. IsNamed parser order_of d.1) ds
      → IsSound order_of c.inbox
      → parse_event parser (stringify r.payload) ≡ some r.payload
      → IsQueued stringify queue r
      → All (λ m. IsAcked parser m.content ds c) queue
      → receipts_for r.payload.body.order_id (handle_all parser ds c) ≡ 1
  row-once stringify queue ds c r n s p queued acked =
      let (m, carried, h) =
        any-All (λ m. IsAcked parser m.content ds c) (carries stringify r) queue acked queued in
      let same : m.content ≡ stringify r.payload =
        (eq_iff m.content (stringify r.payload)).0 (ground (arith, carried)) in
      IsAcked-once m.content r.payload ds c n s (ap (parse_event parser) same ∙ p) h

  -- Every order gets its receipt, once. Let any history of checkouts run, from tables in which orders
  -- and unpublished events stand for one another; let the relay empty the outbox without a
  -- disturbance; and let the consumer acknowledge each queued message somewhere among any
  -- deliveries, repeated and failing ones included. Then every order has exactly one receipt. Of the
  -- JSON text of an event in the outbox it is assumed that it parses to the event, and of the
  -- delivered messages that the order of their events is a function of the identifier.
  pub order-receipt :
      (sha1 : String → List ℕ) (print_id : ℕ → String) (stringify : OrderPlacedEvent → String)
      (cs : List Call) (shop : Db) (fuel : ℕ) (envs : ℕ → Around) (ch : Channel) (final : World)
      (n : ℕ) (ds : List (HandleFaults × Message)) (c : Consumer)
      → IsMirrored sha1 print_id shop
      → IsUnpublished shop
      → (let db = run sha1 print_id cs shop in
          Distinct (ids db.outbox)
          → All (λ r. parse_event parser (stringify r.payload) ≡ some r.payload) db.outbox
          → pending db.outbox < fuel
          → ((k : ℕ) → IsSmooth (envs k))
          → ((k : ℕ) (r : OutboxRow) → IsHonest ((envs k).answer r))
          → relay_until_empty stringify fuel envs 0 0 (record { outbox = db.outbox; channel = ch })
            ≡ some (some n, final)
          → All (λ d. IsNamed parser order_of d.1) ds
          → IsSound order_of c.inbox
          → All (λ m. IsAcked parser m.content ds c) final.channel.queued
          → All (λ o. receipts_for o.id (handle_all parser ds c) ≡ 1) db.orders)
  order-receipt sha1 print_id stringify cs shop fuel envs ch final n ds c mirrored unpublished d
        parses enough smooth honest ends named sound acked =
      let db = run sha1 print_id cs shop in
      let fresh = run-IsUnpublished sha1 print_id cs shop unpublished in
      let w : World = record { outbox = db.outbox; channel = ch } in
      let queued =
        emptied-IsQueued stringify fuel envs w final n smooth honest d enough
          (All-imp (λ r h p. absurd (p h)) db.outbox fresh) ends in
      let once =
        All-imp (λ r h. row-once stringify final.channel.queued ds c r named sound h.0 h.1 acked)
          db.outbox
          (All-and (λ r. parse_event parser (stringify r.payload) ≡ some r.payload)
            (IsQueued stringify final.channel.queued) db.outbox parses queued) in
      All-transfer (λ f. receipts_for f.0 (handle_all parser ds c) ≡ 1) event_facts order_facts
        db.outbox db.orders (run-IsMirrored sha1 print_id cs shop mirrored).events once
