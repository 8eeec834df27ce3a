-- ===== src/Messaging/Consumer/Once.antt =====
-- Exactly once in effect: what the handler does to the receipts over any deliveries.
use node_js_nest_course_proj.Base.{
  ℕ, String, ◌≡◌, refl, sym, subst, inl, inr, Bool, ◌||◌, Option, none, some, List, [], ◌∷◌, arith,
  ◌==◌, if◌then◌else◌, Bool-cases, if_elim, count, All,
}
use node_js_nest_course_proj.Events.Schema.{EventParser, parse_event}
use node_js_nest_course_proj.Events.{OrderPlacedEvent}
use node_js_nest_course_proj.Messaging.{Message}
use node_js_nest_course_proj.Messaging.Consumer.{
  Inbox, HandleFaults, Decision, ack, Consumer, acknowledge, apply_order_placed, handle, handle_all,
  ConsumerStats, handle_parsed, count_delivered, requeue,
}
use node_js_nest_course_proj.Messaging.Consumer.Effects.{
  IsSound, HasReceipt, count-receipts, apply_order_placed-HasReceipt, apply_order_placed-IsSound,
  apply_order_placed-monotone,
}

-- How many receipts an order has.
abbrev pub receipts_for : ℕ → Consumer → ℕ
receipts_for order_id c = count (λ r. r.order_id == order_id) c.inbox.order_receipts

acknowledge-inbox {ℓ} :
    (P : Inbox → Type ℓ) (faults : HandleFaults) (x : Bool × Inbox) (stats : ConsumerStats)
    → P x.1
    → P (acknowledge faults x stats).1.inbox
acknowledge-inbox P faults (applied, db) stats h =
    if_elim (λ (y : Decision × Consumer). P y.1.inbox) (faults.hook_throws || faults.ack_throws)
      (λ _. h) (λ _. h)

parsed-cases {ℓ} :
    (P : Inbox → Type ℓ) (faults : HandleFaults) (c : Consumer) (o : Option OrderPlacedEvent)
    → P c.inbox
    → ((e : OrderPlacedEvent) → o ≡ some e → P (apply_order_placed e c.inbox).1)
    → P (handle_parsed faults c o).1.inbox
parsed-cases P faults c none same applied = same
parsed-cases P faults c (some e) same applied =
    if_elim (λ (y : Decision × Consumer). P y.1.inbox) faults.transaction_throws (λ _. same)
      λ _.
        acknowledge-inbox P faults (apply_order_placed e c.inbox) (count_delivered c.stats)
          (applied e refl)

-- Only the applied transaction is acknowledged.
parsed-ack {ℓ} :
    (P : Inbox → Type ℓ) (faults : HandleFaults) (c : Consumer) (e : OrderPlacedEvent)
    → (handle_parsed faults c (some e)).0 ≡ ack
    → P (apply_order_placed e c.inbox).1
    → P (handle_parsed faults c (some e)).1.inbox
parsed-ack P faults c e h applied = elim (Bool-cases faults.transaction_throws) [
  | inl throws ↦ absurd (ground arith)
  | inr works ↦
      subst
        (λ b.
          P
            (if b
              then (requeue, record { stats = count_delivered c.stats; inbox = c.inbox })
              else acknowledge faults (apply_order_placed e c.inbox)
                  (count_delivered c.stats)).1.inbox)
        (sym works)
        (acknowledge-inbox P faults (apply_order_placed e c.inbox) (count_delivered c.stats)
          applied)
]

module _ (parser : EventParser) where
  -- After a message the inbox is as before or as its event's transaction leaves it.
  handle-cases {ℓ} :
      (P : Inbox → Type ℓ) (faults : HandleFaults) (msg : Message) (c : Consumer)
      → P c.inbox
      → ((e : OrderPlacedEvent)
          → parse_event parser msg.content ≡ some e
          → P (apply_order_placed e c.inbox).1)
      → P (handle parser faults msg c).1.inbox
  unfolding handle
  handle-cases P faults msg c same applied =
      parsed-cases P faults c (parse_event parser msg.content) same applied

  module _ (order_of : String → ℕ) where
    -- The event of a message names its order by its identifier.
    abbrev pub IsNamed : Message → Type 0
    IsNamed msg =
        (e : OrderPlacedEvent)
        → parse_event parser msg.content ≡ some e
        → order_of e.event_id ≡ e.body.order_id

    pub handle-IsSound :
        (faults : HandleFaults) (msg : Message) (c : Consumer)
        → IsNamed msg
        → IsSound order_of c.inbox
        → IsSound order_of (handle parser faults msg c).1.inbox
    handle-IsSound faults msg c names s =
        handle-cases (IsSound order_of) faults msg c s
          λ e h. apply_order_placed-IsSound order_of e c.inbox (names e h) s

    handle-HasReceipt :
        (order_id : ℕ) (faults : HandleFaults) (msg : Message) (c : Consumer)
        → HasReceipt order_id c.inbox
        → HasReceipt order_id (handle parser faults msg c).1.inbox
    handle-HasReceipt order_id faults msg c h =
        handle-cases (HasReceipt order_id) faults msg c h
          λ e _. apply_order_placed-monotone e order_id c.inbox h

    handle_all-once :
        (order_id : ℕ) (ds : List (HandleFaults × Message)) (c : Consumer)
        → All (λ d. IsNamed d.1) ds
        → IsSound order_of c.inbox
        → HasReceipt order_id c.inbox
        → receipts_for order_id (handle_all parser ds c) ≡ 1
    unfolding handle_all
    handle_all-once order_id [] c n s h = count-receipts order_id c.inbox.order_receipts s.unique h
    handle_all-once order_id ((faults, msg) ∷ ds) c n s h =
        handle_all-once order_id ds (handle parser faults msg c).1 n.1
          (handle-IsSound faults msg c n.0 s) (handle-HasReceipt order_id faults msg c h)

    ack-HasReceipt :
        (faults : HandleFaults) (msg : Message) (e : OrderPlacedEvent) (c : Consumer)
        → IsNamed msg
        → IsSound order_of c.inbox
        → parse_event parser msg.content ≡ some e
        → (handle parser faults msg c).0 ≡ ack
        → HasReceipt e.body.order_id (handle parser faults msg c).1.inbox
    unfolding handle
    ack-HasReceipt faults msg e c names s p h =
        subst
          (λ o.
            (handle_parsed faults c o).0 ≡ ack
            → HasReceipt e.body.order_id (handle_parsed faults c o).1.inbox)
          (sym p)
          (λ acked.
            parsed-ack (HasReceipt e.body.order_id) faults c e acked
              (apply_order_placed-HasReceipt order_of e c.inbox (names e p) s))
          h

    -- Let the order of each delivered event be a function of its identifier, which it is unless two of
    -- them have one identifier and different orders, and let the inbox be sound for that function. When
    -- a message is acknowledged, its order has exactly one receipt after it and after any deliveries
    -- behind it, duplicates, failing transactions, lost acknowledgements and messages that the schema
    -- rejects included.
    pub acked_once :
        (faults : HandleFaults) (msg : Message) (e : OrderPlacedEvent)
        (ds : List (HandleFaults × Message)) (c : Consumer)
        → All (λ d. IsNamed d.1) ((faults, msg) ∷ ds)
        → IsSound order_of c.inbox
        → parse_event parser msg.content ≡ some e
        → (handle parser faults msg c).0 ≡ ack
        → receipts_for e.body.order_id (handle_all parser ((faults, msg) ∷ ds) c) ≡ 1
    unfolding handle_all
    acked_once faults msg e ds c n s p h =
        handle_all-once e.body.order_id ds (handle parser faults msg c).1 n.1
          (handle-IsSound faults msg c n.0 s) (ack-HasReceipt faults msg e c n.0 s p h)
