-- ===== src/Messaging/Consumer/Stats.antt =====
-- The consumer's counters: what each message adds to them.
use node_js_nest_course_proj.Base.{
  ◌+◌, ◌≤◌, Bool, true, false, ◌||◌, Option, none, some, List, [], ◌∷◌, arith, if_elim,
}
use node_js_nest_course_proj.Events.Schema.{EventParser, parse_event}
use node_js_nest_course_proj.Events.{OrderPlacedEvent}
use node_js_nest_course_proj.Messaging.{Message}
use node_js_nest_course_proj.Messaging.Consumer.{
  HandleFaults, Decision, Consumer, ConsumerStats, handle, handle_all, Inbox, handle_parsed,
  acknowledge, apply_order_placed, count_delivered,
}

-- Every delivery is rejected or was counted as one of the outcomes, or its transaction threw; what
-- is acknowledged was applied or skipped.
pub record IsAccounted (s : ConsumerStats) : Type 0 where
  pub ended : s.rejected + (s.applied + s.skipped) ≤ s.delivered
  pub acknowledged : s.acked ≤ s.applied + s.skipped

acknowledge-IsAccounted :
    (faults : HandleFaults) (x : Bool × Inbox) (s : ConsumerStats)
    → IsAccounted s
    → IsAccounted (acknowledge faults x (count_delivered s)).1.stats
acknowledge-IsAccounted faults (true, db) s h =
    if_elim (λ (y : Decision × Consumer). IsAccounted y.1.stats)
      (faults.hook_throws || faults.ack_throws)
      (λ _. record { ended = omega (arith, h.ended); acknowledged = omega (arith, h.acknowledged) })
      (λ _. record { ended = omega (arith, h.ended); acknowledged = omega (arith, h.acknowledged) })
acknowledge-IsAccounted faults (false, db) s h =
    if_elim (λ (y : Decision × Consumer). IsAccounted y.1.stats)
      (faults.hook_throws || faults.ack_throws)
      (λ _. record { ended = omega (arith, h.ended); acknowledged = omega (arith, h.acknowledged) })
      (λ _. record { ended = omega (arith, h.ended); acknowledged = omega (arith, h.acknowledged) })

parsed-IsAccounted :
    (faults : HandleFaults) (c : Consumer) (o : Option OrderPlacedEvent)
    → IsAccounted c.stats
    → IsAccounted (handle_parsed faults c o).1.stats
parsed-IsAccounted faults c none h = record {
  ended = omega (arith, h.ended);
  acknowledged = h.acknowledged;
}
parsed-IsAccounted faults c (some e) h =
    if_elim (λ (y : Decision × Consumer). IsAccounted y.1.stats) faults.transaction_throws
      (λ _. record { ended = omega (arith, h.ended); acknowledged = h.acknowledged })
      (λ _. acknowledge-IsAccounted faults (apply_order_placed e c.inbox) c.stats h)

module _ (parser : EventParser) where
  handle-IsAccounted :
      (faults : HandleFaults) (msg : Message) (c : Consumer)
      → IsAccounted c.stats
      → IsAccounted (handle parser faults msg c).1.stats
  unfolding handle
  handle-IsAccounted faults msg c h = parsed-IsAccounted faults c (parse_event parser msg.content) h

  -- The counters keep their order over any deliveries.
  handle_all-IsAccounted :
      (ds : List (HandleFaults × Message)) (c : Consumer)
      → IsAccounted c.stats
      → IsAccounted (handle_all parser ds c).stats
  unfolding handle_all
  handle_all-IsAccounted [] c h = h
  handle_all-IsAccounted ((faults, msg) ∷ ds) c h =
      handle_all-IsAccounted ds (handle parser faults msg c).1 (handle-IsAccounted faults msg c h)
