-- ===== src/Messaging/Publishing.antt =====
-- What one publication adds to the queues, and what it means that it did not throw.
use node_js_nest_course_proj.Base.{
  String, ◌≡◌, Bool, true, false, ◌&&◌, ◌||◌, List, [], ◌∷◌, arith, any, any-append,
}
use node_js_nest_course_proj.Messaging.{
  Message, Answer, Channel, Props, IsHonest, enqueue, publish_raw,
}

pub any-enqueue :
    (p : Message → Bool) (routed : Bool) (m : Message) (queue : List Message)
    → any p (enqueue routed m queue) ≡ (any p queue || (routed && p m))
any-enqueue p false m queue = ground arith
any-enqueue p true m queue = ground (arith, any-append p queue (m ∷ []))

-- A publication that throws on returns, and did not throw, has put its message into a queue.
pub publish_raw-routed :
    (key content : String) (props : Props) (a : Answer) (ch : Channel)
    → IsHonest a
    → props.throw_if_unroutable ≡ true
    → (publish_raw key content props a ch).0 ≡ true
    → a.routed ≡ true
unfolding publish_raw
publish_raw-routed key content props a ch honest strict e = honest (ground arith) (ground arith)
