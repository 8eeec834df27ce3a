-- ===== src/Messaging.antt =====
-- The broker's side of the events: publishing with a confirm channel (src/messaging/publisher.ts)
-- under the names of the topology (src/messaging/topology.ts). What the broker does with a message
-- is an answer that it gives; the JSON text of an event is a parameter.
pub mod Publishing
pub mod Consumer
use node_js_nest_course_proj.Base.{
  ℕ, ◌+◌, ◌≡◌, String, Bool, true, false, not, ◌&&◌, Option, none, some, List, [], ◌∷◌, ◌++◌, ltb,
  if◌then◌else◌,
}
use node_js_nest_course_proj.Events.{OrderPlacedEvent}

abbrev pub exchange : String
exchange = "shop.events"

abbrev pub routing_key_order_placed : String
routing_key_order_placed = "order.placed"

pub record Message : Type 0 where
  pub exchange : String
  pub routing_key : String
  pub content : String
  pub message_id : String
  pub type : String
  pub persistent : Bool
  pub mandatory : Bool

-- What the broker did with one publication: whether the message lies in a queue, how many returns
-- arrived before the confirm, and whether `waitForConfirms` resolved.
pub record Answer : Type 0 where
  pub routed : Bool
  pub returns : ℕ
  pub confirmed : Bool

-- The counter of an `EventPublisher`, and the messages that lie in queues because of it.
pub record Channel : Type 0 where
  pub returned : ℕ
  pub queued : List Message

pub record Props : Type 0 where
  pub message_id : String
  pub type : String
  pub throw_if_unroutable : Bool

abbrev pub message_of : String → String → Props → Message
message_of key content props = record {
  exchange = exchange;
  routing_key = key;
  content = content;
  message_id = props.message_id;
  type = props.type;
  persistent = true;
  mandatory = true;
}

abbrev pub enqueue : Bool → Message → List Message → List Message
enqueue routed m queue = if routed then queue ++ m ∷ [] else queue

-- `publishRaw`: `true` when it returns, `false` when it throws.
unfoldable pub publish_raw : String → String → Props → Answer → Channel → Bool × Channel
publish_raw key content props answer ch =
    let ch' : Channel = record {
      returned = ch.returned + answer.returns;
      queued = enqueue answer.routed (message_of key content props) ch.queued;
    } in
    (answer.confirmed && not (props.throw_if_unroutable && ltb ch.returned ch'.returned), ch')

module _ (stringify : OrderPlacedEvent → String) where
  unfoldable pub publish_order_placed : OrderPlacedEvent → Answer → Channel → Bool × Channel
  unfolding publish_raw
  publish_order_placed event =
      publish_raw routing_key_order_placed (stringify event)
        (record { message_id = event.event_id; type = event.type; throw_if_unroutable = false })

-- What RabbitMQ documents for a mandatory message: an unroutable one is returned before its confirm.
abbrev pub IsHonest : Answer → Type 0
IsHonest a = a.confirmed ≡ true → a.returns ≡ 0 → a.routed ≡ true
