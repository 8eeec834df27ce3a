-- ===== src/Events/Schema.antt =====
-- Reading an event from the text of a message: JSON.parse and OrderPlacedSchema
-- (src/messaging/events.ts). What JSON.parse makes of a text, and what the library zod takes for a UUID
-- and for a time in ISO format, are parameters.
use node_js_nest_course_proj.Base.{ℕ, String, Bool, Option, none, some, ltb, str_eq, if◌then◌else◌}
use node_js_nest_course_proj.Money.{Amount}
use node_js_nest_course_proj.Events.{OrderData, OrderPlacedEvent}

-- A text that stands for an id; the empty one is no number.
pub data RawId : Type 0 where
  blank : RawId
  spells : ℕ → RawId

-- A number; a fraction is one that is no count.
pub data RawCount : Type 0 where
  negative fraction : RawCount
  whole : ℕ → RawCount

pub data RawTotal : Type 0 where
  less_than_zero : RawTotal
  total : Amount → RawTotal

-- The fields of a parsed JSON object, each where it has the type that the schema asks for.
pub record RawData : Type 0 where
  pub order_id : Option RawId
  pub buyer_id : Option RawId
  pub product_id : Option RawId
  pub quantity : Option RawCount
  pub total_amount : Option RawTotal

pub record RawEvent : Type 0 where
  pub event_id : Option String
  pub type : Option String
  pub occurred_at : Option String
  pub body : Option RawData

pub record EventParser : Type 0 where
  pub parse_json : String → Option RawEvent
  pub is_uuid : String → Bool
  pub read_datetime : String → Option ℕ

infixl 5 ◌>>=◌
abbrev ◌>>=◌ : {A B : Type 0} → Option A → (A → Option B) → Option B
none >>= k = none
some a >>= k = k a

-- `z.string().min(1)`
abbrev pub id_of : RawId → Option ℕ
id_of blank = none
id_of (spells id) = some id

-- `z.number().int().positive()`
abbrev pub count_of : RawCount → Option ℕ
count_of negative = none
count_of fraction = none
count_of (whole n) = if ltb 0 n then some n else none

-- `z.number().nonnegative()`
abbrev pub total_of : RawTotal → Option Amount
total_of less_than_zero = none
total_of (total amount) = some amount

abbrev pub data_of : RawData → Option OrderData
data_of raw = do
  order_id ← raw.order_id >>= id_of
  buyer_id ← raw.buyer_id >>= id_of
  product_id ← raw.product_id >>= id_of
  quantity ← raw.quantity >>= count_of
  total_amount ← raw.total_amount >>= total_of
  some (record {
    order_id = order_id;
    buyer_id = buyer_id;
    product_id = product_id;
    quantity = quantity;
    total_amount = total_amount;
  })

abbrev pub only_if : (String → Bool) → String → Option String
only_if p text = if p text then some text else none

-- `OrderPlacedSchema.parse(JSON.parse(text))`, none where that throws
unfoldable pub parse_event : EventParser → String → Option OrderPlacedEvent
parse_event parser text = do
  raw ← parser.parse_json text
  event_id ← raw.event_id >>= only_if parser.is_uuid
  type ← raw.type >>= only_if (str_eq "order.placed")
  occurred_at ← raw.occurred_at >>= parser.read_datetime
  body ← raw.body >>= data_of
  some (record { event_id = event_id; type = type; occurred_at = occurred_at; body = body })
