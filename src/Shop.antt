-- ===== src/Shop.antt =====
-- The tables of the shop's database (src/entities, src/migrations), with the columns that the
-- programs here read or write. An id is the number that its digits spell; an amount of money is in
-- cents; a time is in milliseconds.
use node_js_nest_course_proj.Base.{ℕ, String, Bool, Option, List}
use node_js_nest_course_proj.Events.{OrderPlacedEvent}

pub record Product : Type 0 where
  pub id : ℕ
  pub sku : String
  pub name : String
  pub price : ℕ
  pub is_active : Bool
  pub stock : ℕ
  pub created_at : ℕ

pub record User : Type 0 where
  pub id : ℕ
  pub email : String
  pub full_name : String
  pub balance : ℕ
  pub created_at : ℕ

pub data OrderStatus : Type 0 where
  pending paid shipped cancelled refunded : OrderStatus

pub record Order : Type 0 where
  pub id : ℕ
  pub buyer_id : ℕ
  pub customer_email : String
  pub status : OrderStatus
  pub total_amount : ℕ
  pub created_at : ℕ

pub record OrderItem : Type 0 where
  pub id : ℕ
  pub order_id : ℕ
  pub product_id : ℕ
  pub quantity : ℕ
  pub unit_price : ℕ

pub data JobStatus : Type 0 where
  new done : JobStatus

pub record JobQueue : Type 0 where
  pub id : ℕ
  pub order_id : ℕ
  pub kind : String
  pub status : JobStatus
  pub worker : Option String
  pub processed : ℕ
  pub created_at : ℕ

pub record KeyRow : Type 0 where
  pub key : String
  pub order_id : Option ℕ
  pub created_at : ℕ

pub record OutboxRow : Type 0 where
  pub id : ℕ
  pub aggregate_type : String
  pub aggregate_id : ℕ
  pub type : String
  pub payload : OrderPlacedEvent
  pub created_at : ℕ
  pub published_at : Option ℕ
  pub attempts : ℕ

-- Rows stand in the order in which they were inserted.
pub record Db : Type 0 where
  pub products : List Product
  pub users : List User
  pub orders : List Order
  pub order_items : List OrderItem
  pub job_queue : List JobQueue
  pub idempotency_keys : List KeyRow
  pub outbox : List OutboxRow
