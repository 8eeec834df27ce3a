-- ===== src/Checkout.antt =====
-- The transactional checkout (src/checkout.ts): one transaction that claims the idempotency key,
-- takes the stock and the money, inserts the order with its item, its job and its outbox event, and
-- commits. Its statements are functions on the tables; a primary key has at most one row, so an
-- UPDATE by id stops at the first. `draw` holds what Postgres and the clock supply, and `faults`
-- says which statement, hook or COMMIT throws; every exit but the COMMIT restores the tables.
mod Tables
pub mod Fields
pub mod Course
pub mod Exits
pub mod History
pub mod Stock
pub mod Balance
pub mod Mirror
pub mod Keys
pub mod Sample
mod Tests
unfoldable pub use Tables.*
use node_js_nest_course_proj.Money.{Amount, Slip, exact, multiply}
use node_js_nest_course_proj.Base.{
  ℕ, ◌*◌, String, Bool, true, false, Option, none, some, List, [], ◌∷◌, ◌++◌, if◌then◌else◌,
}
use node_js_nest_course_proj.Events.{OrderPlacedEvent, to_order_placed_event}
use node_js_nest_course_proj.Shop.{Db, Order, OrderItem, JobQueue, OutboxRow, paid, new}

pub data CheckoutFailureReason : Type 0 where
  out_of_stock insufficient_funds : CheckoutFailureReason

pub record CheckoutParams : Type 0 where
  pub buyer_id : ℕ
  pub product_id : ℕ
  pub quantity : ℕ
  pub idempotency_key : Option String

pub data CheckoutResult : Type 0 where
  success : (order_id : ℕ) → (total_amount : Amount) → (replayed : Bool) → CheckoutResult
  failure : CheckoutFailureReason → CheckoutResult

-- What Postgres draws for the new rows, its transaction time, the clock of the process, and how far the
-- product of the doubles is off.
pub record Draw : Type 0 where
  pub order_id : ℕ
  pub item_id : ℕ
  pub job_id : ℕ
  pub outbox_id : ℕ
  pub now : ℕ
  pub placed_at : ℕ
  pub slip : Slip

-- The places at which the body can throw.
pub data Stage : Type 0 where
  claiming looking_up taking_stock taking_money reading_email inserting_order inserting_item
        inserting_job binding_key inserting_event hook committing :
      Stage

pub data CheckoutError : Type 0 where
  failed_at : Stage → CheckoutError
  no_previous : CheckoutError

-- How a part of the body ends: go on, roll back and return, or throw.
pub data Exit (A : Type 0) : Type 0 where
  next : A → Exit A
  rolled_back : CheckoutResult → Exit A
  raised : CheckoutError → Exit A

infixl 5 ◌>>=◌ ◌>>◌
abbrev pub ◌>>=◌ : {A B : Type 0} → Exit A → (A → Exit B) → Exit B
next a >>= k = k a
rolled_back r >>= k = rolled_back r
raised e >>= k = raised e

abbrev pub ◌>>◌ : {B : Type 0} → Exit (Unit {0}) → Exit B → Exit B
m >> k = m >>= λ _. k

pub data Outcome : Type 0 where
  returned : CheckoutResult → Outcome
  thrown : CheckoutError → Outcome

abbrev pub order_row : CheckoutParams → Draw → String → Amount → Order
order_row p draw email total_amount = record {
  id = draw.order_id;
  buyer_id = p.buyer_id;
  customer_email = email;
  status = paid;
  total_amount = total_amount.cents;
  created_at = draw.now;
}

abbrev pub item_row : CheckoutParams → Draw → ℕ → OrderItem
item_row p draw unit_price = record {
  id = draw.item_id;
  order_id = draw.order_id;
  product_id = p.product_id;
  quantity = p.quantity;
  unit_price = unit_price;
}

abbrev pub job_row : Draw → JobQueue
job_row draw = record {
  id = draw.job_id;
  order_id = draw.order_id;
  kind = "post_processing";
  status = new;
  worker = none;
  processed = 0;
  created_at = draw.now;
}

abbrev pub outbox_row : Draw → OrderPlacedEvent → OutboxRow
outbox_row draw event = record {
  id = draw.outbox_id;
  aggregate_type = "Order";
  aggregate_id = draw.order_id;
  type = event.type;
  payload = event;
  created_at = draw.now;
  published_at = none;
  attempts = 0;
}

abbrev pub bind_key : Option String → ℕ → Db → Db
bind_key none order_id db = db
bind_key (some key) order_id db = record db {
  idempotency_keys = set_order key order_id db.idempotency_keys;
}

abbrev pub event_of :
    (String → List ℕ) → (ℕ → String) → CheckoutParams → Draw → Amount → OrderPlacedEvent
event_of sha1 print_id p draw total_amount = to_order_placed_event sha1 print_id (record {
  id = draw.order_id;
  buyer_id = p.buyer_id;
  product_id = p.product_id;
  quantity = p.quantity;
  total_amount = total_amount;
  placed_at = draw.placed_at;
})

-- COMMIT, ROLLBACK with a result, or the `catch` with its ROLLBACK
abbrev pub finish : Db → Exit (CheckoutResult × Db) → Outcome × Db
finish db (next (r, db')) = (returned r, db')
finish db (rolled_back r) = (returned r, db)
finish db (raised e) = (thrown e, db)

module _ (sha1 : String → List ℕ) (print_id : ℕ → String) (faults : Stage → Bool) where
  abbrev pub query : Stage → Exit (Unit {0})
  query s = if faults s then raised (failed_at s) else next tt

  -- the branch of a key that is taken already
  unfoldable pub replay : String → Db → Exit Db
  replay key db = do
    query looking_up
    elim (find_keyed key db.idempotency_keys db.orders) [
      | none ↦ raised no_previous
      | some o ↦ rolled_back (success o.id (exact o.total_amount) true)
    ]

  -- step 0: the key first
  unfoldable pub claim : Option String → Draw → Db → Exit Db
  unfolding replay
  claim none draw db = next db
  claim (some key) draw db = do
    query claiming
    elim (insert_key key draw.now db.idempotency_keys) [
      | none ↦ replay key db
      | some keys ↦ next (record db { idempotency_keys = keys })
    ]

  -- step 1: the stock; the result is the unit price
  unfoldable pub take_stock : CheckoutParams → Db → Exit (ℕ × Db)
  take_stock p db = do
    query taking_stock
    let (result, products) = update_stock p.quantity p.product_id db.products
    elim (unwrap_returning result) [
      | [] ↦ rolled_back (failure out_of_stock)
      | price ∷ _ ↦ next (price, record db { products = products })
    ]

  -- step 2: the money, and the buyer's address
  unfoldable pub take_money : CheckoutParams → Amount → Db → Exit (String × Db)
  take_money p total_amount db = do
    query taking_money
    let (result, users) = update_balance total_amount p.buyer_id db.users
    elim (unwrap_returning result) [
      | [] ↦ rolled_back (failure insufficient_funds)
      | _ ∷ _ ↦ (do
        query reading_email
        next (email_of p.buyer_id users, record db { users = users }))
    ]

  abbrev pub binds : Option String → Exit (Unit {0})
  binds none = next tt
  binds (some _) = query binding_key

  -- steps 3 to 5: the order, its item, its job, the key's order and the event
  unfoldable pub place : CheckoutParams → Draw → String → ℕ → Amount → Db → Exit Db
  place p draw email unit_price total_amount db = do
    query inserting_order
    query inserting_item
    query inserting_job
    binds p.idempotency_key
    query inserting_event
    query hook
    query committing
    let event = event_of sha1 print_id p draw total_amount
    next (
        bind_key p.idempotency_key draw.order_id (record db {
          orders = db.orders ++ order_row p draw email total_amount ∷ [];
          order_items = db.order_items ++ item_row p draw unit_price ∷ [];
          job_queue = db.job_queue ++ job_row draw ∷ [];
          outbox = db.outbox ++ outbox_row draw event ∷ [];
        }))

  unfoldable pub body : CheckoutParams → Draw → Db → Exit (CheckoutResult × Db)
  body p draw db = do
    claimed ← claim p.idempotency_key draw db
    (unit_price, stocked) ← take_stock p claimed
    let total_amount = multiply draw.slip unit_price p.quantity
    (email, charged) ← take_money p total_amount stocked
    placed ← place p draw email unit_price total_amount charged
    next (success draw.order_id total_amount false, placed)

  unfoldable pub checkout : CheckoutParams → Draw → Db → Outcome × Db
  checkout p draw db = finish db (body p draw db)
