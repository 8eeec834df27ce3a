-- ===== src/Checkout/Course.antt =====
-- What a checkout that reaches its COMMIT has written.
use node_js_nest_course_proj.Money.{Amount, multiply, ceil_cents}
use node_js_nest_course_proj.Base.{
  ℕ, ◌-◌, ◌≤◌, String, ◌≡◌, refl, ◌≢◌, inl, inr, Bool, false, Option, none, some, List, [], ◌∷◌,
  ◌++◌, arith, str_eq, Bool-cases, Option-cases, any,
}
use node_js_nest_course_proj.Shop.{Db, KeyRow, Product, User}
use node_js_nest_course_proj.Checkout.Tables.Updates.{
  update_stock_self, update_balance_self, update_stock-other, update_balance-other,
  insert_key-set_order,
}
use node_js_nest_course_proj.Checkout.{
  product_of, user_of, update_stock, update_balance, insert_key, CheckoutParams, CheckoutResult,
  Draw, Stage, next, claim, replay, place, order_row, item_row, job_row, outbox_row, event_of,
}
use node_js_nest_course_proj.Checkout.Fields.{
  Course, claim-fields, take_stock-fields, take_money-fields,
}

module _ (sha1 : String → List ℕ) (print_id : ℕ → String) (faults : Stage → Bool)
    (p : CheckoutParams) (draw : Draw) where
  abbrev pub bound_row : String → KeyRow
  bound_row key = record { key = key; order_id = some draw.order_id; created_at = draw.now }

  -- The keys after a committed checkout: its key was free, and is bound to the new order.
  abbrev pub Binds : Option String → List KeyRow → List KeyRow → Type 0
  Binds none ks ks' = ks' ≡ ks
  Binds (some key) ks ks' =
      (any (λ k. str_eq k.key key) ks ≡ false) × (ks' ≡ ks ++ bound_row key ∷ [])

  Binds-of :
      (k : Option String) (email : String) (price : ℕ) (total : Amount)
      (db claimed charged db' : Db)
      → p.idempotency_key ≡ k
      → claim sha1 print_id faults k draw db ≡ next claimed
      → charged.idempotency_keys ≡ claimed.idempotency_keys
      → place sha1 print_id faults p draw email price total charged ≡ next db'
      → Binds k db.idempotency_keys db'.idempotency_keys
  unfolding claim replay place insert_key
  Binds-of none email price total db claimed charged db' same ec es ep = ground arith
  Binds-of (some key) email price total db claimed charged db' same ec es ep =
      elim (Bool-cases (any (λ k. str_eq k.key key) db.idempotency_keys)) [
        | inl taken ↦ absurd (ground arith)
        | inr free ↦ (
          free,
          ground (arith, insert_key-set_order key draw.now draw.order_id db.idempotency_keys free),
        )
      ]

  -- What a committed checkout has done to each table.
  pub record Writes (total : Amount) (db db' : Db) : Type 0 where
    pub product : Product
    pub user : User
    pub sold : product_of p.product_id db.products ≡ some product
    pub in_stock : p.quantity ≤ product.stock
    pub priced : total ≡ multiply draw.slip product.price p.quantity
    pub buyer : user_of p.buyer_id db.users ≡ some user
    pub affordable : ceil_cents total ≤ user.balance
    pub stock :
        product_of p.product_id db'.products
        ≡ some (record product { stock = product.stock - p.quantity })
    pub other_stock :
        (j : ℕ) → j ≢ p.product_id → product_of j db'.products ≡ product_of j db.products
    pub balance :
        user_of p.buyer_id db'.users ≡ some (record user { balance = user.balance - total.cents })
    pub other_balance : (j : ℕ) → j ≢ p.buyer_id → user_of j db'.users ≡ user_of j db.users
    pub keys : Binds p.idempotency_key db.idempotency_keys db'.idempotency_keys
    pub orders : db'.orders ≡ db.orders ++ order_row p draw user.email total ∷ []
    pub order_items : db'.order_items ≡ db.order_items ++ item_row p draw product.price ∷ []
    pub job_queue : db'.job_queue ≡ db.job_queue ++ job_row draw ∷ []
    pub outbox :
        db'.outbox ≡ db.outbox ++ outbox_row draw (event_of sha1 print_id p draw total) ∷ []

  place-fields :
      (email : String) (price : ℕ) (total : Amount) (db placed : Db)
      → place sha1 print_id faults p draw email price total db ≡ next placed
      → placed ≡ record db {
        orders = db.orders ++ order_row p draw email total ∷ [];
        order_items = db.order_items ++ item_row p draw price ∷ [];
        job_queue = db.job_queue ++ job_row draw ∷ [];
        idempotency_keys = placed.idempotency_keys;
        outbox = db.outbox ++ outbox_row draw (event_of sha1 print_id p draw total) ∷ [];
      }
  unfolding place
  place-fields email price total db placed e = elim (Option-cases p.idempotency_key) [
    | inl keyless ↦ ground arith
    | inr (key, keyed) ↦ ground arith
  ]

  Writes-of :
      (db claimed stocked charged db' : Db) (q : Product) (u : User) (total : Amount)
      → claimed ≡ record db { idempotency_keys = claimed.idempotency_keys }
      → product_of p.product_id claimed.products ≡ some q
      → p.quantity ≤ q.stock
      → stocked
        ≡ record claimed { products = (update_stock p.quantity p.product_id claimed.products).1 }
      → total ≡ multiply draw.slip q.price p.quantity
      → user_of p.buyer_id stocked.users ≡ some u
      → ceil_cents total ≤ u.balance
      → charged ≡ record stocked { users = (update_balance total p.buyer_id stocked.users).1 }
      → place sha1 print_id faults p draw u.email q.price total charged ≡ next db'
      → Binds p.idempotency_key db.idempotency_keys db'.idempotency_keys
      → Writes total db db'
  Writes-of db claimed stocked charged db' q u total ec eq cover es et eu pays em ep eb = record {
    keys = eb;
    product = q;
    user = u;
    sold = ground arith;
    in_stock = cover;
    priced = et;
    buyer = ground arith;
    affordable = pays;
    stock = ground (
      arith,
      place-fields u.email q.price total charged db' ep,
      update_stock_self p.quantity p.product_id db.products {q = q},
    );
    other_stock = λ j h. ground (
      arith,
      place-fields u.email q.price total charged db' ep,
      update_stock-other p.quantity p.product_id j db.products h,
    );
    balance = ground (
      arith,
      place-fields u.email q.price total charged db' ep,
      update_balance_self total p.buyer_id db.users {v = u},
    );
    other_balance = λ j h. ground (
      arith,
      place-fields u.email q.price total charged db' ep,
      update_balance-other total p.buyer_id j db.users h,
    );
    orders = ground (arith, place-fields u.email q.price total charged db' ep);
    order_items = ground (arith, place-fields u.email q.price total charged db' ep);
    job_queue = ground (arith, place-fields u.email q.price total charged db' ep);
    outbox = ground (arith, place-fields u.email q.price total charged db' ep);
  }

  pub Course-Writes :
      (db : Db) (r : CheckoutResult) (db' : Db) (c : Course sha1 print_id faults p draw db r db')
      → Writes (multiply draw.slip c.unit_price p.quantity) db db'
  Course-Writes db r db' c =
      let (q, found, cover, same_price, es) =
        take_stock-fields sha1 print_id faults p draw c.claimed c.stocked c.unit_price c.stocks in
      let (u, buyer, pays, em, address) =
        take_money-fields sha1 print_id faults p draw (multiply draw.slip c.unit_price p.quantity)
          c.stocked c.charged c.email c.charges in
      Writes-of db c.claimed c.stocked c.charged db' q u
        (multiply draw.slip c.unit_price p.quantity)
        (claim-fields sha1 print_id faults p draw p.idempotency_key db c.claimed c.claims) found
        cover es (rw same_price) buyer pays em (rw (← address, ← same_price) c.places)
        (Binds-of p.idempotency_key c.email c.unit_price
          (multiply draw.slip c.unit_price p.quantity) db c.claimed c.charged db' refl c.claims
          (ground arith) c.places)
