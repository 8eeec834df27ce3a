-- ===== src/Checkout/Fields.antt =====
-- The states that a checkout which reaches its COMMIT goes through, and what each step changes.
use node_js_nest_course_proj.Money.{Amount, multiply, ceil_cents}
use node_js_nest_course_proj.Base.{
  ℕ, ◌≤◌, String, ◌≡◌, refl, inl, inr, Bool, false, Option, none, some, List, arith, Option-cases,
}
use node_js_nest_course_proj.Shop.{Db, Product, User}
use node_js_nest_course_proj.Checkout.Tables.Updates.{
  update_stock-rows, update_balance-rows, update_balance_self,
}
use node_js_nest_course_proj.Checkout.{
  product_of, user_of, update_stock, update_balance, email_of, CheckoutParams, CheckoutResult,
  success, Draw, Stage, Exit, next, rolled_back, raised, ◌>>=◌, claim, replay, take_stock,
  take_money, place, body,
}

-- A bind that goes on has gone through its first part.
bind-next {ℓ} :
    {A B : Type 0} {P : Type ℓ} (m : Exit A) (k : A → Exit B) {b : B}
    → (m >>= k) ≡ next b
    → ((a : A) → m ≡ next a → k a ≡ next b → P)
    → P
bind-next (next a) k e f = f a refl e
bind-next (rolled_back r) k e f = absurd (cc)
bind-next (raised x) k e f = absurd (cc)

module _ (sha1 : String → List ℕ) (print_id : ℕ → String) (faults : Stage → Bool)
    (p : CheckoutParams) (draw : Draw) where
  -- The states that a body which runs to its end goes through.
  pub record Course (db : Db) (r : CheckoutResult) (db' : Db) : Type 0 where
    pub claimed : Db
    pub unit_price : ℕ
    pub stocked : Db
    pub email : String
    pub charged : Db
    pub claims : claim sha1 print_id faults p.idempotency_key draw db ≡ next claimed
    pub stocks : take_stock sha1 print_id faults p claimed ≡ next (unit_price, stocked)
    pub charges :
        take_money sha1 print_id faults p (multiply draw.slip unit_price p.quantity) stocked
        ≡ next (email, charged)
    pub places :
        place sha1 print_id faults p draw email unit_price
          (multiply draw.slip unit_price p.quantity)
          charged
        ≡ next db'
    pub result : r ≡ success draw.order_id (multiply draw.slip unit_price p.quantity) false

  pub body-Course :
      (db : Db) (r : CheckoutResult) (db' : Db)
      → body sha1 print_id faults p draw db ≡ next (r, db')
      → Course db r db'
  unfolding body
  body-Course db r db' e =
      bind-next (claim sha1 print_id faults p.idempotency_key draw db) _ e λ claimed e₁ k₁.
        bind-next (take_stock sha1 print_id faults p claimed) _ k₁ λ s e₂ k₂.
          bind-next (take_money sha1 print_id faults p (multiply draw.slip s.0 p.quantity) s.1) _ k₂
            λ m e₃ k₃.
              bind-next
                (place sha1 print_id faults p draw m.0 s.0 (multiply draw.slip s.0 p.quantity) m.1)
                _ k₃
                λ placed e₄ k₄. record {
                  claimed = claimed;
                  unit_price = s.0;
                  stocked = s.1;
                  email = m.0;
                  charged = m.1;
                  claims = e₁;
                  stocks = e₂;
                  charges = e₃;
                  places = cc;
                  result = cc;
                }

  -- The key's claim touches only the table of keys.
  pub claim-fields :
      (key : Option String) (db claimed : Db)
      → claim sha1 print_id faults key draw db ≡ next claimed
      → claimed ≡ record db { idempotency_keys = claimed.idempotency_keys }
  unfolding claim replay
  claim-fields none db claimed e = ground arith
  claim-fields (some key) db claimed e = ground arith

  pub take_stock-fields :
      (db stocked : Db) (price : ℕ)
      → take_stock sha1 print_id faults p db ≡ next (price, stocked)
      → (q : Product) × (product_of p.product_id db.products ≡ some q)
        × (p.quantity ≤ q.stock)
        × (price ≡ q.price)
        × (stocked ≡ record db { products = (update_stock p.quantity p.product_id db.products).1 })
  unfolding take_stock
  take_stock-fields db stocked price e = elim (Option-cases (product_of p.product_id db.products)) [
    | inl gone ↦ absurd (ground (arith, update_stock-rows p.quantity p.product_id db.products))
    | inr (q, found) ↦ (
      q,
      found,
      ground (arith, update_stock-rows p.quantity p.product_id db.products),
      ground (arith, update_stock-rows p.quantity p.product_id db.products),
      ground (arith, update_stock-rows p.quantity p.product_id db.products),
    )
  ]

  pub take_money-fields :
      (total : Amount) (db charged : Db) (email : String)
      → take_money sha1 print_id faults p total db ≡ next (email, charged)
      → (u : User) × (user_of p.buyer_id db.users ≡ some u)
        × (ceil_cents total ≤ u.balance)
        × (charged ≡ record db { users = (update_balance total p.buyer_id db.users).1 })
        × (email ≡ u.email)
  unfolding take_money email_of
  take_money-fields total db charged email e = elim (Option-cases (user_of p.buyer_id db.users)) [
    | inl gone ↦ absurd (ground (arith, update_balance-rows total p.buyer_id db.users))
    | inr (u, found) ↦ (
      u,
      found,
      ground (arith, update_balance-rows total p.buyer_id db.users),
      ground (arith, update_balance-rows total p.buyer_id db.users),
      ground (
        arith,
        update_balance-rows total p.buyer_id db.users,
        update_balance_self total p.buyer_id db.users {v = u},
      ),
    )
  ]
