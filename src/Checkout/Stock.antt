-- ===== src/Checkout/Stock.antt =====
-- No unit of a product is sold twice: what is in stock and what is in orders add up.
use node_js_nest_course_proj.Money.{Amount}
use node_js_nest_course_proj.Base.{
  ℕ, ◌+◌, ◌≡◌, refl, ◌∙◌, inl, inr, String, Bool, List, [], ◌∷◌, arith, sum_of, sum_of-append, ◌==◌,
  Bool-cases, if◌then◌else◌,
}
use node_js_nest_course_proj.Shop.{Db, OrderItem}
use node_js_nest_course_proj.Checkout.{CheckoutParams, Draw, Stage, product_of, item_row}
use node_js_nest_course_proj.Checkout.Tables.Updates.{stock_in}
use node_js_nest_course_proj.Checkout.Course.{Writes}
use node_js_nest_course_proj.Checkout.History.{Call, run, run-keeps}

abbrev pub units : ℕ → OrderItem → ℕ
units id i = if i.product_id == id then i.quantity else 0

-- How many units of a product stand in the orders.
abbrev pub sold : ℕ → Db → ℕ
sold id db = sum_of (units id) db.order_items

abbrev pub in_stock : ℕ → Db → ℕ
in_stock id db = stock_in (product_of id db.products)

module _ (sha1 : String → List ℕ) (print_id : ℕ → String) where
  module _ (faults : Stage → Bool) (p : CheckoutParams) (draw : Draw) where
    Writes-stock :
        (id : ℕ) (total : Amount) (db db' : Db)
        → Writes sha1 print_id faults p draw total db db'
        → in_stock id db' + sold id db' ≡ in_stock id db + sold id db
    Writes-stock id total db db' w = elim (Bool-cases (p.product_id == id)) [
      | inl same ↦
          ground (
            arith,
            w,
            sum_of-append (units id) db.order_items (item_row p draw w.product.price ∷ []),
          )
      | inr other ↦ ground (
        arith,
        w.other_stock id,
        w.order_items,
        sum_of-append (units id) db.order_items (item_row p draw w.product.price ∷ []),
      )
    ]

  -- Whatever a history of checkouts does, the units in stock and the units sold add up to what they
  -- were, for every product.
  pub stock_conserved :
      (id : ℕ) (cs : List Call) (db : Db)
      → in_stock id (run sha1 print_id cs db) + sold id (run sha1 print_id cs db)
        ≡ in_stock id db + sold id db
  stock_conserved id cs db =
      run-keeps sha1 print_id (λ d. in_stock id d + sold id d ≡ in_stock id db + sold id db)
        (λ c total d d' h w. Writes-stock c.faults c.params c.draw id total d d' w ∙ h) cs db refl
