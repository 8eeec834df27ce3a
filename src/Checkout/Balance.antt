-- ===== src/Checkout/Balance.antt =====
-- A buyer pays exactly for the orders: the balance and the totals of the orders add up.
use node_js_nest_course_proj.Money.{Amount}
use node_js_nest_course_proj.Base.{
  ℕ, ◌+◌, ◌≡◌, refl, ◌∙◌, inl, inr, String, Bool, List, [], ◌∷◌, arith, sum_of, sum_of-append, ◌==◌,
  Bool-cases, if◌then◌else◌,
}
use node_js_nest_course_proj.Shop.{Db, Order}
use node_js_nest_course_proj.Checkout.{CheckoutParams, Draw, Stage, user_of, order_row}
use node_js_nest_course_proj.Checkout.Tables.Updates.{balance_in}
use node_js_nest_course_proj.Checkout.Course.{Writes}
use node_js_nest_course_proj.Checkout.History.{Call, run, run-keeps}

abbrev pub bill : ℕ → Order → ℕ
bill id o = if o.buyer_id == id then o.total_amount else 0

-- The cents that a buyer's orders cost together.
abbrev pub spent : ℕ → Db → ℕ
spent id db = sum_of (bill id) db.orders

abbrev pub balance_of : ℕ → Db → ℕ
balance_of id db = balance_in (user_of id db.users)

module _ (sha1 : String → List ℕ) (print_id : ℕ → String) where
  module _ (faults : Stage → Bool) (p : CheckoutParams) (draw : Draw) where
    Writes-balance :
        (id : ℕ) (total : Amount) (db db' : Db)
        → Writes sha1 print_id faults p draw total db db'
        → balance_of id db' + spent id db' ≡ balance_of id db + spent id db
    Writes-balance id total db db' w = elim (Bool-cases (p.buyer_id == id)) [
      | inl same ↦
          ground
            (arith, w, sum_of-append (bill id) db.orders (order_row p draw w.user.email total ∷ []))
      | inr other ↦ ground (
        arith,
        w.other_balance id,
        w.orders,
        sum_of-append (bill id) db.orders (order_row p draw w.user.email total ∷ []),
      )
    ]

  -- Whatever a history of checkouts does, the balance of every user and the totals of the orders of
  -- that user add up to what they were.
  pub balance_conserved :
      (id : ℕ) (cs : List Call) (db : Db)
      → balance_of id (run sha1 print_id cs db) + spent id (run sha1 print_id cs db)
        ≡ balance_of id db + spent id db
  balance_conserved id cs db =
      run-keeps sha1 print_id (λ d. balance_of id d + spent id d ≡ balance_of id db + spent id db)
        (λ c total d d' h w. Writes-balance c.faults c.params c.draw id total d d' w ∙ h) cs db refl
