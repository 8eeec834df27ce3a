-- ===== src/Checkout/Tables/Updates.antt =====
-- The two guarded UPDATEs: which row they change, what they return, and what they leave alone.
use node_js_nest_course_proj.Money.{Amount, ceil_cents}
use node_js_nest_course_proj.Base.{
  ℕ, ◌-◌, ◌≤◌, ◌≡◌, ◌≢◌, refl, Option, none, some, String, false, List, [], ◌∷◌, ◌++◌, arith, leb,
  any, str_eq, str_eq_self, if◌then◌else◌,
}
use node_js_nest_course_proj.Shop.{Product, User, KeyRow}
use node_js_nest_course_proj.Checkout.Tables.{
  unwrap_returning, product_of, user_of, update_stock, update_balance, set_order,
}

abbrev pub stock_in : Option Product → ℕ
stock_in none = 0
stock_in (some p) = p.stock

abbrev pub balance_in : Option User → ℕ
balance_in none = 0
balance_in (some u) = u.balance

abbrev pub priced : ℕ → Option Product → List ℕ
priced n none = []
priced n (some p) = if leb n p.stock then p.price ∷ [] else []

abbrev pub charged : Amount → Option User → List ℕ
charged n none = []
charged n (some u) = if leb (ceil_cents n) u.balance then (u.balance - n.cents) ∷ [] else []

pub update_stock-rows :
    (n id : ℕ) (ps : List Product)
    → unwrap_returning (update_stock n id ps).0 ≡ priced n (product_of id ps)
unfolding update_stock
update_stock-rows n id [] = refl
update_stock-rows n id (p ∷ ps) = ground (arith, update_stock-rows n id ps)

pub update_balance-rows :
    (n : Amount) (id : ℕ) (us : List User)
    → unwrap_returning (update_balance n id us).0 ≡ charged n (user_of id us)
unfolding update_balance
update_balance-rows n id [] = refl
update_balance-rows n id (u ∷ us) = ground (arith, update_balance-rows n id us)

-- A stock that covers the quantity falls by exactly that quantity.
pub update_stock_self :
    (n id : ℕ) (ps : List Product) {q : Product}
    → product_of id ps ≡ some q
    → n ≤ q.stock
    → product_of id (update_stock n id ps).1 ≡ some (record q { stock = q.stock - n })
unfolding update_stock
update_stock_self n id [] e h = absurd (cc)
update_stock_self n id (p ∷ ps) {q} e h = ground (arith, update_stock_self n id ps {q = q})

pub update_stock-other :
    (n id j : ℕ) (ps : List Product)
    → j ≢ id
    → product_of j (update_stock n id ps).1 ≡ product_of j ps
unfolding update_stock
update_stock-other n id j [] h = refl
update_stock-other n id j (p ∷ ps) h = ground (arith, update_stock-other n id j ps)

pub update_balance_self :
    (n : Amount) (id : ℕ) (us : List User) {v : User}
    → user_of id us ≡ some v
    → ceil_cents n ≤ v.balance
    → user_of id (update_balance n id us).1 ≡ some (record v { balance = v.balance - n.cents })
unfolding update_balance
update_balance_self n id [] e h = absurd (cc)
update_balance_self n id (u ∷ us) {v} e h = ground (arith, update_balance_self n id us {v = v})

pub update_balance-other :
    (n : Amount) (id j : ℕ) (us : List User)
    → j ≢ id
    → user_of j (update_balance n id us).1 ≡ user_of j us
unfolding update_balance
update_balance-other n id j [] h = refl
update_balance-other n id j (u ∷ us) h = ground (arith, update_balance-other n id j us)

-- A key that is not yet bound to an order is found in no row.
pub insert_key-set_order :
    (key : String) (now id : ℕ) (ks : List KeyRow)
    → any (λ k. str_eq k.key key) ks ≡ false
    → set_order key id (ks ++ record { key = key; order_id = none; created_at = now } ∷ [])
      ≡ ks ++ record { key = key; order_id = some id; created_at = now } ∷ []
unfolding set_order
insert_key-set_order key now id [] h = ground (arith, str_eq_self key)
insert_key-set_order key now id (k ∷ ks) h = ground (arith, insert_key-set_order key now id ks)
