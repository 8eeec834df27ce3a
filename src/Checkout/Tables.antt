-- ===== src/Checkout/Tables.antt =====
-- The SQL statements of the checkout, and what TypeORM wraps round their rows.
pub mod Updates
use node_js_nest_course_proj.Money.{Amount, ceil_cents}
use node_js_nest_course_proj.Base.{
  ℕ, ◌-◌, String, Option, none, some, List, [], ◌∷◌, ◌++◌, leb, ◌==◌, str_eq, any, find,
  if◌then◌else◌,
}
use node_js_nest_course_proj.Shop.{Product, User, Order, KeyRow}

-- For UPDATE … RETURNING the query gives the rows with their count, else the rows alone.
pub data QueryResult {ℓ} (A : Type ℓ) : Type ℓ where
  tuple : List A → ℕ → QueryResult A
  rows : List A → QueryResult A

abbrev pub unwrap_returning {ℓ} : {A : Type ℓ} → QueryResult A → List A
unwrap_returning (tuple rs _) = rs
unwrap_returning (rows rs) = rs

abbrev pub product_of : ℕ → List Product → Option Product
product_of id = find (λ p. p.id == id)

abbrev pub user_of : ℕ → List User → Option User
user_of id = find (λ u. u.id == id)

-- UPDATE products SET stock = stock - $1 WHERE id = $2 AND stock >= $1 RETURNING price
unfoldable pub update_stock : ℕ → ℕ → List Product → QueryResult ℕ × List Product
update_stock n id [] = (tuple [] 0, [])
update_stock n id (p ∷ ps) =
    let (result, ps') = update_stock n id ps in
    if p.id == id
    then (if leb n p.stock
        then (tuple (p.price ∷ []) 1, record p { stock = p.stock - n } ∷ ps)
        else (tuple [] 0, p ∷ ps))
    else (result, p ∷ ps')

-- UPDATE users SET balance = balance - $1 WHERE id = $2 AND balance >= $1 RETURNING balance
unfoldable pub update_balance : Amount → ℕ → List User → QueryResult ℕ × List User
update_balance n id [] = (tuple [] 0, [])
update_balance n id (u ∷ us) =
    let (result, us') = update_balance n id us in
    if u.id == id
    then (if leb (ceil_cents n) u.balance
        then (tuple ((u.balance - n.cents) ∷ []) 1, record u { balance = u.balance - n.cents } ∷ us)
        else (tuple [] 0, u ∷ us))
    else (result, u ∷ us')

abbrev email_or_empty : Option User → String
email_or_empty none = ""
email_or_empty (some u) = u.email

-- SELECT email FROM users WHERE id = $1
unfoldable pub email_of : ℕ → List User → String
email_of id us = email_or_empty (user_of id us)

-- INSERT … ON CONFLICT (key) DO NOTHING RETURNING key: `none` when no row comes back
unfoldable pub insert_key : String → ℕ → List KeyRow → Option (List KeyRow)
insert_key key now ks =
    if any (λ k. str_eq k.key key) ks
    then none
    else some (ks ++ record { key = key; order_id = none; created_at = now } ∷ [])

-- the order that a key row refers to
abbrev pub joined : Option KeyRow → List Order → Option Order
joined none os = none
joined (some k) os = elim k.order_id [ none ↦ none | some id ↦ find (λ o. o.id == id) os ]

-- SELECT … FROM idempotency_keys k JOIN orders o ON o.id = k.order_id WHERE k.key = $1
unfoldable pub find_keyed : String → List KeyRow → List Order → Option Order
find_keyed key ks os = joined (find (λ k. str_eq k.key key) ks) os

-- UPDATE idempotency_keys SET order_id = $1 WHERE key = $2
unfoldable pub set_order : String → ℕ → List KeyRow → List KeyRow
set_order key id [] = []
set_order key id (k ∷ ks) =
    (if str_eq k.key key then record k { order_id = some id } else k) ∷ set_order key id ks
