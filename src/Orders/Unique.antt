-- ===== src/Orders/Unique.antt =====
-- Identifiers of orders are unique, since every one is printed from a number of its own.
use node_js_nest_course_proj.Base.{
  ℕ, ◌<◌, String, ◌≡◌, refl, ◌∙◌, inl, inr, false, Option, none, some, List, [], ◌∷◌, ◌++◌, arith,
  eq_iff, str_eq, Bool-cases, if_elim, find, All, All-append, All-imp,
}
use Prim.Native.String
use text.Mathlib.TextLemmas.{append_cancel_left}
use node_js_nest_course_proj.Auth.{AuthUser}
use node_js_nest_course_proj.Orders.{Order, OrderStatus}
use node_js_nest_course_proj.Orders.Catalog.{or_not_found}
use node_js_nest_course_proj.Orders.Service.{
  Shopfront, get_by_id, create, update_status, update_found, put_status,
}
use node_js_nest_course_proj.Orders.Clients.{
  JoinResult, join, join_found, join_room, is_allowed, create_order,
}
use node_js_nest_course_proj.Orders.Access.{Request, joining, ordering, changing, serve, serve_all}

abbrev pub Unique : List Order → Type 0
Unique [] = Unit
Unique (o ∷ orders) = All (λ x. str_eq x.id o.id ≡ false) orders × Unique orders

-- Every identifier was printed from a number that was used up.
abbrev pub IsNumbered : (ℕ → String) → Shopfront → Type 0
IsNumbered print s =
    All (λ o. (n : ℕ) × (o.id ≡ String.◌++◌ "o" (print n)) × (n < s.next_id)) s.orders
    × Unique s.orders

All-put :
    (P : String → Type 0) (id : String) (status : OrderStatus) (orders : List Order)
    → All (λ o. P o.id) orders
    → All (λ o. P o.id) (put_status id status orders)
unfolding put_status
All-put P id status [] h = tt
All-put P id status (o ∷ orders) h =
    if_elim (λ (r : List Order). All (λ x. P x.id) r) (str_eq o.id id) (λ hit. h)
      (λ miss. (h.0, All-put P id status orders h.1))

Unique-put :
    (id : String) (status : OrderStatus) (orders : List Order)
    → Unique orders
    → Unique (put_status id status orders)
unfolding put_status
Unique-put id status [] h = tt
Unique-put id status (o ∷ orders) h =
    if_elim (λ (r : List Order). Unique r) (str_eq o.id id) (λ hit. h)
      (λ miss. (
        All-put (λ i. str_eq i o.id ≡ false) id status orders h.0,
        Unique-put id status orders h.1,
      ))

Unique-append :
    (orders : List Order) (o : Order)
    → Unique orders
    → All (λ x. str_eq o.id x.id ≡ false) orders
    → Unique (orders ++ (o ∷ []))
Unique-append [] o h k = (tt, tt)
Unique-append (x ∷ orders) o h k =
    (All-append _ orders (o ∷ []) h.0 (k.0, tt), Unique-append orders o h.1 k.1)

module _ (print : ℕ → String) (print-injective : (m n : ℕ) → print m ≡ print n → m ≡ n)
    (user_of : ℕ → Option AuthUser) where
  fresh :
      (n m : ℕ) (id : String)
      → id ≡ String.◌++◌ "o" (print m)
      → m < n
      → str_eq (String.◌++◌ "o" (print n)) id ≡ false
  fresh n m id e l = elim (Bool-cases (str_eq (String.◌++◌ "o" (print n)) id)) [
    | inl hit ↦ absurd (
        omega (
          arith,
          l,
          print-injective n m (
              append_cancel_left "o" (print n) (print m)
                ((eq_iff (String.◌++◌ "o" (print n)) id).0 hit ∙ e)),
        ))
    | inr miss ↦ miss
  ]

  change-IsNumbered :
      (id : String) (status : OrderStatus) (now : ℕ) (s : Shopfront) (found : Option Order)
      → IsNumbered print s
      → IsNumbered print (update_found status now s (or_not_found found)).1
  change-IsNumbered id status now s none h = h
  change-IsNumbered id status now s (some o) h = (
    All-put (λ i. (n : ℕ) × (i ≡ String.◌++◌ "o" (print n)) × (n < s.next_id)) o.id status s.orders
        h.0,
    Unique-put o.id status s.orders h.1,
  )

  join-IsNumbered :
      (socket : ℕ) (id : String) (s : Shopfront) (found : Option Order)
      → IsNumbered print s
      → IsNumbered print (join_found print socket (user_of socket) id s (or_not_found found)).1
  unfolding join_room
  join-IsNumbered socket id s none h = h
  join-IsNumbered socket id s (some o) h =
      if_elim (λ (r : JoinResult × Shopfront). IsNumbered print r.1)
        (is_allowed print (user_of socket) o.buyer_id) (λ may. h) (λ may_not. h)

  serve-IsNumbered :
      (r : Request) (s : Shopfront)
      → IsNumbered print s
      → IsNumbered print (serve print user_of r s)
  unfolding serve join create_order create update_status get_by_id
  serve-IsNumbered (joining socket id) s h =
      join-IsNumbered socket id s (find (λ x. str_eq x.id id) s.orders) h
  serve-IsNumbered (ordering items user now) s h = (
    All-append _ s.orders _ (All-imp (λ o k. (k.0, k.1, omega (arith, k.2))) s.orders h.0)
        ((s.next_id, refl, omega arith), tt),
    Unique-append s.orders _ h.1 (All-imp (λ o k. fresh s.next_id k.0 o.id k.1 k.2) s.orders h.0),
  )
  serve-IsNumbered (changing id status now) s h =
      change-IsNumbered id status now s (find (λ x. str_eq x.id id) s.orders) h

  -- Through any requests the identifiers of the orders stay unique, if different numbers print
  -- differently and every identifier so far was printed from a number below the counter.
  pub serve_all-IsNumbered :
      (rs : List Request) (s : Shopfront)
      → IsNumbered print s
      → IsNumbered print (serve_all print user_of rs s)
  unfolding serve_all
  serve_all-IsNumbered [] s h = h
  serve_all-IsNumbered (r ∷ rs) s h =
      serve_all-IsNumbered rs (serve print user_of r s) (serve-IsNumbered r s h)
