-- ===== src/Orders/Access.antt =====
-- Who hears of an order: its owner and the admins.
use node_js_nest_course_proj.Base.{
  ℕ, String, ◌≡◌, refl, sym, ap, subst, ◌∙◌, inl, inr, true, Option, none, some, List, [], ◌∷◌,
  ◌++◌, arith, eq_iff, str_eq, if◌then◌else◌, Bool-cases, if_elim, find, All, All-append, All-imp,
}
use mathlib.Core.Option.{some-injective}
use text.Mathlib.TextLemmas.{append_cancel_left}
use node_js_nest_course_proj.Auth.{AuthUser}
use node_js_nest_course_proj.Orders.{Order, OrderItem, OrderStatus, OrderStatusEvent}
use node_js_nest_course_proj.Orders.Catalog.{or_not_found}
use node_js_nest_course_proj.Orders.StatusBus.{room_for_order, emit_status_change, next, broadcast}
use node_js_nest_course_proj.Orders.Service.{
  Shopfront, get_by_id, create, update_status, update_found, put_status,
}
use node_js_nest_course_proj.Orders.Clients.{
  JoinResult, join, join_found, join_room, is_allowed, create_order,
}

-- What clients do: a socket joins with the user of its token, a user creates an order, or one changes
-- a status.
pub data Request : Type 0 where
  joining : ℕ → String → Request
  ordering : List OrderItem → AuthUser → ℕ → Request
  changing : String → OrderStatus → ℕ → Request

-- The buyer of the first order of an id.
abbrev pub owner_of : String → List Order → Option String
owner_of id [] = none
owner_of id (o ∷ orders) = if str_eq o.id id then some o.buyer_id else owner_of id orders

owner-append :
    (id : String) (orders more : List Order) (owner : String)
    → owner_of id orders ≡ some owner
    → owner_of id (orders ++ more) ≡ some owner
owner-append id [] more owner h = absurd (cc)
owner-append id (o ∷ orders) more owner h = ground (arith, owner-append id orders more owner)

owner-put :
    (id changed : String) (status : OrderStatus) (orders : List Order)
    → owner_of id (put_status changed status orders) ≡ owner_of id orders
unfolding put_status
owner-put id changed status [] = refl
owner-put id changed status (o ∷ orders) = ground (arith, owner-put id changed status orders)

owner-find :
    (id : String) (orders : List Order) (o : Order)
    → find (λ x. str_eq x.id id) orders ≡ some o
    → owner_of id orders ≡ some o.buyer_id
owner-find id [] o h = absurd (cc)
owner-find id (x ∷ orders) o h = elim (Bool-cases (str_eq x.id id)) [
  | inl hit ↦ rw hit (ap (λ y. some y.buyer_id) (some-injective _ _ (rw hit at h)))
  | inr miss ↦ rw miss (owner-find id orders o (rw miss at h))
]

module _ (print : ℕ → String) (user_of : ℕ → Option AuthUser) where
  unfoldable pub serve : Request → Shopfront → Shopfront
  unfolding join create_order update_status
  serve (joining socket id) s = (join print socket (user_of socket) id s).1
  serve (ordering items user now) s = (create_order print items user now s).1
  serve (changing id status now) s = (update_status id status now s).1

  unfoldable pub serve_all : List Request → Shopfront → Shopfront
  unfolding serve
  serve_all [] s = s
  serve_all (r ∷ rs) s = serve_all rs (serve r s)

  -- The socket's user may see the order of this id.
  abbrev pub Hears : List Order → ℕ → String → Type 0
  Hears orders socket id =
      (owner : String) × (owner_of id orders ≡ some owner)
      × (is_allowed print (user_of socket) owner ≡ true)

  abbrev pub IsPrivate : Shopfront → Type 0
  IsPrivate s =
      All (λ m. (id : String) × (m.1 ≡ room_for_order id) × Hears s.orders m.0 id) s.bus.members
      × All (λ d. Hears s.orders d.0 (d.1).order_id) s.bus.sent

  Hears-append :
      (orders more : List Order) (socket : ℕ) (id : String)
      → Hears orders socket id
      → Hears (orders ++ more) socket id
  Hears-append orders more socket id (owner, e, h) = (owner, owner-append id orders more owner e, h)

  Hears-put :
      (orders : List Order) (changed : String) (status : OrderStatus) (socket : ℕ) (id : String)
      → Hears orders socket id
      → Hears (put_status changed status orders) socket id
  Hears-put orders changed status socket id (owner, e, h) =
      (owner, owner-put id changed status orders ∙ e, h)

  -- Of a broadcast to the room of an id, every message goes to one who hears of that id.
  broadcast-Hears :
      (orders : List Order) (id : String) (event : OrderStatusEvent) (members : List (ℕ × String))
      → event.order_id ≡ id
      → All (λ m. (id : String) × (m.1 ≡ room_for_order id) × Hears orders m.0 id) members
      → All (λ d. Hears orders d.0 (d.1).order_id) (broadcast (room_for_order id) event members)
  unfolding broadcast
  broadcast-Hears orders id event [] same h = tt
  broadcast-Hears orders id event (m ∷ members) same ((mine, r, k), h) =
      let ih = broadcast-Hears orders id event members same h in
      if_elim (λ (ds : List (ℕ × OrderStatusEvent)). All (λ d. Hears orders d.0 (d.1).order_id) ds)
        (str_eq m.1 (room_for_order id))
        (λ hit. (
          subst (Hears orders m.0)
              (append_cancel_left "orders:" mine id (sym r ∙ (eq_iff m.1 (room_for_order id)).0 hit)
                ∙ sym same)
              k,
          ih,
        ))
        (λ miss. ih)

  join-IsPrivate :
      (socket : ℕ) (id : String) (s : Shopfront) (found : Option Order)
      → find (λ x. str_eq x.id id) s.orders ≡ found
      → IsPrivate s
      → IsPrivate (join_found print socket (user_of socket) id s (or_not_found found)).1
  unfolding join_room
  join-IsPrivate socket id s none e h = h
  join-IsPrivate socket id s (some o) e h =
      if_elim (λ (r : JoinResult × Shopfront). IsPrivate r.1)
        (is_allowed print (user_of socket) o.buyer_id)
        (λ may. (((id, refl, (o.buyer_id, owner-find id s.orders o e, may)), h.0), h.1))
        (λ may_not. h)

  change-IsPrivate :
      (id : String) (status : OrderStatus) (now : ℕ) (s : Shopfront) (found : Option Order)
      → IsPrivate s
      → IsPrivate (update_found status now s (or_not_found found)).1
  unfolding emit_status_change next
  change-IsPrivate id status now s none h = h
  change-IsPrivate id status now s (some o) h =
      let orders = put_status o.id status s.orders in
      let members =
        All-imp (λ m k. (k.0, k.1, Hears-put s.orders o.id status m.0 k.0 k.2)) s.bus.members h.0 in
      let event = (emit_status_change o.id status now s.bus).0 in
      (
        members,
        All-append _ s.bus.sent (broadcast (room_for_order o.id) event s.bus.members)
            (All-imp (λ d k. Hears-put s.orders o.id status d.0 (d.1).order_id k) s.bus.sent h.1)
            (broadcast-Hears orders o.id event s.bus.members refl members),
      )

  serve-IsPrivate : (r : Request) (s : Shopfront) → IsPrivate s → IsPrivate (serve r s)
  unfolding serve join create_order create update_status get_by_id
  serve-IsPrivate (joining socket id) s h =
      join-IsPrivate socket id s (find (λ x. str_eq x.id id) s.orders) refl h
  serve-IsPrivate (ordering items user now) s h = (
    All-imp (λ m k. (k.0, k.1, Hears-append s.orders _ m.0 k.0 k.2)) s.bus.members h.0,
    All-imp (λ d k. Hears-append s.orders _ d.0 (d.1).order_id k) s.bus.sent h.1,
  )
  serve-IsPrivate (changing id status now) s h =
      change-IsPrivate id status now s (find (λ x. str_eq x.id id) s.orders) h

  -- Whatever sockets join, whatever orders are created and whatever statuses change: a socket is in
  -- the room of an order, and was sent an event of it, only if its user owns this order or is an
  -- admin, if that held before. A socket without a user hears nothing.
  pub serve_all-IsPrivate :
      (rs : List Request) (s : Shopfront) → IsPrivate s → IsPrivate (serve_all rs s)
  unfolding serve_all
  serve_all-IsPrivate [] s h = h
  serve_all-IsPrivate (r ∷ rs) s h = serve_all-IsPrivate rs (serve r s) (serve-IsPrivate r s h)
