-- ===== src/Orders.antt =====
-- The HTTP side's orders in memory (src/orders): the orders, their events, and the clients that follow
-- them. What a number or a date prints is a parameter. A map is a list of its entries.
pub mod Catalog
pub mod StatusBus
pub mod Service
pub mod Clients
pub mod Feed
pub mod Resume
pub mod Access
pub mod Unique
pub mod Owned
mod Tests
use node_js_nest_course_proj.Base.{
  ℕ, zero, suc, ◌+◌, ◌-◌, ◌*◌, ◌/◌, ◌%◌, ◌^◌, ◌≤◌, ◌<◌, min, max, String, ◌≡◌, refl, sym, ap, subst,
  ◌∙◌, fun_ext, ◌≢◌, ◌↔◌, ◌⊎◌, inl, inr, Bool, true, false, not, ◌&&◌, ◌||◌, Option, none, some,
  List, [], ◌∷◌, ◌++◌, map, append-nil, append_assoc, map-append, arith, eq_iff, ltb, leb, ◌==◌,
  str_eq, if◌then◌else◌, ==_iff, str_eq_self, Bool-cases, if_elim, Option-cases, is_some, get_or,
  length, take, drop, head?, keep, find, sum_of, count, any, length-append, sum_of-append,
  find-append, any-find, find-none_of_any, any-append, length-take, length-take_eq, length-drop,
  take-append-drop, All, All-append, All-imp, find-All, any-All, All-keep, All-and, All-take,
  Distinct, length-map, get, set, get-set_same, get-set_other, take-all, drop-nil, drop-drop,
  drop-append, drop-all, keep-append,
}

pub record OrderItem : Type 0 where
  pub product_id : String
  pub quantity : ℕ

pub data OrderStatus : Type 0 where
  new packed shipped delivered cancelled : OrderStatus

pub record Order : Type 0 where
  pub id : String
  pub buyer_id : String
  pub items : List OrderItem
  pub total_cents : ℕ
  pub status : OrderStatus
  pub created_at : ℕ

pub record OrderStatusEvent : Type 0 where
  pub id : ℕ
  pub order_id : String
  pub status : OrderStatus
  pub ts : ℕ

-- What an operation throws.
pub data Refusal : Type 0 where
  not_found not_owner bad_cursor : Refusal

pub data Answer (A : Type 0) : Type 0 where
  ok : A → Answer A
  refused : Refusal → Answer A
