-- ===== src/Orders/Owned.antt =====
-- The list of a user's orders and the single order agree.
use node_js_nest_course_proj.Base.{
  ℕ, String, ◌≡◌, refl, sym, ap, subst, ◌∙◌, ◌↔◌, inl, inr, Bool, true, false, Option, none, some,
  List, [], ◌∷◌, arith, eq_iff, str_eq, if◌then◌else◌, Bool-cases, if_elim, keep, find, All,
}
use mathlib.Core.Option.{some-injective}
use node_js_nest_course_proj.Auth.{AuthUser, admin}
use node_js_nest_course_proj.Auth.Guard.{role_eq}
use node_js_nest_course_proj.Orders.{Order, Answer, ok, refused, not_owner}
use node_js_nest_course_proj.Orders.Catalog.{or_not_found}
use node_js_nest_course_proj.Orders.Service.{
  Shopfront, get_by_id, get_owned, check_owned, may_see, visible,
}
use node_js_nest_course_proj.Orders.Access.{Request, serve_all}
use node_js_nest_course_proj.Orders.Unique.{Unique, IsNumbered, serve_all-IsNumbered}

find-keep :
    (p : Order → Bool) (id : String) (orders : List Order) (o : Order)
    → find (λ x. str_eq x.id id) orders ≡ some o
    → p o ≡ true
    → find (λ x. str_eq x.id id) (keep p orders) ≡ some o
find-keep p id [] o h k = absurd (cc)
find-keep p id (x ∷ orders) o h k = elim (Bool-cases (str_eq x.id id)) [
  | inl hit ↦
      let same : x ≡ o = some-injective _ _ (rw hit at h) in
      let kept : p x ≡ true = ap p same ∙ k in rw kept (rw hit (ap some same))
  | inr miss ↦ let ih = find-keep p id orders o (rw miss at h) k in ground (arith, ih, miss)
]

absent :
    (p : Order → Bool) (id : String) (orders : List Order)
    → All (λ x. str_eq x.id id ≡ false) orders
    → find (λ x. str_eq x.id id) (keep p orders) ≡ none
absent p id [] h = refl
absent p id (x ∷ orders) h = ground (arith, h.0, absent p id orders h.1)

find-kept :
    (p : Order → Bool) (id : String) (orders : List Order) (o : Order)
    → Unique orders
    → find (λ x. str_eq x.id id) (keep p orders) ≡ some o
    → (find (λ x. str_eq x.id id) orders ≡ some o) × (p o ≡ true)
find-kept p id [] o u h = absurd (cc)
find-kept p id (x ∷ orders) o u h = elim (Bool-cases (p x)) [
  | inl kept ↦
      let h1 : find (λ y. str_eq y.id id) (x ∷ keep p orders) ≡ some o = rw kept at h in
      elim (Bool-cases (str_eq x.id id)) [
        | inl hit ↦
            let same : x ≡ o = some-injective _ _ (rw hit at h1) in
            (rw hit (ap some same), sym (ap p same) ∙ kept)
        | inr miss ↦ let ih = find-kept p id orders o u.1 (rw miss at h1) in (rw miss ih.0, ih.1)
      ]
  | inr dropped ↦
      let h1 : find (λ y. str_eq y.id id) (keep p orders) ≡ some o = rw dropped at h in
      elim (Bool-cases (str_eq x.id id)) [
        | inl hit ↦
            let others =
              subst (λ i. All (λ y. str_eq y.id i ≡ false) orders) ((eq_iff x.id id).0 hit) u.0 in
            let gone = absent p id orders others in absurd (cc)
        | inr miss ↦ let ih = find-kept p id orders o u.1 h1 in (rw miss ih.0, ih.1)
      ]
]

find-visible :
    (print : ℕ → String) (user : AuthUser) (id : String) (orders : List Order) (o : Order)
    → Unique orders
    → (find (λ x. str_eq x.id id) (visible print user orders) ≡ some o)
      ↔ ((find (λ x. str_eq x.id id) orders ≡ some o) × (may_see print user o.buyer_id ≡ true))
unfolding visible
find-visible print user id orders o u =
    if_elim
      (λ (r : List Order).
        (find (λ x. str_eq x.id id) r ≡ some o)
        ↔ ((find (λ x. str_eq x.id id) orders ≡ some o) × (may_see print user o.buyer_id ≡ true)))
      (role_eq user.role admin) (λ all. (λ h. (h, ground (arith, all)), λ h. h.0))
      (λ own. (
        λ h.
            let k = find-kept (λ x. str_eq x.buyer_id (print user.id)) id orders o u h in
            (k.0, ground (arith, k.1)),
        λ h.
            find-keep (λ x. str_eq x.buyer_id (print user.id)) id orders o h.0
              (ground (arith, h.1, own)),
      ))

check-owned_iff :
    (print : ℕ → String) (user : AuthUser) (o : Order) (found : Option Order)
    → (check_owned print user (or_not_found found) ≡ ok o)
      ↔ ((found ≡ some o) × (may_see print user o.buyer_id ≡ true))
check-owned_iff print user o none = (λ h. absurd (cc), λ h. absurd (cc))
check-owned_iff print user o (some x) = (
  if_elim
      (λ (r : Answer Order). r ≡ ok o → (some x ≡ some o) × (may_see print user o.buyer_id ≡ true))
      (may_see print user x.buyer_id)
      (λ may h.
        let same : x ≡ o = cc in
        (ap some same, sym (ap (λ y. may_see print user y.buyer_id) same) ∙ may))
      (λ may_not h. absurd (cc)),
  λ h.
      let same : x ≡ o = some-injective _ _ h.0 in
      let may : may_see print user x.buyer_id ≡ true =
        ap (λ y. may_see print user y.buyer_id) same ∙ h.1 in
      ap (λ b. if b then ok x else refused not_owner) may ∙ ap ok same,
)

owned-visible :
    (print : ℕ → String) (user : AuthUser) (id : String) (orders : List Order) (o : Order)
    → Unique orders
    → (find (λ x. str_eq x.id id) (visible print user orders) ≡ some o)
      ↔ (get_owned print id user orders ≡ ok o)
unfolding get_owned get_by_id
owned-visible print user id orders o u =
    let a = find-visible print user id orders o u in
    let b = check-owned_iff print user o (find (λ x. str_eq x.id id) orders) in
    (λ h. b.1 (a.0 h), λ h. a.1 (b.0 h))

-- After any requests, a user finds an order among those that are listed for this user exactly when
-- asking for it alone gives it: the two ways to an order check the same. It is assumed that different
-- numbers print differently, and that every identifier at the start was printed from a number below
-- the counter and is unique.
pub listed_iff_owned :
    (print : ℕ → String)
    → ((m n : ℕ) → print m ≡ print n → m ≡ n)
    → (user_of : ℕ → Option AuthUser) (rs : List Request) (s : Shopfront) → IsNumbered print s
    → (user : AuthUser) (id : String) (o : Order)
    → (let orders = (serve_all print user_of rs s).orders in
        (find (λ x. str_eq x.id id) (visible print user orders) ≡ some o)
        ↔ (get_owned print id user orders ≡ ok o))
listed_iff_owned print print-injective user_of rs s h user id o =
    owned-visible print user id (serve_all print user_of rs s).orders o
      (serve_all-IsNumbered print print-injective user_of rs s h).1
