-- ===== src/Checkout/Exits.antt =====
-- How a checkout ends: it commits all its writes, or it leaves the tables as they were.
use node_js_nest_course_proj.Money.{Amount, exact, multiply}
use node_js_nest_course_proj.Base.{
  ℕ, String, ◌≡◌, refl, sym, subst, inl, inr, Bool, true, false, Option, none, some, List, arith,
  Option-cases,
}
use node_js_nest_course_proj.Shop.{Db, Order}
use node_js_nest_course_proj.Checkout.{
  find_keyed, CheckoutParams, CheckoutResult, success, failure, Draw, Stage, Exit, next,
  rolled_back, raised, ◌>>=◌, Outcome, returned, thrown, claim, replay, take_stock, take_money,
  place, body, finish, checkout,
}
use node_js_nest_course_proj.Checkout.Fields.{body-Course}
use node_js_nest_course_proj.Checkout.Course.{Writes, Course-Writes}

-- A bind that returns early does so in its first part or in its second.
bind-rolled_back {ℓ} :
    {A B : Type 0} {P : Type ℓ} (m : Exit A) (k : A → Exit B) {r : CheckoutResult}
    → (m >>= k) ≡ rolled_back r
    → (m ≡ rolled_back r → P)
    → ((a : A) → m ≡ next a → k a ≡ rolled_back r → P)
    → P
bind-rolled_back (next a) k e f g = g a refl e
bind-rolled_back (rolled_back r) k e f g = f (cc)
bind-rolled_back (raised x) k e f g = absurd (cc)

module _ (sha1 : String → List ℕ) (print_id : ℕ → String) (faults : Stage → Bool)
    (p : CheckoutParams) (draw : Draw) where
  -- The order of a key that was taken before.
  abbrev pub Replays : Db → ℕ → Amount → Type 0
  Replays db id total =
      (key : String) × (o : Order) × (p.idempotency_key ≡ some key)
      × (find_keyed key db.idempotency_keys db.orders ≡ some o)
      × (o.id ≡ id)
      × (exact o.total_amount ≡ total)

  -- What the caller may conclude from the outcome.
  abbrev pub Effects : Db → Outcome × Db → Type 0
  Effects db (returned (success id total false), db') =
      (id ≡ draw.order_id) × Writes sha1 print_id faults p draw total db db'
  Effects db (returned (success id total true), db') = (db' ≡ db) × Replays db id total
  Effects db (returned (failure reason), db') = db' ≡ db
  Effects db (thrown error, db') = db' ≡ db

  -- A result that the body returns before its end is a failure or a replay.
  abbrev Early : Db → CheckoutResult → Type 0
  Early db (success id total false) = ⊥
  Early db (success id total true) = Replays db id total
  Early db (failure reason) = Unit

  claim-Early :
      (k : Option String) (db : Db) (r : CheckoutResult)
      → p.idempotency_key ≡ k
      → claim sha1 print_id faults k draw db ≡ rolled_back r
      → Early db r
  unfolding claim replay
  claim-Early none db r same e = absurd (cc)
  claim-Early (some key) db r same e =
      elim (Option-cases (find_keyed key db.idempotency_keys db.orders)) [
        | inl missing ↦ absurd (ground arith)
        | inr (o, found) ↦
            let ended : r ≡ success o.id (exact o.total_amount) true = ground arith in
            rw ended (key, o, same, found, refl, refl)
      ]

  take_stock-Early :
      (db claimed : Db) (r : CheckoutResult)
      → take_stock sha1 print_id faults p claimed ≡ rolled_back r
      → Early db r
  unfolding take_stock
  take_stock-Early db claimed (success id total false) e = ground arith
  take_stock-Early db claimed (success id total true) e = absurd (ground arith)
  take_stock-Early db claimed (failure reason) e = tt

  take_money-Early :
      (db stocked : Db) (total : Amount) (r : CheckoutResult)
      → take_money sha1 print_id faults p total stocked ≡ rolled_back r
      → Early db r
  unfolding take_money
  take_money-Early db stocked total (success id t false) e = ground arith
  take_money-Early db stocked total (success id t true) e = absurd (ground arith)
  take_money-Early db stocked total (failure reason) e = tt

  place-ne-rolled_back :
      (email : String) (price : ℕ) (total : Amount) (db : Db) (r : CheckoutResult)
      → place sha1 print_id faults p draw email price total db ≡ rolled_back r
      → ⊥
  unfolding place
  place-ne-rolled_back email price total db r e = elim (Option-cases p.idempotency_key) [
    | inl keyless ↦ ground arith
    | inr (key, keyed) ↦ ground arith
  ]

  body-Early :
      (db : Db) (r : CheckoutResult)
      → body sha1 print_id faults p draw db ≡ rolled_back r
      → Early db r
  unfolding body
  body-Early db r e =
      bind-rolled_back (claim sha1 print_id faults p.idempotency_key draw db) _ e
        (claim-Early p.idempotency_key db r refl)
        λ claimed _ k₁.
          bind-rolled_back (take_stock sha1 print_id faults p claimed) _ k₁
            (take_stock-Early db claimed r)
            λ s _ k₂.
              bind-rolled_back
                (take_money sha1 print_id faults p (multiply draw.slip s.0 p.quantity) s.1) _ k₂
                (take_money-Early db s.1 (multiply draw.slip s.0 p.quantity) r)
                λ m _ k₃.
                  bind-rolled_back
                    (place sha1 print_id faults p draw m.0 s.0 (multiply draw.slip s.0 p.quantity)
                      m.1)
                    _ k₃
                    (λ e₄.
                      absurd
                        (place-ne-rolled_back m.0 s.0 (multiply draw.slip s.0 p.quantity) m.1 r e₄))
                    λ placed _ k₄. absurd (cc)

  finish-Effects :
      (db : Db) (x : Exit (CheckoutResult × Db))
      → body sha1 print_id faults p draw db ≡ x
      → Effects db (finish db x)
  finish-Effects db (next (r, db')) e =
      let c = body-Course sha1 print_id faults p draw db r db' e in
      rw c.result (refl, Course-Writes sha1 print_id faults p draw db r db' c)
  finish-Effects db (rolled_back r) e = early r (body-Early db r e)
    where
      early : (r : CheckoutResult) → Early db r → Effects db (returned r, db)
      early (success id total false) h = absurd h
      early (success id total true) h = (refl, h)
      early (failure reason) h = refl
  finish-Effects db (raised x) e = refl

  -- A checkout is atomic, whichever statement fails. A new success has written the order, its item,
  -- its job, its event, the stock and the balance, all of them and no other product or user; a
  -- replay returns the order of the key, and it, a failure and an exception change nothing.
  pub checkout-Effects : (db : Db) → Effects db (checkout sha1 print_id faults p draw db)
  unfolding checkout
  checkout-Effects db = finish-Effects db (body sha1 print_id faults p draw db) refl

  -- To prove a statement about the tables after a checkout: it held before, or all was written.
  pub checkout-cases {ℓ} :
      (P : Db → Type ℓ) (db : Db)
      → P db
      → ((total : Amount) (db' : Db) → Writes sha1 print_id faults p draw total db db' → P db')
      → P (checkout sha1 print_id faults p draw db).1
  checkout-cases P db same written =
      go (checkout sha1 print_id faults p draw db) (checkout-Effects db)
    where
      go : (x : Outcome × Db) → Effects db x → P x.1
      go (returned (success id total false), db') h = written total db' h.1
      go (returned (success id total true), db') h = subst P (sym h.0) same
      go (returned (failure reason), db') h = subst P (sym h) same
      go (thrown error, db') h = subst P (sym h) same

  pub success-Writes :
      (db : Db) (id : ℕ) (total : Amount)
      → (checkout sha1 print_id faults p draw db).0 ≡ returned (success id total false)
      → (id ≡ draw.order_id)
        × Writes sha1 print_id faults p draw total db (checkout sha1 print_id faults p draw db).1
  success-Writes db id total e =
      subst (λ o. Effects db (o, (checkout sha1 print_id faults p draw db).1)) e
        (checkout-Effects db)
