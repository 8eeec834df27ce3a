-- ===== src/Checkout/Keys.antt =====
-- Idempotency keys: a key stands for one order for ever, and a repeated request returns that order.
use node_js_nest_course_proj.Money.{Amount, exact}
use node_js_nest_course_proj.Base.{
  ◌++◌, append-nil, ◌≡◌, refl, ℕ, find, any, All, All-imp, All-append, find-append, Bool-cases,
  arith, Option, some, none, String, Bool, true, false, List, str_eq, ◌≡◌, ◌==◌, Option-cases, [],
  inl, inr, subst, ◌∷◌, str_eq_self, find-none_of_any, any-find, find-All, ◌∙◌,
}
use node_js_nest_course_proj.Shop.{Db, KeyRow, Order}
use node_js_nest_course_proj.Checkout.{
  CheckoutParams, find_keyed, Stage, Draw, order_row, claim, replay, insert_key, checkout, claiming,
  looking_up, returned, success, rolled_back, body, joined,
}
use node_js_nest_course_proj.Checkout.Course.{Writes, Binds, bound_row}
use node_js_nest_course_proj.Checkout.Exits.{success-Writes}
use node_js_nest_course_proj.Checkout.History.{Call, run, run-keeps, after}

-- Every key in the tables is bound to an order that exists.
abbrev pub IsBound : List Order → KeyRow → Type 0
IsBound os k =
    (id : ℕ) × (o : Order) × (k.order_id ≡ some id) × (find (λ x. x.id == id) os ≡ some o)

abbrev pub IsKeyed : Db → Type 0
IsKeyed db = All (IsBound db.orders) db.idempotency_keys

-- The order that the key stands for.
abbrev pub order_of_key : String → Db → Option Order
order_of_key key db = find_keyed key db.idempotency_keys db.orders

find-some-append :
    {A : Type 0} (t : A → Bool) (xs ys : List A) {a : A}
    → find t xs ≡ some a
    → find t (xs ++ ys) ≡ some a
find-some-append t xs ys e = rw (find-append t xs ys, e)

IsBound-append : (os more : List Order) (k : KeyRow) → IsBound os k → IsBound (os ++ more) k
IsBound-append os more k (id, o, same, found) =
    (id, o, same, find-some-append (λ x. x.id == id) os more found)

-- An order whose row is inserted is found by its id.
find-inserted :
    (os : List Order) (row : Order)
    → (o : Order) × (find (λ x. x.id == row.id) (os ++ row ∷ []) ≡ some o)
find-inserted [] row = (row, ground arith)
find-inserted (o ∷ os) row = elim (Bool-cases (o.id == row.id)) [
  | inl hit ↦ (o, rw hit)
  | inr miss ↦ let (found, e) = find-inserted os row in (found, rw miss e)
]

find_keyed-append :
    (key : String) (ks more : List KeyRow) (os rows : List Order) {o : Order}
    → find_keyed key ks os ≡ some o
    → find_keyed key (ks ++ more) (os ++ rows) ≡ some o
unfolding find_keyed
find_keyed-append key ks more os rows e = elim (Option-cases (find (λ k. str_eq k.key key) ks)) [
  | inl missing ↦ absurd (ground arith)
  | inr (k, found) ↦ elim (Option-cases k.order_id) [
    | inl unbound ↦ absurd (ground arith)
    | inr (id, bound) ↦
        rw (find-some-append (λ x. str_eq x.key key) ks more found)
          (rw bound (find-some-append (λ x. x.id == id) os rows (rw (found, bound) at e)))
  ]
]

any_of_find_keyed :
    (key : String) (ks : List KeyRow) (os : List Order) {o : Order}
    → find_keyed key ks os ≡ some o
    → any (λ k. str_eq k.key key) ks ≡ true
unfolding find_keyed
any_of_find_keyed key ks os e = elim (Bool-cases (any (λ k. str_eq k.key key) ks)) [
  | inl taken ↦ taken
  | inr free ↦ absurd (ground (arith, find-none_of_any (λ k. str_eq k.key key) ks free))
]

joined-IsBound :
    (os : List Order) (k : KeyRow) → IsBound os k → (o : Order) × (joined (some k) os ≡ some o)
joined-IsBound os k (id, o, same, found) = (o, ground arith)

order_of_key-IsKeyed :
    (key : String) (db : Db)
    → IsKeyed db
    → any (λ k. str_eq k.key key) db.idempotency_keys ≡ true
    → (o : Order) × (order_of_key key db ≡ some o)
unfolding find_keyed
order_of_key-IsKeyed key db h taken =
    let (k, found) = any-find (λ k. str_eq k.key key) db.idempotency_keys taken in
    rw found (
      joined-IsBound db.orders k
        (find-All (IsBound db.orders) (λ k. str_eq k.key key) db.idempotency_keys h found))

module _ (sha1 : String → List ℕ) (print_id : ℕ → String) where
  module _ (faults : Stage → Bool) (p : CheckoutParams) (draw : Draw) where
    Binds-IsKeyed :
        (key : Option String) (ks ks' : List KeyRow) (os : List Order) (row : Order)
        → row.id ≡ draw.order_id
        → Binds sha1 print_id faults p draw key ks ks'
        → All (IsBound os) ks
        → All (IsBound (os ++ row ∷ [])) ks'
    Binds-IsKeyed none ks ks' os row same e h = rw e (All-imp (IsBound-append os (row ∷ [])) ks h)
    Binds-IsKeyed (some key) ks ks' os row same (_, e) h =
        let (o, found) = find-inserted os row in
        rw e (
          All-append (IsBound (os ++ row ∷ [])) ks _ (All-imp (IsBound-append os (row ∷ [])) ks h)
            ((draw.order_id, o, refl, rw (← same) found), tt))

    Binds-append :
        (key : Option String) (ks ks' : List KeyRow)
        → Binds sha1 print_id faults p draw key ks ks'
        → (more : List KeyRow) × (ks' ≡ ks ++ more)
    Binds-append none ks ks' e = ([], rw append-nil e)
    Binds-append (some key) ks ks' (_, e) = (_, e)

    Writes-IsKeyed :
        (total : Amount) (db db' : Db)
        → IsKeyed db
        → Writes sha1 print_id faults p draw total db db'
        → IsKeyed db'
    Writes-IsKeyed total db db' h w = rw w.orders (
        Binds-IsKeyed p.idempotency_key db.idempotency_keys db'.idempotency_keys db.orders
          (order_row p draw w.user.email total) refl w.keys h)

    Writes-order_of_key :
        (total : Amount) (key : String) (o : Order) (db db' : Db)
        → order_of_key key db ≡ some o
        → Writes sha1 print_id faults p draw total db db'
        → order_of_key key db' ≡ some o
    Writes-order_of_key total key o db db' h w =
        let (more, e) =
          Binds-append p.idempotency_key db.idempotency_keys db'.idempotency_keys w.keys in
        rw (e, w.orders)
          (find_keyed-append key db.idempotency_keys more db.orders
            (order_row p draw w.user.email total ∷ []) h)

    -- The first request with a key leaves it bound to the new order.
    pub Writes-bound :
        (total : Amount) (key : String) (db db' : Db)
        → p.idempotency_key ≡ some key
        → find (λ o. o.id == draw.order_id) db.orders ≡ none
        → Writes sha1 print_id faults p draw total db db'
        → (o : Order) × (order_of_key key db' ≡ some o)
          × (o.id ≡ draw.order_id)
          × (o.total_amount ≡ total.cents)
    unfolding find_keyed
    Writes-bound total key db db' keyed fresh w =
        let (free, e) =
          subst (λ k. Binds sha1 print_id faults p draw k db.idempotency_keys db'.idempotency_keys)
            keyed w.keys in
        (
          order_row p draw w.user.email total,
          rw (e, w.orders)
              (ground (
                arith,
                str_eq_self key,
                find-none_of_any (λ k. str_eq k.key key) db.idempotency_keys free,
                find-append (λ k. str_eq k.key key) db.idempotency_keys
                    (bound_row sha1 print_id faults p draw key ∷ []),
                find-append (λ o. o.id == draw.order_id) db.orders
                    (order_row p draw w.user.email total ∷ []),
              )),
          refl,
          refl,
        )

    claim-taken :
        (key : String) (o : Order) (db : Db)
        → order_of_key key db ≡ some o
        → faults claiming ≡ false
        → faults looking_up ≡ false
        → claim sha1 print_id faults (some key) draw db
          ≡ rolled_back (success o.id (exact o.total_amount) true)
    unfolding claim replay insert_key
    claim-taken key o db bound works looks =
        ground (arith, any_of_find_keyed key db.idempotency_keys db.orders bound)

    -- A request whose key is taken gets the order of the key, and changes nothing.
    checkout-taken :
        (key : String) (o : Order) (db : Db)
        → p.idempotency_key ≡ some key
        → order_of_key key db ≡ some o
        → faults claiming ≡ false
        → faults looking_up ≡ false
        → checkout sha1 print_id faults p draw db
          ≡ (returned (success o.id (exact o.total_amount) true), db)
    unfolding checkout body
    checkout-taken key o db keyed bound works looks =
        rw (keyed, claim-taken key o db bound works looks) refl

  run-order_of_key :
      (key : String) (o : Order) (cs : List Call) (db : Db)
      → order_of_key key db ≡ some o
      → order_of_key key (run sha1 print_id cs db) ≡ some o
  run-order_of_key key o cs db =
      run-keeps sha1 print_id (λ d. order_of_key key d ≡ some o)
        (λ c total d d' h w. Writes-order_of_key c.faults c.params c.draw total key o d d' h w) cs
        db

  run-IsKeyed : (cs : List Call) (db : Db) → IsKeyed db → IsKeyed (run sha1 print_id cs db)
  run-IsKeyed cs db =
      run-keeps sha1 print_id IsKeyed
        (λ c total d d' h w. Writes-IsKeyed c.faults c.params c.draw total d d' h w) cs db

  -- A request that succeeded with a key, and is sent again with that key after any history of
  -- checkouts, returns the same order as a replay, with the total rounded to cents, and changes
  -- nothing, whatever its other parameters are, if the two queries of the key go through and the
  -- order's id was new.
  pub retry_replays :
      (first again : Call) (cs : List Call) (db : Db) (key : String) (id : ℕ) (total : Amount)
      → first.params.idempotency_key ≡ some key
      → again.params.idempotency_key ≡ some key
      → find (λ o. o.id == first.draw.order_id) db.orders ≡ none
      → again.faults claiming ≡ false
      → again.faults looking_up ≡ false
      → (checkout sha1 print_id first.faults first.params first.draw db).0
        ≡ returned (success id total false)
      → let later = run sha1 print_id (first ∷ cs) db in
        checkout sha1 print_id again.faults again.params again.draw later
        ≡ (returned (success id (exact total.cents) true), later)
  unfolding run after
  retry_replays first again cs db key id total k₁ k₂ fresh works looks e =
      let (same, w) =
        success-Writes sha1 print_id first.faults first.params first.draw db id total e in
      let (o, bound, is_new, costs) =
        Writes-bound first.faults first.params first.draw total key db _ k₁ fresh w in
      checkout-taken again.faults again.params again.draw key o _ k₂
        (run-order_of_key key o cs _ bound) works looks
      ∙ rw (costs, is_new, same)

  -- After any history that began with every key bound to an order, a request whose key is taken is
  -- answered by an order: the row that the code dereferences exists.
  pub taken_key_replays :
      (c : Call) (cs : List Call) (db : Db) (key : String)
      → IsKeyed db
      → c.params.idempotency_key ≡ some key
      → c.faults claiming ≡ false
      → c.faults looking_up ≡ false
      → let later = run sha1 print_id cs db in
        any (λ k. str_eq k.key key) later.idempotency_keys ≡ true
        → (o : Order) × (order_of_key key later ≡ some o)
          × (checkout sha1 print_id c.faults c.params c.draw later
              ≡ (returned (success o.id (exact o.total_amount) true), later))
  taken_key_replays c cs db key h keyed works looks taken =
      let (o, bound) =
        order_of_key-IsKeyed key (run sha1 print_id cs db) (run-IsKeyed cs db h) taken in
      (o, bound, checkout-taken c.faults c.params c.draw key o _ keyed bound works looks)
