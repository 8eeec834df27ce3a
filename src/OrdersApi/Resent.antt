-- ===== src/OrdersApi/Resent.antt =====
-- A request that was answered is sent again.
use node_js_nest_course_proj.Money.{Amount, exact}
use node_js_nest_course_proj.Base.{
  ℕ, ◌≤◌, String, ◌≡◌, refl, sym, ap, subst, ◌∙◌, Bool, true, false, not, ◌||◌, Option, none, some,
  List, [], ◌∷◌, arith, eq_iff, ltb, ◌==◌, str_eq, if_elim, find,
}
use node_js_nest_course_proj.Shop.{Db}
use node_js_nest_course_proj.Checkout.{
  CheckoutParams, success, failure, Outcome, returned, thrown, Draw, Stage, checkout, claiming,
  looking_up,
}
use node_js_nest_course_proj.Checkout.Keys.{retry_replays}
use node_js_nest_course_proj.OrdersApi.{
  Body, HttpRequest, HttpResponse, HttpBody, problem_body, order_body, answer, params_of,
  handle_body, handle_key, handle, parse_body, max_key_length, place_order,
}
use node_js_nest_course_proj.Checkout.History.{Call, run, after}
use node_js_nest_course_proj.OrdersApi.Answers.{serve}

-- What the column of the total makes of the body of an answer.
abbrev pub rounded : HttpBody → HttpBody
rounded (order_body id total) = order_body id (exact total.cents)
rounded (problem_body p) = problem_body p

-- The answer to a replay.
abbrev pub resent : HttpBody → HttpResponse
resent body = record {
  status = 200;
  headers = ("content-type", "application/json") ∷ ("idempotent-replayed", "true") ∷ [];
  body = body;
}

module _ (sha1 : String → List ℕ) (print_id : ℕ → String) (js_length : String → ℕ)
    (trim : String → String) where
  -- A checkout of the key that succeeded, behind an answer 201.
  abbrev Created : (Stage → Bool) → Draw → Db → String → HttpResponse × Db → Type 0
  Created faults draw db key (res, after) =
      (p : CheckoutParams) × (id : ℕ) × (total : Amount) × (p.idempotency_key ≡ some key)
      × (res.body ≡ order_body id total)
      × ((checkout sha1 print_id faults p draw db).0 ≡ returned (success id total false))
      × (after ≡ (checkout sha1 print_id faults p draw db).1)

  module _ (faults : Stage → Bool) (draw : Draw) (key : String) (db : Db) where
    answer-Created :
        (url : String) (p : CheckoutParams)
        → p.idempotency_key ≡ some key
        → (o : Outcome) → (checkout sha1 print_id faults p draw db).0 ≡ o
        → (answer url o).status ≡ 201
        → Created faults draw db key (answer url o, (checkout sha1 print_id faults p draw db).1)
    answer-Created url p keyed (returned (success id total false)) e h =
        (p, id, total, keyed, refl, e, refl)
    answer-Created url p keyed (returned (success id total true)) e h = absurd (omega (arith, h))
    answer-Created url p keyed (returned (failure reason)) e h = absurd (omega (arith, h))
    answer-Created url p keyed (thrown x) e h = absurd (omega (arith, h))

    body-Created :
        (url : String) (body : Option Body)
        → (let r = handle_body (λ p. checkout sha1 print_id faults p draw) url key body db in
            (r.0).status ≡ 201 → Created faults draw db key r)
    body-Created url none h = absurd (omega (arith, h))
    body-Created url (some body) h =
        answer-Created url (params_of body key) refl
          (checkout sha1 print_id faults (params_of body key) draw db).0 refl h

    serve-Created :
        (req : HttpRequest)
        → req.key ≡ some key
        → ((serve sha1 print_id js_length trim faults draw req db).0).status ≡ 201
        → Created faults draw db key (serve sha1 print_id js_length trim faults draw req db)
    unfolding handle
    serve-Created req keyed =
        if_elim (λ (r : HttpResponse × Db). (r.0).status ≡ 201 → Created faults draw db key r)
          (not (str_eq req.method "POST") || not (str_eq req.url "/orders"))
          (λ elsewhere h. absurd (omega (arith, h)))
          (λ here.
            subst
              (λ k.
                ((handle_key (λ p. checkout sha1 print_id faults p draw) js_length trim req k db).0
                ).status
                  ≡ 201
                → Created faults draw db key (
                    handle_key (λ p. checkout sha1 print_id faults p draw) js_length trim req k db))
              (sym keyed)
              (if_elim
                (λ (r : HttpResponse × Db). (r.0).status ≡ 201 → Created faults draw db key r)
                (str_eq (trim key) "" || ltb max_key_length (js_length key))
                (λ bad h. absurd (omega (arith, h)))
                (λ good. body-Created req.url (parse_body req.body))))

  -- A request with a key that passes the checks of the edge, and a body that does.
  abbrev pub IsValid : HttpRequest → String → Body → Type 0
  IsValid req key body =
      (req.method ≡ "POST")
      × (req.url ≡ "/orders")
      × (req.key ≡ some key)
      × (parse_body req.body ≡ some body)
      × (str_eq (trim key) "" ≡ false)
      × (js_length key ≤ max_key_length)

  serve-valid :
      (faults : Stage → Bool) (draw : Draw) (req : HttpRequest) (key : String) (body : Body)
      (db : Db)
      → IsValid req key body
      → serve sha1 print_id js_length trim faults draw req db
        ≡ place_order (λ p. checkout sha1 print_id faults p draw) req.url (params_of body key) db
  unfolding handle
  serve-valid faults draw req key body db h =
      let m : str_eq req.method "POST" ≡ true = (eq_iff req.method "POST").1 h.0 in
      let u : str_eq req.url "/orders" ≡ true = (eq_iff req.url "/orders").1 h.1 in
      let short : ltb max_key_length (js_length key) ≡ false = ground (arith, h.5) in
      rw (m, u, h.2, h.4, short, h.3) refl

  -- A request that was answered by 201 and is sent again with its key, and with any valid body, after
  -- any history of checkouts, is answered by 200, the same order, its total rounded to cents, and the
  -- header of a replay, and changes nothing, if the order's id was new and the two queries of the key go through.
  pub resent_replays :
      (first again : HttpRequest) (faults faults2 : Stage → Bool) (draw draw2 : Draw)
      (cs : List Call) (db : Db) (key : String) (body : Body)
      → first.key ≡ some key
      → ((serve sha1 print_id js_length trim faults draw first db).0).status ≡ 201
      → find (λ o. o.id == draw.order_id) db.orders ≡ none
      → IsValid again key body
      → faults2 claiming ≡ false
      → faults2 looking_up ≡ false
      → (let made = serve sha1 print_id js_length trim faults draw first db in
          let later = run sha1 print_id cs made.1 in
          serve sha1 print_id js_length trim faults2 draw2 again later ≡ (
            record {
              status = 200;
              headers = ("content-type", "application/json") ∷ ("idempotent-replayed", "true") ∷ [];
              body = rounded (made.0).body;
            },
            later,
          ))
  unfolding run after
  resent_replays first again faults faults2 draw draw2 cs db key body keyed created fresh valid
        claims looks =
      let (p, id, total, asked, named, made, same) =
        serve-Created faults draw key db first keyed created in
      let one : Call = record { params = p; draw = draw; faults = faults } in
      let two : Call = record { params = params_of body key; draw = draw2; faults = faults2 } in
      subst
        (λ d. serve sha1 print_id js_length trim faults2 draw2 again (run sha1 print_id cs d) ≡ (
          resent (rounded ((serve sha1 print_id js_length trim faults draw first db).0).body),
          run sha1 print_id cs d,
        ))
        (sym same)
        (serve-valid faults2 draw2 again key body (run sha1 print_id (one ∷ cs) db) valid
          ∙ ap (λ x. (answer again.url x.0, x.1))
              (retry_replays sha1 print_id one two cs db key id total asked refl fresh claims looks
                made)
          ∙ ap (λ b. (resent (rounded b), run sha1 print_id (one ∷ cs) db)) (sym named))
