-- ===== src/Orders/Feed.antt =====
-- The buffer and the counter of an order after any events: the last hundred of its events, numbered
-- one after another.
use node_js_nest_course_proj.Base.{
  ℕ, zero, suc, ◌+◌, ◌-◌, max, String, ◌≡◌, refl, sym, ap, subst, ◌∙◌, inl, inr, true, false, some,
  List, [], ◌∷◌, ◌++◌, append-nil, append_assoc, arith, eq_iff, ltb, str_eq, str_eq_self,
  Bool-cases, if_elim, get_or, length, drop, keep, length-append, length-drop, get, get-set_same,
  get-set_other, drop-nil, drop-drop, drop-append, keep-append,
}
use node_js_nest_course_proj.Orders.{OrderStatus, OrderStatusEvent}
use node_js_nest_course_proj.Orders.StatusBus.{
  Bus, silent, buffer_size, emit_status_change, push_bounded, next, missed_since,
}

pub record Change : Type 0 where
  pub order_id : String
  pub status : OrderStatus
  pub now : ℕ

-- The events of a sequence of changes, and the bus behind them.
unfoldable pub emit_all : List Change → Bus → List OrderStatusEvent × Bus
unfolding emit_status_change
emit_all [] b = ([], b)
emit_all (c ∷ cs) b =
    let emitted = emit_status_change c.order_id c.status c.now b in
    let rest = emit_all cs emitted.1 in (emitted.0 ∷ rest.0, rest.1)

-- The events of one order among all.
abbrev pub of_order : String → List OrderStatusEvent → List OrderStatusEvent
of_order id log = keep (λ e. str_eq e.order_id id) log

abbrev pub Numbered : ℕ → List OrderStatusEvent → Type 0
Numbered n [] = Unit
Numbered n (e ∷ es) = (e.id ≡ suc n) × Numbered (suc n) es

Numbered-append :
    (n : ℕ) (es : List OrderStatusEvent) (e : OrderStatusEvent)
    → Numbered n es
    → e.id ≡ n + length es + 1
    → Numbered n (es ++ (e ∷ []))
Numbered-append n [] e h k = (omega (arith, k), tt)
Numbered-append n (x ∷ es) e h k = (h.0, Numbered-append (suc n) es e h.1 (omega (arith, k)))

Numbered-drop :
    (n k : ℕ) (es : List OrderStatusEvent) → Numbered n es → Numbered (n + k) (drop k es)
Numbered-drop n zero es h = subst (λ m. Numbered m es) (omega arith) h
Numbered-drop n (suc k) [] h = tt
Numbered-drop n (suc k) (e ∷ es) h =
    subst (λ m. Numbered m (drop k es)) (omega arith) (Numbered-drop (suc n) k es h.1)

-- In a numbered list, the events above a number are what is left behind so many.
keep-Numbered :
    (n last : ℕ) (es : List OrderStatusEvent)
    → Numbered n es
    → keep (λ e. ltb last e.id) es ≡ drop (last - n) es
keep-Numbered n last [] h = sym (drop-nil (last - n))
keep-Numbered n last (e ∷ es) h =
    let ih = keep-Numbered (suc n) last es h.1 in
    if_elim (λ (r : List OrderStatusEvent). r ≡ drop (last - n) (e ∷ es)) (ltb last e.id)
      (λ above.
        let a : last - suc n ≡ 0 = ground (arith, h.0) in
        let b : last - n ≡ 0 = ground (arith, h.0) in
        ap (λ r. e ∷ r) (ih ∙ ap (λ k. drop k es) a) ∙ sym (ap (λ k. drop k (e ∷ es)) b))
      (λ below.
        let c : last - n ≡ suc (last - suc n) = ground (arith, h.0) in
        ih ∙ sym (ap (λ k. drop k (e ∷ es)) c))

-- Pushing onto the last `size` elements gives the last `size` elements.
push-last :
    {A : Type 0} (size : ℕ) (x : A) (xs : List A)
    → push_bounded size x (drop (length xs - size) xs)
      ≡ drop (length (xs ++ (x ∷ [])) - size) (xs ++ (x ∷ []))
unfolding push_bounded
push-last size x xs =
    let j = length xs - size in
    let pushed : drop j xs ++ (x ∷ []) ≡ drop j (xs ++ (x ∷ [])) =
      sym (drop-append j xs (x ∷ []) (omega arith)) in
    let len = length-append (drop j xs) (x ∷ []) in
    let all = length-append xs (x ∷ []) in
    let left = length-drop j xs in
    if_elim (λ (r : List _). r ≡ drop (length (xs ++ (x ∷ [])) - size) (xs ++ (x ∷ [])))
      (ltb size (length (drop j xs ++ (x ∷ []))))
      (λ over.
        ap (drop 1) pushed
        ∙ drop-drop j 1 (xs ++ (x ∷ []))
        ∙ ap (λ k. drop k (xs ++ (x ∷ []))) (ground (arith, len, all, left)))
      (λ within. pushed ∙ ap (λ k. drop k (xs ++ (x ∷ []))) (ground (arith, len, all, left)))

-- What the bus knows of an order, against all events so far.
abbrev pub Knows : List OrderStatusEvent → Bus → String → Type 0
Knows log b id =
    (get_or (get id b.counters) 0 ≡ length (of_order id log))
    × (get_or (get id b.buffers) []
        ≡ drop (length (of_order id log) - buffer_size) (of_order id log))
    × Numbered 0 (of_order id log)

of_order-same :
    (id : String) (log : List OrderStatusEvent) (e : OrderStatusEvent)
    → str_eq e.order_id id ≡ true
    → of_order id (log ++ (e ∷ [])) ≡ of_order id log ++ (e ∷ [])
of_order-same id log e h =
    keep-append (λ x. str_eq x.order_id id) log (e ∷ [])
    ∙ ap (λ r. of_order id log ++ r) (ground (arith, h))

of_order-other :
    (id : String) (log : List OrderStatusEvent) (e : OrderStatusEvent)
    → str_eq e.order_id id ≡ false
    → of_order id (log ++ (e ∷ [])) ≡ of_order id log
of_order-other id log e h =
    keep-append (λ x. str_eq x.order_id id) log (e ∷ [])
    ∙ ap (λ r. of_order id log ++ r) (ground (arith, h))
    ∙ append-nil (of_order id log)

-- An event of the order itself.
emit-own :
    (log : List OrderStatusEvent) (b : Bus) (c : Change)
    → Knows log b c.order_id
    → (let emitted = emit_status_change c.order_id c.status c.now b in
        Knows (log ++ (emitted.0 ∷ [])) emitted.1 c.order_id)
unfolding emit_status_change next
emit-own log b c h =
    let id = c.order_id in
    let e = (emit_status_change id c.status c.now b).0 in
    let own = of_order id log in
    let grown = of_order-same id log e (str_eq_self id) in
    let number : e.id ≡ length own + 1 = omega (arith, h.0) in
    let size = length-append own (e ∷ []) in
    (
      ap (λ o. get_or o 0) (get-set_same id (get_or (get id b.counters) 0 + 1) b.counters)
          ∙ number
          ∙ sym size
          ∙ sym (ap length grown),
      ap (λ o. get_or o [])
            (get-set_same id (push_bounded buffer_size e (get_or (get id b.buffers) [])) b.buffers)
          ∙ ap (push_bounded buffer_size e) h.1
          ∙ push-last buffer_size e own
          ∙ sym (ap (λ es. drop (length es - buffer_size) es) grown),
      subst (Numbered 0) (sym grown) (Numbered-append 0 own e h.2 (omega (arith, number))),
    )

-- An event of another order.
emit-other :
    (log : List OrderStatusEvent) (b : Bus) (c : Change) (id : String)
    → str_eq c.order_id id ≡ false
    → Knows log b id
    → (let emitted = emit_status_change c.order_id c.status c.now b in
        Knows (log ++ (emitted.0 ∷ [])) emitted.1 id)
unfolding emit_status_change next
emit-other log b c id miss h =
    let e = (emit_status_change c.order_id c.status c.now b).0 in
    let same = of_order-other id log e miss in
    (
      ap (λ o. get_or o 0)
            (get-set_other c.order_id id (get_or (get c.order_id b.counters) 0 + 1) b.counters miss)
          ∙ h.0
          ∙ sym (ap length same),
      ap (λ o. get_or o [])
            (get-set_other c.order_id id
              (push_bounded buffer_size e (get_or (get c.order_id b.buffers) [])) b.buffers miss)
          ∙ h.1
          ∙ sym (ap (λ es. drop (length es - buffer_size) es) same),
      subst (Numbered 0) (sym same) h.2,
    )

emit-Knows :
    (log : List OrderStatusEvent) (b : Bus) (c : Change)
    → ((id : String) → Knows log b id)
    → (let emitted = emit_status_change c.order_id c.status c.now b in
        (id : String) → Knows (log ++ (emitted.0 ∷ [])) emitted.1 id)
emit-Knows log b c h id =
    let emitted = emit_status_change c.order_id c.status c.now b in
    elim (Bool-cases (str_eq c.order_id id)) [
      | inl hit ↦
          subst (Knows (log ++ (emitted.0 ∷ [])) emitted.1) ((eq_iff c.order_id id).0 hit)
            (emit-own log b c (h c.order_id))
      | inr miss ↦ emit-other log b c id miss (h id)
    ]

pub emit_all-Knows :
    (log : List OrderStatusEvent) (b : Bus) (cs : List Change)
    → ((id : String) → Knows log b id)
    → (let emitted = emit_all cs b in (id : String) → Knows (log ++ emitted.0) emitted.1 id)
unfolding emit_all
emit_all-Knows log b [] h id = subst (λ l. Knows l b id) (sym (append-nil log)) (h id)
emit_all-Knows log b (c ∷ cs) h id =
    let emitted = emit_status_change c.order_id c.status c.now b in
    subst (λ l. Knows l (emit_all cs emitted.1).1 id)
      (append_assoc log (emitted.0 ∷ []) (emit_all cs emitted.1).0)
      (emit_all-Knows (log ++ (emitted.0 ∷ [])) emitted.1 cs (emit-Knows log b c h) id)

pub silent-Knows : (id : String) → Knows [] silent id
silent-Knows id = (refl, refl, tt)

-- What the buffer still has of the events that a client has missed.
pub missed-Knows :
    (log : List OrderStatusEvent) (b : Bus) (id : String) (last : ℕ)
    → Knows log b id
    → missed_since id (some last) b
      ≡ drop (max last (length (of_order id log) - buffer_size)) (of_order id log)
unfolding missed_since
missed-Knows log b id last h =
    let own = of_order id log in
    let j = length own - buffer_size in
    let gap : j + (last - j) ≡ max last j = omega arith in
    ap (keep (λ e. ltb last e.id)) h.1
    ∙ keep-Numbered j last (drop j own)
        (subst (λ n. Numbered n (drop j own)) (omega arith) (Numbered-drop 0 j own h.2))
    ∙ drop-drop j (last - j) own
    ∙ ap (λ k. drop k own) gap
