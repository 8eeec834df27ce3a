-- ===== src/Orders/Resume.antt =====
-- What a stream of server-sent events writes to a client that comes back.
use node_js_nest_course_proj.Base.{
  ℕ, ◌-◌, ◌≤◌, max, String, ◌≡◌, refl, sym, ap, ◌∙◌, true, some, List, [], ◌∷◌, ◌++◌, map,
  append-nil, append_assoc, arith, str_eq, if_elim, length, drop, head?, drop-append, keep-append,
}
use mathlib.Core.Option.{some-injective}
use node_js_nest_course_proj.Orders.{OrderStatusEvent}
use node_js_nest_course_proj.Orders.StatusBus.{
  Bus, Stream, silent, buffer_size, emit_status_change, write_to, next, missed_since,
}
use node_js_nest_course_proj.Orders.Clients.{open_stream}
use node_js_nest_course_proj.Orders.Feed.{
  Change, emit_all, of_order, emit_all-Knows, silent-Knows, missed-Knows,
}

-- An open stream after events that were emitted one after another.
write_all : List OrderStatusEvent → Stream → Stream
unfolding write_to
write_all [] s = s
write_all (e ∷ es) s = write_all es (write_to e s)

abbrev pub following : String → List OrderStatusEvent → Stream
following id w = record { order = id; is_open = true; written = w }

write_all-open :
    (es : List OrderStatusEvent) (id : String) (w : List OrderStatusEvent)
    → write_all es (following id w) ≡ following id (w ++ of_order id es)
unfolding write_all write_to
write_all-open [] id w = ap (following id) (sym (append-nil w))
write_all-open (e ∷ es) id w =
    if_elim (λ (s : Stream). write_all es s ≡ following id (w ++ of_order id (e ∷ es)))
      (str_eq e.order_id id)
      (λ hit.
        write_all-open es id (w ++ (e ∷ []))
        ∙ ap (following id)
            (append_assoc w (e ∷ []) (of_order id es) ∙ ap (λ r. w ++ r) (ground (arith, hit))))
      (λ miss. write_all-open es id w ∙ ap (λ r. following id (w ++ r)) (ground (arith, miss)))

head-map :
    {A B : Type 0} (f : A → B) (xs : List A) (x : A)
    → head? xs ≡ some x
    → head? (map f xs) ≡ some (f x)
head-map f [] x h = absurd (cc)
head-map f (y ∷ xs) x h = ap (λ a. some (f a)) (some-injective _ _ h)

head-emit_all :
    (cs : List Change) (b : Bus) (s : Stream)
    → head? b.streams ≡ some s
    → head? ((emit_all cs b).1.streams) ≡ some (write_all (emit_all cs b).0 s)
unfolding emit_all emit_status_change next write_all
head-emit_all [] b s h = h
head-emit_all (c ∷ cs) b s h =
    let emitted = emit_status_change c.order_id c.status c.now b in
    head-emit_all cs emitted.1 (write_to emitted.0 s) (head-map (write_to emitted.0) b.streams s h)

-- A client that comes back with the number of the last event that it has seen of an order is sent
-- exactly the events of that order above this number, each once and in order: first those that it
-- missed, then those that follow. What it missed beyond the last hundred is lost, and nothing else.
pub resumed_whole :
    (cs later : List Change) (id : String) (last : ℕ)
    → (let before = emit_all cs silent in
        let after = emit_all later (open_stream id (some last) before.1) in
        let own = of_order id before.0 in
        last ≤ length own
        → head? after.1.streams
          ≡ some (
              following id
                (drop (max last (length own - buffer_size)) (of_order id (before.0 ++ after.0)))))
unfolding open_stream
resumed_whole cs later id last seen =
    let before = emit_all cs silent in
    let opened = open_stream id (some last) before.1 in
    let own = of_order id before.0 in
    let live = (emit_all later opened).0 in
    let n = max last (length own - buffer_size) in
    head-emit_all later opened (following id (missed_since id (some last) before.1)) refl
    ∙ ap some (
        write_all-open live id (missed_since id (some last) before.1)
        ∙ ap (following id) (
            ap (λ r. r ++ of_order id live)
              (missed-Knows before.0 before.1 id last (emit_all-Knows [] silent cs silent-Knows id))
            ∙ sym (drop-append n own (of_order id live) (omega (arith, seen)))
            ∙ sym (ap (drop n) (keep-append (λ e. str_eq e.order_id id) before.0 live))))
