-- ===== src/Messaging/Consumer/Effects.antt =====
-- The effect happens once: one receipt for an order, however often its event is delivered.
use node_js_nest_course_proj.Base.{
  ℕ, String, ◌≡◌, refl, sym, ap, subst, ◌∙◌, inl, inr, Bool, true, false, ◌&&◌, some, List, [], ◌∷◌,
  ◌++◌, arith, eq_iff, ◌==◌, str_eq, Bool-cases, if_elim, count, any, any-append, All, All-append,
  All-imp, any-All,
}
use node_js_nest_course_proj.Events.{OrderPlacedEvent}
use node_js_nest_course_proj.Messaging.Consumer.{
  Inbox, Receipt, Processed, consumer_name, conflicts, receipt_of, apply_order_placed,
  insert_processed, insert_receipt, conclude,
}

-- The columns order_id and event_id are unique.
abbrev pub IsUnique : List Receipt → Type 0
IsUnique [] = Unit
IsUnique (r ∷ rs) = (any (conflicts r) rs ≡ false) × IsUnique rs

abbrev pub is_seen : String → Processed → Bool
is_seen id p = str_eq p.message_id id && str_eq p.consumer consumer_name

abbrev pub HasReceipt : ℕ → Inbox → Type 0
HasReceipt order_id db = any (λ r. r.order_id == order_id) db.order_receipts ≡ true

conflicts-sym : (a b : Receipt) → conflicts a b ≡ conflicts b a
conflicts-sym a b = ground (arith, eq_iff a.event_id b.event_id, eq_iff b.event_id a.event_id)

IsUnique-insert :
    (r : Receipt) (rs : List Receipt)
    → any (conflicts r) rs ≡ false
    → IsUnique rs
    → IsUnique (rs ++ r ∷ [])
IsUnique-insert r [] h u = (refl, tt)
IsUnique-insert r (x ∷ xs) h u = (
  ground (arith, u.0, conflicts-sym x r, any-append (conflicts x) xs (r ∷ [])),
  IsUnique-insert r xs (ground arith) u.1,
)

-- With unique columns an order that has a receipt has exactly one.
count-absent :
    (order_id : ℕ) (r : Receipt) (rs : List Receipt)
    → r.order_id ≡ order_id
    → any (conflicts r) rs ≡ false
    → count (λ x. x.order_id == order_id) rs ≡ 0
count-absent order_id r [] e h = refl
count-absent order_id r (x ∷ xs) e h = ground (arith, count-absent order_id r xs e)

pub count-receipts :
    (order_id : ℕ) (rs : List Receipt)
    → IsUnique rs
    → any (λ r. r.order_id == order_id) rs ≡ true
    → count (λ r. r.order_id == order_id) rs ≡ 1
count-receipts order_id [] u h = absurd (cc)
count-receipts order_id (r ∷ rs) u h =
    ground (arith, count-absent order_id r rs, count-receipts order_id rs u.1)

HasReceipt-append :
    (order_id : ℕ) (rs more : List Receipt)
    → any (λ r. r.order_id == order_id) rs ≡ true
    → any (λ r. r.order_id == order_id) (rs ++ more) ≡ true
HasReceipt-append order_id rs more h =
    ground (arith, any-append (λ r. r.order_id == order_id) rs more)

and-true : (a b : Bool) → (a && b) ≡ true → (a ≡ true) × (b ≡ true)
and-true a b h = ground arith

abbrev marked : OrderPlacedEvent → Inbox → List Processed
marked e db =
    db.processed_messages ++ record { message_id = e.event_id; consumer = consumer_name } ∷ []

abbrev inserted : OrderPlacedEvent → Inbox → Inbox
inserted e db = record {
  processed_messages = marked e db;
  order_receipts = db.order_receipts ++ receipt_of e ∷ [];
}

-- The three ways through the transaction.
apply_order_placed-cases {ℓ} :
    (P : Inbox → Type ℓ) (e : OrderPlacedEvent) (db : Inbox)
    → (any (is_seen e.event_id) db.processed_messages ≡ true → P db)
    → (any (conflicts (receipt_of e)) db.order_receipts ≡ true
        → P (record db { processed_messages = marked e db }))
    → (any (conflicts (receipt_of e)) db.order_receipts ≡ false → P (inserted e db))
    → P (apply_order_placed e db).1
unfolding apply_order_placed insert_processed insert_receipt
apply_order_placed-cases P e db seen clash free =
    let rows = insert_receipt (receipt_of e) db.order_receipts in
    if_elim (λ x. P (conclude db x rows).1) (any (is_seen e.event_id) db.processed_messages) seen
      λ _.
        if_elim (λ x. P (conclude db (some (marked e db)) x).1)
          (any (conflicts (receipt_of e)) db.order_receipts) clash free

pub apply_order_placed-monotone :
    (e : OrderPlacedEvent) (order_id : ℕ) (db : Inbox)
    → HasReceipt order_id db
    → HasReceipt order_id (apply_order_placed e db).1
apply_order_placed-monotone e order_id db h =
    apply_order_placed-cases (HasReceipt order_id) e db (λ _. h) (λ _. h)
      λ _. HasReceipt-append order_id db.order_receipts (receipt_of e ∷ []) h

-- `order_of` says which order an event identifier stands for.
module _ (order_of : String → ℕ) where
  -- A message that was processed has left the receipt of its order.
  abbrev pub IsReceipted : Inbox → Processed → Type 0
  IsReceipted db p = p.consumer ≡ consumer_name → HasReceipt (order_of p.message_id) db

  pub record IsSound (db : Inbox) : Type 0 where
    pub unique : IsUnique db.order_receipts
    pub named : All (λ r. order_of r.event_id ≡ r.order_id) db.order_receipts
    pub receipted : All (IsReceipted db) db.processed_messages

  -- A receipt that conflicts with the event's is a receipt of the same order.
  same_order :
      (e : OrderPlacedEvent) (r : Receipt)
      → order_of e.event_id ≡ e.body.order_id
      → order_of r.event_id ≡ r.order_id
      → conflicts (receipt_of e) r ≡ true
      → (r.order_id == e.body.order_id) ≡ true
  same_order e r o n h = elim (Bool-cases (str_eq r.event_id e.event_id)) [
    | inl hit ↦
        let same : r.event_id ≡ e.event_id = (eq_iff r.event_id e.event_id).0 hit in
        let named = ap order_of same in ground arith
    | inr miss ↦ ground arith
  ]

  conflict-HasReceipt :
      (e : OrderPlacedEvent) (rs : List Receipt)
      → order_of e.event_id ≡ e.body.order_id
      → All (λ r. order_of r.event_id ≡ r.order_id) rs
      → any (conflicts (receipt_of e)) rs ≡ true
      → any (λ r. r.order_id == e.body.order_id) rs ≡ true
  conflict-HasReceipt e [] o n h = absurd (cc)
  conflict-HasReceipt e (r ∷ rs) o n h =
      ground (arith, same_order e r o n.0, conflict-HasReceipt e rs o n.1)

  seen-HasReceipt :
      (e : OrderPlacedEvent) (db : Inbox) (p : Processed)
      → order_of e.event_id ≡ e.body.order_id
      → is_seen e.event_id p ≡ true
      → IsReceipted db p
      → HasReceipt e.body.order_id db
  seen-HasReceipt e db p o h q =
      let (same, mine) =
        and-true (str_eq p.message_id e.event_id) (str_eq p.consumer consumer_name) h in
      subst (λ n. HasReceipt n db) (ap order_of ((eq_iff p.message_id e.event_id).0 same) ∙ o)
        (q ((eq_iff p.consumer consumer_name).0 mine))

  -- Whether applied or skipped, the order of the event has a receipt afterwards.
  pub apply_order_placed-HasReceipt :
      (e : OrderPlacedEvent) (db : Inbox)
      → order_of e.event_id ≡ e.body.order_id
      → IsSound db
      → HasReceipt e.body.order_id (apply_order_placed e db).1
  apply_order_placed-HasReceipt e db o s =
      apply_order_placed-cases (HasReceipt e.body.order_id) e db
        (λ seen.
          let (p, hit, q) =
            any-All (IsReceipted db) (is_seen e.event_id) db.processed_messages s.receipted seen in
          seen-HasReceipt e db p o hit q)
        (conflict-HasReceipt e db.order_receipts o s.named)
        (λ free. ground (
          arith,
          any-append (λ r. r.order_id == e.body.order_id) db.order_receipts (receipt_of e ∷ []),
        ))

  Receipted-marked :
      (e : OrderPlacedEvent) (db db' : Inbox)
      → order_of e.event_id ≡ e.body.order_id
      → ((order_id : ℕ) → HasReceipt order_id db → HasReceipt order_id db')
      → HasReceipt e.body.order_id db'
      → All (IsReceipted db) db.processed_messages
      → All (IsReceipted db') (marked e db)
  Receipted-marked e db db' o more has s =
      All-append (IsReceipted db') db.processed_messages _
        (All-imp (λ p q c. more (order_of p.message_id) (q c)) db.processed_messages s)
        (λ _. subst (λ n. HasReceipt n db') (sym o) has, tt)

  pub apply_order_placed-IsSound :
      (e : OrderPlacedEvent) (db : Inbox)
      → order_of e.event_id ≡ e.body.order_id
      → IsSound db
      → IsSound (apply_order_placed e db).1
  apply_order_placed-IsSound e db o s =
      apply_order_placed-cases IsSound e db (λ _. s)
        (λ clash. record {
          unique = s.unique;
          named = s.named;
          receipted =
              Receipted-marked e db (record db { processed_messages = marked e db }) o (λ _ h. h)
                (conflict-HasReceipt e db.order_receipts o s.named clash) s.receipted;
        })
        (λ free. record {
          unique = IsUnique-insert (receipt_of e) db.order_receipts free s.unique;
          named = All-append _ db.order_receipts _ s.named (o, tt);
          receipted =
              Receipted-marked e db (inserted e db) o
                (λ n h. HasReceipt-append n db.order_receipts (receipt_of e ∷ []) h)
                (ground (
                  arith,
                  any-append (λ r. r.order_id == e.body.order_id) db.order_receipts
                      (receipt_of e ∷ []),
                ))
                s.receipted;
        })
