-- ===== src/Outbox/Delivered.antt =====
-- No loss: a row is marked published only when its message lies with the broker.
use node_js_nest_course_proj.Base.{
  ℕ, String, ◌≡◌, refl, subst, ◌∙◌, ◌≢◌, inl, inr, Bool, true, ◌&&◌, ◌||◌, Option, none, some, List,
  [], ◌∷◌, arith, ◌==◌, str_eq, str_eq_self, Bool-cases, any, All, All-imp, any-All, Distinct,
  if_elim,
}
use node_js_nest_course_proj.Shop.{OutboxRow}
use node_js_nest_course_proj.Messaging.{Message, Channel, IsHonest, publish_raw}
use node_js_nest_course_proj.Outbox.{
  Around, publish_row, OrderPlacedEvent, publish_rows, World, mark_done, props_of, mark_failed,
  Loop, relay_once, settle, select_batch, RelayOutcome,
}
use node_js_nest_course_proj.Messaging.Publishing.{publish_raw-routed, any-enqueue}
use node_js_nest_course_proj.Outbox.Rows.{IsRow, IsRow-eq, ids, Distinct-IsRow, All-select_batch}

module _ (stringify : OrderPlacedEvent → String) where
  abbrev pub carries : OutboxRow → Message → Bool
  carries r m =
      str_eq m.message_id r.payload.event_id
      && str_eq m.content (stringify r.payload)
      && str_eq m.routing_key r.type

  abbrev pub IsQueued : List Message → OutboxRow → Type 0
  IsQueued queue r = any (carries r) queue ≡ true

  publish_row-IsQueued :
      (env : Around) (r : OutboxRow) (ch : Channel)
      → IsHonest (env.answer r)
      → (publish_row stringify env r ch).0 ≡ true
      → IsQueued (publish_row stringify env r ch).1.queued r
  unfolding publish_row publish_raw
  publish_row-IsQueued env r ch honest e =
      let routed : (env.answer r).routed ≡ true =
        publish_raw-routed r.type (stringify r.payload) (props_of r) (env.answer r) ch honest refl
          e in
      any-enqueue (carries r) _ _ ch.queued
      ∙ ground (
        arith,
        routed,
        str_eq_self r.payload.event_id,
        str_eq_self (stringify r.payload),
        str_eq_self r.type,
      )

  publish_row-keeps :
      (env : Around) (r x : OutboxRow) (ch : Channel)
      → IsQueued ch.queued x
      → IsQueued (publish_row stringify env r ch).1.queued x
  unfolding publish_row publish_raw
  publish_row-keeps env r x ch q = any-enqueue (carries x) _ _ ch.queued ∙ ground arith

  -- A finished id belongs to a row of the table whose message is queued.
  abbrev IsDone : List OutboxRow → List Message → ℕ → Type 0
  IsDone table queue id = (x : OutboxRow) × (x.id ≡ id) × IsRow table x × IsQueued queue x

  publish_rows-keeps :
      (env : Around) (rows : List OutboxRow) (x : OutboxRow) (ch : Channel)
      → IsQueued ch.queued x
      → IsQueued (publish_rows stringify env rows ch).channel.queued x
  unfolding publish_rows
  publish_rows-keeps env [] x ch q = q
  publish_rows-keeps env (r ∷ rows) x ch q =
      let q' = publish_row-keeps env r x ch q in
      ground (arith, q', publish_rows-keeps env rows x (publish_row stringify env r ch).1 q')

  publish_rows-IsDone :
      (table : List OutboxRow) (env : Around) (rows : List OutboxRow) (ch : Channel)
      → ((r : OutboxRow) → IsHonest (env.answer r))
      → All (IsRow table) rows
      → let l = publish_rows stringify env rows ch in All (IsDone table l.channel.queued) l.done
  unfolding publish_rows
  publish_rows-IsDone table env [] ch honest h = tt
  publish_rows-IsDone table env (r ∷ rows) ch honest h =
      elim (Bool-cases (publish_row stringify env r ch).0) [
        | inr failed ↦ rw failed tt
        | inl sent ↦
            let q = publish_row-IsQueued env r ch (honest r) sent in
            elim (Bool-cases (env.hook_throws r)) [
              | inl hooked ↦ rw (sent, hooked) ((r, refl, h.0, q), tt)
              | inr went ↦
                  rw (sent, went)
                    (
                      (r, refl, h.0, publish_rows-keeps env rows r _ q),
                      publish_rows-IsDone table env rows _ honest h.1,
                    )
            ]
      ]

  -- Every row that is marked published has its message in a queue.
  abbrev pub IsDelivered : World → Type 0
  IsDelivered w = All (λ r. r.published_at ≢ none → IsQueued w.channel.queued r) w.outbox

  mark_done-IsDelivered :
      (now : ℕ) (done : List ℕ) (table rs : List OutboxRow) (queue : List Message)
      → All (IsRow table) rs
      → All (IsDone table queue) done
      → All (λ r. r.published_at ≢ none → IsQueued queue r) rs
      → All (λ r. r.published_at ≢ none → IsQueued queue r) (mark_done now done rs)
  unfolding mark_done
  mark_done-IsDelivered now done table [] queue t d h = tt
  mark_done-IsDelivered now done table (r ∷ rs) queue t d h =
      let rest = mark_done-IsDelivered now done table rs queue t.1 d h.1 in
      elim (Bool-cases (any (λ id. id == r.id) done)) [
        | inr other ↦ rw other (h.0, rest)
        | inl hit ↦
            let (id, same, found) = any-All (IsDone table queue) (λ id. id == r.id) done d hit in
            rw hit (
              (λ _.
                  subst (IsQueued queue) (IsRow-eq table found.0 r found.2 t.0 (ground arith))
                    found.3),
              rest,
            )
      ]

  mark_failed-IsDelivered :
      (id : Option ℕ) (rs : List OutboxRow) (queue : List Message)
      → All (λ r. r.published_at ≢ none → IsQueued queue r) rs
      → All (λ r. r.published_at ≢ none → IsQueued queue r) (mark_failed id rs)
  unfolding mark_failed
  mark_failed-IsDelivered none rs queue h = h
  mark_failed-IsDelivered (some id) [] queue h = tt
  mark_failed-IsDelivered (some id) (r ∷ rs) queue h =
      let rest = mark_failed-IsDelivered (some id) rs queue h.1 in
      elim (Bool-cases (r.id == id)) [
        | inl hit ↦ rw hit (h.0, rest)
        | inr other ↦ rw other (h.0, rest)
      ]

  settle-IsDelivered :
      (env : Around) (rows : List OutboxRow) (w : World) (l : Loop)
      → Distinct (ids w.outbox)
      → All (λ r. r.published_at ≢ none → IsQueued l.channel.queued r) w.outbox
      → All (IsDone w.outbox l.channel.queued) l.done
      → IsDelivered (settle env rows w l).1
  settle-IsDelivered env rows w l d h done =
      elim (Bool-cases (l.hook_threw || env.mark_throws || env.commit_throws)) [
        | inl threw ↦ rw threw h
        | inr committed ↦ rw committed (
            mark_failed-IsDelivered l.failed _ l.channel.queued (
              mark_done-IsDelivered env.now l.done w.outbox w.outbox l.channel.queued
                (Distinct-IsRow w.outbox d) done h))
      ]

  -- However a pass ends, by a commit, a failed publication, an exception or a crash between publish
  -- and commit, every row that is marked published has its message in a queue, with the row's
  -- identifier, type and payload, if that held before and the broker returns what it cannot route.
  pub relay_once-IsDelivered :
      (env : Around) (w : World)
      → Distinct (ids w.outbox)
      → ((r : OutboxRow) → IsHonest (env.answer r))
      → IsDelivered w
      → IsDelivered (relay_once stringify env w).1
  unfolding relay_once
  relay_once-IsDelivered env w d honest h =
      let rows = select_batch env.locked env.batch_size w.outbox in
      if_elim (λ (x : RelayOutcome × World). IsDelivered x.1) env.select_throws (λ _. h)
        λ _.
          settle-IsDelivered env rows w (publish_rows stringify env rows w.channel) d
            (All-imp (λ r q p. publish_rows-keeps env rows r w.channel (q p)) w.outbox h)
            (publish_rows-IsDone w.outbox env rows w.channel honest (
              All-select_batch (IsRow w.outbox) env.locked env.batch_size w.outbox
                (Distinct-IsRow w.outbox d)))
