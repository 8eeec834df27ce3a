-- ===== src/Outbox/Drain.antt =====
-- `relayUntilEmpty` ends: when the broker confirms and nothing else fails, every pass publishes its
-- batch, until no unpublished row is left.
use node_js_nest_course_proj.Base.{
  ℕ, zero, suc, ◌+◌, ◌<◌, String, ◌≡◌, refl, sym, subst, ◌∙◌, true, false, Option, none, some, List,
  [], ◌∷◌, arith, ◌==◌, if_elim, length, Distinct, length-map,
}
use node_js_nest_course_proj.Events.{OrderPlacedEvent}
use node_js_nest_course_proj.Shop.{OutboxRow}
use node_js_nest_course_proj.Messaging.{Channel, publish_raw}
use node_js_nest_course_proj.Outbox.{
  Around, World, RelayOutcome, passed, Loop, publish_row, publish_rows, settle, relay_once,
  relay_until_empty, select_batch, mark_done, mark_failed, after_round,
}
use node_js_nest_course_proj.Outbox.Rows.{ids, ids-mark_done}
use node_js_nest_course_proj.Outbox.Pending.{
  pending, pending-mark_done, count-batch, select_batch-IsBatch, select_batch-empty,
}

-- Nothing goes wrong round a pass, and no other relay holds a lock.
pub record IsSmooth (env : Around) : Type 0 where
  pub some_rows : 0 < env.batch_size
  pub unlocked : (id : ℕ) → env.locked id ≡ false
  pub confirmed : (r : OutboxRow) → (env.answer r).confirmed ≡ true
  pub unreturned : (r : OutboxRow) → (env.answer r).returns ≡ 0
  pub hooks : (r : OutboxRow) → env.hook_throws r ≡ false
  pub selects : env.select_throws ≡ false
  pub marks : env.mark_throws ≡ false
  pub commits : env.commit_throws ≡ false

module _ (stringify : OrderPlacedEvent → String) where
  publish_row-smooth :
      (env : Around) (r : OutboxRow) (ch : Channel)
      → IsSmooth env
      → (publish_row stringify env r ch).0 ≡ true
  unfolding publish_row publish_raw
  publish_row-smooth env r ch s = ground (arith, s.confirmed r, s.unreturned r)

  publish_rows-smooth :
      (env : Around) (rows : List OutboxRow) (ch : Channel)
      → IsSmooth env
      → let l = publish_rows stringify env rows ch in
        (l.done ≡ ids rows) × (l.failed ≡ none) × (l.hook_threw ≡ false)
  unfolding publish_rows
  publish_rows-smooth env [] ch s = (refl, refl, refl)
  publish_rows-smooth env (r ∷ rows) ch s = ground (
    arith,
    publish_row-smooth env r ch s,
    s.hooks r,
    publish_rows-smooth env rows (publish_row stringify env r ch).1 s,
  )

  -- The outbox after a pass that published `rows`.
  abbrev after_pass : Around → World → World
  after_pass env w =
      let rows = select_batch env.locked env.batch_size w.outbox in
      record {
        outbox = mark_done env.now (ids rows) w.outbox;
        channel = (publish_rows stringify env rows w.channel).channel;
      }

  settle-smooth :
      (env : Around) (rows : List OutboxRow) (w : World) (l : Loop)
      → IsSmooth env
      → (l.done ≡ ids rows) × (l.failed ≡ none) × (l.hook_threw ≡ false)
      → settle env rows w l ≡ (
        passed (record { claimed = length rows; published = length rows; error = none }),
        record { outbox = mark_done env.now (ids rows) w.outbox; channel = l.channel },
      )
  unfolding mark_failed
  settle-smooth env rows w l s (e₁, e₂, e₃) =
      ground (arith, s.marks, s.commits, length-map rows (λ r. r.id))

  relay_once-smooth :
      (env : Around) (w : World)
      → IsSmooth env
      → let n = length (select_batch env.locked env.batch_size w.outbox) in
        relay_once stringify env w
        ≡ (passed (record { claimed = n; published = n; error = none }), after_pass env w)
  unfolding relay_once
  relay_once-smooth env w s =
      let rows = select_batch env.locked env.batch_size w.outbox in
      if_elim
        (λ (x : RelayOutcome × World). x ≡ (
          passed (record { claimed = length rows; published = length rows; error = none }),
          after_pass env w,
        ))
        env.select_throws (λ e. absurd (ground (arith, s.selects)))
        λ _.
          settle-smooth env rows w (publish_rows stringify env rows w.channel) s
            (publish_rows-smooth env rows w.channel s)

  pending-after_pass :
      (env : Around) (w : World)
      → Distinct (ids w.outbox)
      → pending (after_pass env w).outbox + length (select_batch env.locked env.batch_size w.outbox)
        ≡ pending w.outbox
  pending-after_pass env w d =
      let rows = select_batch env.locked env.batch_size w.outbox in
      omega (
        arith,
        pending-mark_done env.now (ids rows) w.outbox,
        count-batch w.outbox rows d (select_batch-IsBatch env.locked env.batch_size w.outbox d),
      )

  -- What a finished run has achieved.
  abbrev pub Drained : ℕ → World → Option (Option ℕ × World) → Type 0
  Drained total w none = ⊥
  Drained total w (some (none, w')) = ⊥
  Drained total w (some (some n, w')) =
      (n ≡ total + pending w.outbox) × (pending w'.outbox ≡ 0) × (ids w'.outbox ≡ ids w.outbox)

  -- A run from the state after a pass is a run from the state before it.
  Drained-pass :
      (n total : ℕ) (w w' : World) (r : Option (Option ℕ × World))
      → pending w'.outbox + n ≡ pending w.outbox
      → ids w'.outbox ≡ ids w.outbox
      → Drained (total + n) w' r
      → Drained total w r
  Drained-pass n total w w' none e same h = h
  Drained-pass n total w w' (some (none, v)) e same h = h
  Drained-pass n total w w' (some (some m, v)) e same h = (omega arith, h.1, h.2 ∙ same)

  round-Drained :
      (env : Around) (total : ℕ) (w : World) (again : ℕ → World → Option (Option ℕ × World))
      → IsSmooth env
      → Distinct (ids w.outbox)
      → let n = length (select_batch env.locked env.batch_size w.outbox) in
        (0 < n → Drained (total + n) (after_pass env w) (again (total + n) (after_pass env w)))
        → Drained total w (
            after_round total again
              (passed (record { claimed = n; published = n; error = none }), after_pass env w))
  round-Drained env total w again s d next =
      let rows = select_batch env.locked env.batch_size w.outbox in
      let same : ids (after_pass env w).outbox ≡ ids w.outbox =
        ids-mark_done env.now (ids rows) w.outbox in
      let fewer = pending-after_pass env w d in
      (elim (length rows == 0)
          as (λ b.
            (length rows == 0) ≡ b
            → Drained total w (elim b [
              | true ↦ some (some (total + length rows), after_pass env w)
              | false ↦ again (total + length rows) (after_pass env w)
            ])) [
              | true ↦ λ empty.
                  let none_left : pending w.outbox ≡ 0 =
                    select_batch-empty env.locked env.batch_size w.outbox s.unlocked s.some_rows
                      (ground arith) in
                  (ground (arith, none_left, fewer), omega (arith, none_left, fewer), same)
              | false ↦ λ more.
                  Drained-pass (length rows) total w (after_pass env w) _ fewer same
                    (next (ground arith))
            ])
        refl

  -- With more fuel than there are unpublished rows, and every pass undisturbed, the loop ends: it
  -- returns the number of rows that were unpublished, leaves none unpublished, and adds or drops no
  -- row.
  pub relay_until_empty-Drained :
      (fuel : ℕ) (envs : ℕ → Around) (k total : ℕ) (w : World)
      → ((n : ℕ) → IsSmooth (envs n))
      → Distinct (ids w.outbox)
      → pending w.outbox < fuel
      → Drained total w (relay_until_empty stringify fuel envs k total w)
  unfolding relay_until_empty
  relay_until_empty-Drained zero envs k total w s d h = absurd (omega arith)
  relay_until_empty-Drained (suc fuel) envs k total w s d h =
      let n = length (select_batch (envs k).locked (envs k).batch_size w.outbox) in
      let w' = after_pass (envs k) w in
      subst
        (λ x. Drained total w (after_round total (relay_until_empty stringify fuel envs (suc k)) x))
        (sym (relay_once-smooth (envs k) w (s k)))
        (round-Drained (envs k) total w (relay_until_empty stringify fuel envs (suc k)) (s k) d
          λ pos.
            relay_until_empty-Drained fuel envs (suc k) (total + n) w' s
              (subst Distinct (sym (ids-mark_done (envs k).now _ w.outbox)) d)
              (omega (arith, pending-after_pass (envs k) w d)))
