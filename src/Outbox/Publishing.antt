-- ===== src/Outbox/Publishing.antt =====
-- Order within a pass: a batch is published from its first row on, up to the first that fails, and
-- the relay never edits what it publishes.
use node_js_nest_course_proj.Base.{
  ℕ, ◌+◌, ◌≤◌, String, ◌≡◌, refl, ap, ◌∙◌, inl, inr, Bool, false, ◌||◌, Option, none, some, List,
  [], ◌∷◌, map, arith, ◌==◌, if◌then◌else◌, Bool-cases, if_elim, length, take, drop, head?, any,
  length-take_eq, length-map,
}
use node_js_nest_course_proj.Events.{OrderPlacedEvent}
use node_js_nest_course_proj.Shop.{OutboxRow}
use node_js_nest_course_proj.Messaging.{Channel}
use node_js_nest_course_proj.Outbox.{
  Around, World, RelayOutcome, passed, threw, Loop, publish_row, publish_rows, settle, relay_once,
  select_batch, mark_done, mark_failed,
}
use node_js_nest_course_proj.Outbox.Rows.{ids}

-- The columns that the relay must leave alone.
abbrev pub content_of : OutboxRow → ℕ × String × ℕ × String × OrderPlacedEvent × ℕ
content_of r = (r.id, r.aggregate_type, r.aggregate_id, r.type, r.payload, r.created_at)

mark_done-content :
    (now : ℕ) (done : List ℕ) (rs : List OutboxRow)
    → map content_of (mark_done now done rs) ≡ map content_of rs
unfolding mark_done
mark_done-content now done [] = refl
mark_done-content now done (r ∷ rs) = ground (arith, mark_done-content now done rs)

mark_failed-content :
    (id : Option ℕ) (rs : List OutboxRow) → map content_of (mark_failed id rs) ≡ map content_of rs
unfolding mark_failed
mark_failed-content none rs = refl
mark_failed-content (some id) [] = refl
mark_failed-content (some id) (r ∷ rs) = ground (arith, mark_failed-content (some id) rs)

abbrev pub is_failed : Option ℕ → ℕ → Bool
is_failed none id = false
is_failed (some failed) id = id == failed

-- What a row is after a pass that published some ids and failed at one: a published row has its time,
-- and each row that was tried has one more attempt.
abbrev pub reported : ℕ → List ℕ → Option ℕ → OutboxRow → OutboxRow
reported now done error r = record r {
  published_at = if any (λ id. id == r.id) done then some now else r.published_at;
  attempts =
      r.attempts
      + (if any (λ id. id == r.id) done then 1 else 0)
      + (if is_failed error r.id then 1 else 0);
}

marks-reported :
    (now : ℕ) (done : List ℕ) (error : Option ℕ) (rs : List OutboxRow)
    → mark_failed error (mark_done now done rs) ≡ map (reported now done error) rs
unfolding mark_failed mark_done
marks-reported now done none [] = refl
marks-reported now done (some failed) [] = refl
marks-reported now done none (r ∷ rs) = elim (Bool-cases (any (λ id. id == r.id) done)) [
  | inl hit ↦ ground (arith, hit, marks-reported now done none rs)
  | inr miss ↦ ground (arith, miss, marks-reported now done none rs)
]
marks-reported now done (some failed) (r ∷ rs) = elim (Bool-cases (any (λ id. id == r.id) done)) [
  | inl hit ↦ ground (arith, hit, marks-reported now done (some failed) rs)
  | inr miss ↦ ground (arith, miss, marks-reported now done (some failed) rs)
]

module _ (stringify : OrderPlacedEvent → String) where
  -- The loop has finished a prefix of the batch; a failure is the row right behind that prefix, and
  -- without a failure or a throwing hook the prefix is the whole batch.
  abbrev IsPrefixLoop : List OutboxRow → Loop → Type 0
  IsPrefixLoop rows l =
      (l.done ≡ take (length l.done) (ids rows))
      × ((id : ℕ) → l.failed ≡ some id → head? (drop (length l.done) (ids rows)) ≡ some id)
      × (l.failed ≡ none → l.hook_threw ≡ false → l.done ≡ ids rows)

  publish_rows-prefix :
      (env : Around) (rows : List OutboxRow) (ch : Channel)
      → IsPrefixLoop rows (publish_rows stringify env rows ch)
  unfolding publish_rows
  publish_rows-prefix env [] ch = (refl, λ id e. absurd (cc), λ _ _. refl)
  publish_rows-prefix env (r ∷ rows) ch =
      let ih = publish_rows-prefix env rows (publish_row stringify env r ch).1 in
      elim (Bool-cases (publish_row stringify env r ch).0) [
        | inr stop ↦ rw stop (refl, λ id e. e, λ e. absurd (cc))
        | inl sent ↦ elim (Bool-cases (env.hook_throws r)) [
          | inl hooked ↦ rw (sent, hooked) (refl, λ id e. absurd (cc), λ _ e. absurd (cc))
          | inr went ↦
              rw (sent, went)
                (
                  ap (λ l. r.id ∷ l) ih.0,
                  λ id e. ih.1 id e,
                  λ e₁ e₂. ap (λ l. r.id ∷ l) (ih.2 e₁ e₂),
                )
        ]
      ]

  abbrev pub Reports : Around → World → RelayOutcome × World → Type 0
  Reports env w (threw, w') = w'.outbox ≡ w.outbox
  Reports env w (passed pass, w') =
      let batch = select_batch env.locked env.batch_size w.outbox in
      (pass.claimed ≡ length batch)
      × (pass.published ≤ pass.claimed)
      × (pass.error ≡ none → pass.published ≡ pass.claimed)
      × ((id : ℕ) → pass.error ≡ some id → head? (drop pass.published (ids batch)) ≡ some id)
      × (w'.outbox ≡ map (reported env.now (take pass.published (ids batch)) pass.error) w.outbox)
      × (map content_of w'.outbox ≡ map content_of w.outbox)

  length-done-le : (done rest : List ℕ) → done ≡ take (length done) rest → length done ≤ length rest
  length-done-le done rest e = omega (arith, ap length e, length-take_eq (length done) rest)

  settle-Reports :
      (env : Around) (w : World) (l : Loop)
      → let batch = select_batch env.locked env.batch_size w.outbox in
        IsPrefixLoop batch l → Reports env w (settle env batch w l)
  settle-Reports env w l (prefix, stop, all) =
      let batch = select_batch env.locked env.batch_size w.outbox in
      if_elim (λ (x : RelayOutcome × World). Reports env w x)
        (l.hook_threw || env.mark_throws || env.commit_throws) (λ _. refl)
        λ ok. (
          refl,
          omega (arith, length-done-le l.done (ids batch) prefix, length-map batch (λ r. r.id)),
          λ e. ap length (all e (ground arith)) ∙ length-map batch (λ r. r.id),
          stop,
          ap (λ d. mark_failed l.failed (mark_done env.now d w.outbox)) prefix
              ∙ marks-reported env.now (take (length l.done) (ids batch)) l.failed w.outbox,
          mark_failed-content l.failed _ ∙ mark_done-content env.now l.done w.outbox,
        )

  -- A pass that throws leaves the table as it was. One that returns has set the time of the first
  -- `published` rows of its batch, has counted an attempt for these and for the row behind them if
  -- that failed, has left every other row and field, has published the whole batch if none failed,
  -- and has changed no event.
  pub relay_once-Reports : (env : Around) (w : World) → Reports env w (relay_once stringify env w)
  unfolding relay_once
  relay_once-Reports env w =
      let batch = select_batch env.locked env.batch_size w.outbox in
      if_elim (λ (x : RelayOutcome × World). Reports env w x) env.select_throws (λ _. refl)
        λ _. settle-Reports env w _ (publish_rows-prefix env batch w.channel)
