-- ===== src/Outbox/Emptied.antt =====
-- The outbox after `relayUntilEmpty`: every event that it held lies in a queue.
use node_js_nest_course_proj.Base.{
  ℕ, zero, suc, ◌+◌, ◌<◌, String, ◌≡◌, refl, sym, ap, subst, ◌∙◌, ◌≢◌, true, false, ◌&&◌, Option,
  none, some, List, [], ◌∷◌, map, arith, ◌==◌, str_eq, any, All, All-imp, All-and, Distinct,
}
use node_js_nest_course_proj.Events.{OrderPlacedEvent}
use node_js_nest_course_proj.Shop.{OutboxRow}
use node_js_nest_course_proj.Messaging.{Message, IsHonest}
use node_js_nest_course_proj.Outbox.{
  Around, World, RelayOutcome, passed, threw, relay_once, relay_until_empty, after_round,
  start_relay,
}
use node_js_nest_course_proj.Outbox.Rows.{ids}
use node_js_nest_course_proj.Outbox.Pending.{pending}
use node_js_nest_course_proj.Outbox.Publishing.{content_of, Reports, relay_once-Reports}
use node_js_nest_course_proj.Outbox.Delivered.{IsQueued, IsDelivered, relay_once-IsDelivered}
use node_js_nest_course_proj.Outbox.Drain.{IsSmooth, Drained, relay_until_empty-Drained}

All-map :
    {A B : Type 0} (P : B → Type 0) (f : A → B) (xs : List A)
    → All (λ x. P (f x)) xs
    → All P (map f xs)
All-map P f [] h = tt
All-map P f (x ∷ xs) h = (h.0, All-map P f xs h.1)

map-All :
    {A B : Type 0} (P : B → Type 0) (f : A → B) (xs : List A)
    → All P (map f xs)
    → All (λ x. P (f x)) xs
map-All P f [] h = tt
map-All P f (x ∷ xs) h = (h.0, map-All P f xs h.1)

-- What holds of what a map gives holds of what another map gives, where the two agree.
pub All-transfer :
    {A B C : Type 0} (P : C → Type 0) (f : A → C) (g : B → C) (xs : List A) (ys : List B)
    → map f xs ≡ map g ys
    → All (λ x. P (f x)) xs
    → All (λ y. P (g y)) ys
All-transfer P f g xs ys same h = map-All P g ys (subst (All P) same (All-map P f xs h))

none-pending : (rs : List OutboxRow) → pending rs ≡ 0 → All (λ r. r.published_at ≢ none) rs
none-pending [] h = tt
none-pending (r ∷ rs) h = (λ e. ground (arith, e), none-pending rs (ground arith))

module _ (stringify : OrderPlacedEvent → String) where
  -- The message of a row, by the columns that no pass touches.
  abbrev IsSent : List Message → ℕ × String × ℕ × String × OrderPlacedEvent × ℕ → Type 0
  IsSent queue c =
      any
        (λ m.
          str_eq m.message_id (c.4).event_id
          && str_eq m.content (stringify c.4)
          && str_eq m.routing_key c.3)
        queue
      ≡ true

  -- What every pass keeps, the loop keeps.
  abbrev Ends : (World → Type 0) → Option (Option ℕ × World) → Type 0
  Ends P none = Unit
  Ends P (some (_, w)) = P w

  round-Ends :
      (P : World → Type 0) (total : ℕ) (again : ℕ → World → Option (Option ℕ × World))
      (x : RelayOutcome × World)
      → P x.1
      → ((t : ℕ) → Ends P (again t x.1))
      → Ends P (after_round total again x)
  round-Ends P total again (threw, w) h k = h
  round-Ends P total again (passed pass, w) h k =
      elim pass.error
        as (λ o. Ends P (elim o [
          | some _ ↦ some (none, w)
          | none ↦ elim (pass.claimed == 0) [
            | true ↦ some (some (total + pass.published), w)
            | false ↦ again (total + pass.published) w
          ]
        ])) [
          | some _ ↦ h
          | none ↦
              elim (pass.claimed == 0)
                as (λ b. Ends P (elim b [
                  | true ↦ some (some (total + pass.published), w)
                  | false ↦ again (total + pass.published) w
                ])) [ true ↦ h | false ↦ k (total + pass.published) ]
        ]

  relay_until_empty-Ends :
      (P : World → Type 0) (envs : ℕ → Around)
      → ((n : ℕ) (w : World) → P w → P (relay_once stringify (envs n) w).1)
      → (fuel : ℕ) (k total : ℕ) (w : World) → P w
      → Ends P (relay_until_empty stringify fuel envs k total w)
  unfolding relay_until_empty
  relay_until_empty-Ends P envs keeps zero k total w h = tt
  relay_until_empty-Ends P envs keeps (suc fuel) k total w h =
      round-Ends P total (relay_until_empty stringify fuel envs (suc k))
        (relay_once stringify (envs k) w) (keeps k w h)
        (λ t.
          relay_until_empty-Ends P envs keeps fuel (suc k) t (relay_once stringify (envs k) w).1
            (keeps k w h))

  Reports-content :
      (env : Around) (w : World) (x : RelayOutcome × World)
      → Reports stringify env w x
      → map content_of x.1.outbox ≡ map content_of w.outbox
  Reports-content env w (threw, w2) h = ap (map content_of) h
  Reports-content env w (passed pass, w2) h = h.5

  ids-content : (rs : List OutboxRow) → map (λ c. c.0) (map content_of rs) ≡ ids rs
  ids-content [] = refl
  ids-content (r ∷ rs) = ap (λ l. r.id ∷ l) (ids-content rs)

  -- A pass keeps the events of the table, and what is marked published is delivered.
  abbrev pub Holds : List OutboxRow → World → Type 0
  Holds rows w = IsDelivered stringify w × (map content_of w.outbox ≡ map content_of rows)

  content-Distinct :
      (rows table : List OutboxRow)
      → Distinct (ids rows)
      → map content_of table ≡ map content_of rows
      → Distinct (ids table)
  content-Distinct rows table d same =
      subst Distinct (sym (ids-content rows) ∙ ap (map (λ c. c.0)) (sym same) ∙ ids-content table) d

  pass-Holds :
      (rows : List OutboxRow) (env : Around) (w : World)
      → Distinct (ids rows)
      → ((r : OutboxRow) → IsHonest (env.answer r))
      → Holds rows w
      → Holds rows (relay_once stringify env w).1
  pass-Holds rows env w d honest h = (
    relay_once-IsDelivered stringify env w (content-Distinct rows w.outbox d h.1) honest h.0,
    Reports-content env w (relay_once stringify env w) (relay_once-Reports stringify env w) ∙ h.1,
  )

  turns-Holds :
      (envs : List Around) (first w : World)
      → Distinct (ids first.outbox)
      → All (λ env. (r : OutboxRow) → IsHonest (env.answer r)) envs
      → Holds first.outbox w
      → Holds first.outbox (start_relay stringify envs w).1
  unfolding start_relay
  turns-Holds [] first w d honest h = h
  turns-Holds (env ∷ envs) first w d honest h =
      turns-Holds envs first (relay_once stringify env w).1 d honest.1
        (pass-Holds first.outbox env w d honest.0 h)

  -- When the loop has emptied the outbox, every row that it began with has its message in a queue.
  pub emptied-IsQueued :
      (fuel : ℕ) (envs : ℕ → Around) (w final : World) (n : ℕ)
      → ((k : ℕ) → IsSmooth (envs k))
      → ((k : ℕ) (r : OutboxRow) → IsHonest ((envs k).answer r))
      → Distinct (ids w.outbox)
      → pending w.outbox < fuel
      → IsDelivered stringify w
      → relay_until_empty stringify fuel envs 0 0 w ≡ some (some n, final)
      → All (IsQueued stringify final.channel.queued) w.outbox
  emptied-IsQueued fuel envs w final n smooth honest d enough h ends =
      let drained =
        subst (Drained stringify 0 w) ends
          (relay_until_empty-Drained stringify fuel envs 0 0 w smooth d enough) in
      let holds = subst (Ends (Holds w.outbox)) ends (
        relay_until_empty-Ends (Holds w.outbox) envs
          (λ k v. pass-Holds w.outbox (envs k) v d (honest k)) fuel 0 0 w (h, refl)) in
      let queued =
        All-imp (λ r h. h.0 h.1) final.outbox
          (All-and (λ r. r.published_at ≢ none → IsQueued stringify final.channel.queued r)
            (λ r. r.published_at ≢ none) final.outbox holds.0
            (none-pending final.outbox drained.1)) in
      All-transfer (IsSent final.channel.queued) content_of content_of final.outbox w.outbox holds.1
        queued

  -- However the turns of the background loop go, failures, exceptions and locks included: what is
  -- marked published is delivered, and no event is lost or changed.
  pub start_relay-Holds :
      (envs : List Around) (w : World)
      → Distinct (ids w.outbox)
      → All (λ env. (r : OutboxRow) → IsHonest (env.answer r)) envs
      → IsDelivered stringify w
      → Holds w.outbox (start_relay stringify envs w).1
  start_relay-Holds envs w d honest h = turns-Holds envs w w d honest (h, refl)
